-- ===== src/Static/Verdict.antt =====
-- src/st/algorithm.rs: a whole beat without a poll, and the end of a call of `poll_internal`.
use juggle.Prelude.{
  ℕ, zero, suc, ◌+◌, ◌≤◌, ◌<◌, ◌≡◌, ◌≢◌, refl, ap, ◌∙◌, subst, ◌⊎◌, inl, inr, Bool, true, false,
  ◌||◌, Option, none, some, get_elem?, get_elem?-eq_none, length, ◌==◌, if◌then◌else◌, arith,
  Outcome, ok, panic, ◌>>=◌, >>=-eq_ok, Option-cases, dec_lt,
}
use juggle.StaticTask.{StaticAct}
use juggle.Static.{StaticAlgorithm, set_waker}
use juggle.Static.Beat.{visit, beat_from, beat_once, finish, poll_loop, poll_internal}
use juggle.Static.Rest.{Settled, Rests, Quiet, Quiet-refl, by_reason}
use juggle.Scheduler.{Poll, pending, ready}

module _ {F : Type 0} (initial : ℕ → StaticAct F) (behaviour : F → ℕ → StaticAct (Option F)) where
  visit-Quiet :
      (key : ℕ) (s t : StaticAlgorithm F)
      → visit initial behaviour key s ≡ ok (false, t)
      → Quiet initial behaviour key s t
  unfolding visit
  visit-Quiet key s t h = elim (Option-cases (get_elem? s.registry key)) [
    | inl e ↦
        let same : s ≡ t = cc (rw (e, visit) at h) in
        subst (Quiet initial behaviour key s) same
          (Quiet-refl initial behaviour key s (rw e tt) (rw e tt))
    | inr (task, e) ↦
        by_reason initial behaviour key task s t e task.stop_reason refl (rw (e, visit) at h)
  ]

  -- `t` after rounds without a poll at the keys from `key` on.
  record Swept (key left : ℕ) (s t : StaticAlgorithm F) : Type 0 where
    outside :
        (j : ℕ) → (j < key) ⊎ (key + left ≤ j) → get_elem? t.registry j ≡ get_elem? s.registry j
    settled : (j : ℕ) → key ≤ j → j < key + left → Settled (get_elem? t.registry j)
    rests :
        (j : ℕ)
        → key ≤ j
        → j < key + left
        → Settled (get_elem? s.registry j)
        → Rests (get_elem? t.registry j)
    same_waker : t.last_waker ≡ s.last_waker

  Swept-step :
      (key left : ℕ) (s u t : StaticAlgorithm F)
      → Quiet initial behaviour key s u
      → Swept (suc key) left u t
      → Swept key (suc left) s t
  Swept-step key left s u t q w = record {
    outside = λ j out. elim out [
      | inl lt ↦ w.outside j (inl (omega arith)) ∙ q.others j (omega arith)
      | inr ge ↦ w.outside j (inr (omega arith)) ∙ q.others j (omega arith)
    ];
    settled = λ j le lt. elim (dec_lt key j) [
      | yes above ↦ w.settled j above (omega arith)
      | no at ↦
          let here : key ≡ j = omega arith in
          subst (λ k. Settled (get_elem? t.registry k)) here
            (rw (w.outside key (inl (omega arith))) q.settled)
    ];
    rests = λ j le lt st. elim (dec_lt key j) [
      | yes above ↦ w.rests j above (omega arith) (rw (q.others j (omega arith)) st)
      | no at ↦
          let here : key ≡ j = omega arith in
          subst (λ k. Settled (get_elem? s.registry k) → Rests (get_elem? t.registry k)) here
            (λ st'. rw (w.outside key (inl (omega arith))) (q.rests st')) st
    ];
    same_waker = w.same_waker ∙ q.same_waker;
  }

  beat_from-Swept :
      (left key : ℕ) (any_poll : Bool) (s t : StaticAlgorithm F)
      → beat_from initial behaviour left key any_poll s ≡ ok (false, t)
      → (any_poll ≡ false) × Swept key left s t
  unfolding beat_from
  beat_from-Swept zero key any_poll s t h =
      let same : s ≡ t = cc in
      (
        cc,
        subst (Swept key 0 s) same (record {
          outside = λ j out. refl;
          settled = λ j le lt. absurd (omega arith);
          rests = λ j le lt st. absurd (omega arith);
          same_waker = refl;
        }),
      )
  beat_from-Swept (suc left) key any_poll s t h =
      let (r, e, h') = >>=-eq_ok (visit initial behaviour key s) _ h in
      let (quiet, w) = beat_from-Swept left (suc key) (any_poll || r.0) r.1 t h' in
      let neither = or_false any_poll r.0 quiet in
      (
        neither.0,
        Swept-step key left s r.1 t (visit-Quiet key s r.1 (e ∙ ap (λ b. ok (b, r.1)) neither.1)) w,
      )
    where
      or_false : (a b : Bool) → (a || b) ≡ false → (a ≡ false) × (b ≡ false)
      or_false a b h = ground arith

  -- The tasks after a beat that reports no poll.
  pub record Silent (s t : StaticAlgorithm F) : Type 0 where
    pub settled : (j : ℕ) → Settled (get_elem? t.registry j)
    pub rests :
        ((j : ℕ) → Settled (get_elem? s.registry j)) → (j : ℕ) → Rests (get_elem? t.registry j)
    pub same_waker : t.last_waker ≡ s.last_waker

  -- After a beat that reports no poll no task is to be restarted; if none was before it, then no
  -- task can be polled.
  pub beat_once-Silent :
      (s t : StaticAlgorithm F) → beat_once initial behaviour s ≡ ok (false, t) → Silent s t
  unfolding beat_once
  beat_once-Silent s t h = record {
    settled = λ j. elim (dec_lt j (length s.registry)) [
      | yes below ↦ w.settled j (omega arith) (omega arith)
      | no above ↦ rw (beyond j (omega arith)) tt
    ];
    rests = λ st j. elim (dec_lt j (length s.registry)) [
      | yes below ↦ w.rests j (omega arith) (omega arith) (st j)
      | no above ↦ rw (beyond j (omega arith)) tt
    ];
    same_waker = w.same_waker;
  }
    where
      w : Swept 0 (length s.registry) s t
      w = (beat_from-Swept (length s.registry) 0 false s t h).1

      beyond : (j : ℕ) → length s.registry ≤ j → get_elem? t.registry j ≡ none
      beyond j le = w.outside j (inr (omega arith)) ∙ get_elem?-eq_none s.registry j le

  -- What the result of a call says: the waker that is left, and what the counts are.
  abbrev pub Verdict : ℕ → Poll → StaticAlgorithm F → Type 0
  Verdict waker pending t =
      (t.last_waker ≡ some waker)
      × (t.unfinished_count ≢ 0)
      × (t.unfinished_count ≢ t.suspended_count)
  Verdict waker (ready true) t = (t.last_waker ≡ none) × (t.unfinished_count ≡ 0)
  Verdict waker (ready false) t =
      (t.last_waker ≡ none) × (t.unfinished_count ≢ 0) × (t.unfinished_count ≡ t.suspended_count)

  abbrev result : StaticAlgorithm F → Bool → Bool → Poll × StaticAlgorithm F
  result s a b = if a || b then (ready a, set_waker none s) else (pending, s)

  finish-Verdict :
      (waker : ℕ) (s : StaticAlgorithm F)
      → s.last_waker ≡ some waker
      → Verdict waker (finish s).0 (finish s).1
  finish-Verdict waker s w =
      by_tests (s.unfinished_count == 0) (s.unfinished_count == s.suspended_count) refl refl
    where
      by_tests :
          (a b : Bool)
          → (s.unfinished_count == 0) ≡ a
          → (s.unfinished_count == s.suspended_count) ≡ b
          → Verdict waker (result s a b).0 (result s a b).1
      by_tests true b left all = (refl, ground (arith, left))
      by_tests false true left all = (refl, ground (arith, left), ground (arith, all))
      by_tests false false left all = (w, ground (arith, left), ground (arith, all))

  finish-registry : (s : StaticAlgorithm F) → (finish s).1.registry ≡ s.registry
  finish-registry s = ground arith

  -- What a call that returns concludes.
  abbrev Concludes : ℕ → Outcome (Option (Poll × StaticAlgorithm F)) → Type 0
  Concludes waker (panic p) = Unit {0}
  Concludes waker (ok none) = Unit {0}
  Concludes waker (ok (some (p, t))) =
      Verdict waker p t × ((j : ℕ) → Rests (get_elem? t.registry j))

  poll_loop-Concludes :
      (fuel waker : ℕ) (s : StaticAlgorithm F)
      → Concludes waker (poll_loop initial behaviour fuel waker s)
  unfolding poll_loop
  poll_loop-Concludes zero waker s = tt
  poll_loop-Concludes (suc fuel) waker s =
      first (beat_once initial behaviour s) refl (poll_loop-Concludes fuel waker)
    where
      second :
          (u : StaticAlgorithm F) (q : Outcome (Bool × StaticAlgorithm F))
          → u.last_waker ≡ some waker
          → ((j : ℕ) → Settled (get_elem? u.registry j))
          → beat_once initial behaviour u ≡ q
          → ((v : StaticAlgorithm F) → Concludes waker (poll_loop initial behaviour fuel waker v))
          → Concludes waker (
              q >>= λ q. elim q.0 [
                | true ↦ poll_loop initial behaviour fuel waker (set_waker none q.1)
                | false ↦ ok (some (finish q.1))
              ])
      second u (panic p) here settled e again = tt
      second u (ok (true, t)) here settled e again = again (set_waker none t)
      second u (ok (false, t)) here settled e again =
          let silent = beat_once-Silent u t e in
          (
            finish-Verdict waker t (silent.same_waker ∙ here),
            λ j. rw (finish-registry t) (silent.rests settled j),
          )

      first :
          (r : Outcome (Bool × StaticAlgorithm F))
          → beat_once initial behaviour s ≡ r
          → ((v : StaticAlgorithm F) → Concludes waker (poll_loop initial behaviour fuel waker v))
          → Concludes waker (
              r >>= λ r. elim r.0 [
                | true ↦ poll_loop initial behaviour fuel waker r.1
                | false ↦ beat_once initial behaviour (set_waker (some waker) r.1) >>= λ q.
                    elim q.0 [
                      | true ↦ poll_loop initial behaviour fuel waker (set_waker none q.1)
                      | false ↦ ok (some (finish q.1))
                    ]
              ])
      first (panic p) e again = tt
      first (ok (true, u)) e again = again u
      first (ok (false, u)) e again =
          second (set_waker (some waker) u) (beat_once initial behaviour (set_waker (some waker) u))
            refl (beat_once-Silent s u e).settled refl again

  -- When a call of `poll_internal` returns, no task can be polled and none is to be restarted, and
  -- its result says what the counts are: Ready(true) only when no task is counted as unfinished,
  -- Ready(false) only when as many are counted as unfinished as are as suspended, and Pending only
  -- otherwise, with the caller's waker registered.
  pub poll_internal-Verdict :
      (fuel waker : ℕ) (s : StaticAlgorithm F) (p : Poll) (t : StaticAlgorithm F)
      → poll_internal initial behaviour fuel waker s ≡ ok (some (p, t))
      → Verdict waker p t × ((j : ℕ) → Rests (get_elem? t.registry j))
  unfolding poll_internal
  poll_internal-Verdict fuel waker s p t h =
      subst (Concludes waker) h (poll_loop-Concludes fuel waker (set_waker none s))
