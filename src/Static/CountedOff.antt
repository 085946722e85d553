-- ===== src/Static/CountedOff.antt =====
-- src/st/algorithm.rs: how a wheel at rest counts off its cancelled tasks.
use juggle.Prelude.{
  ℕ, zero, suc, ◌+◌, ◌<◌, ◌≡◌, ◌≢◌, refl, sym, ap, ◌∙◌, subst, inl, inr, Bool, true, false, ◌||◌,
  Option, none, some, get_elem?, set, get_elem?-set, get_elem?-set_self, length, length-set,
  ℕ_discrete, ◌==◌, if◌then◌else◌, arith, Outcome, ok, panic, subtract_overflow, ◌>>=◌,
  Option-cases,
}
use juggle.StaticTask.{StopReason, StaticFuture, StaticAct, clear_task}
use juggle.Static.{StaticAlgorithm, dec_unfinished, lower_unfinished, set_waker}
use juggle.Static.Beat.{visit_task, visit, beat_from, beat_once, finish, poll_loop, poll_internal}
use juggle.Static.Inv.{change_lem}
use juggle.Static.Safe.{clear_lem}
use juggle.Static.Rest.{poll_task_waits}
use juggle.Scheduler.{Poll, pending, ready}
use juggle.Static.Still.{
  off_reason, off, Still, IsStill, off_from, cancelled_count, SameTasks, off_from-same,
  SameTasks-frame, SameTasks-trans,
}

module _ {F : Type 0} where
  -- `c` tasks are counted off, or the count falls below 0.
  abbrev CountsOff : ℕ → StaticAlgorithm F → Outcome (Bool × StaticAlgorithm F) → Type 0
  CountsOff c s (panic p) = (p ≡ subtract_overflow) × (s.unfinished_count < c)
  CountsOff c s (ok (polled, t)) =
      (polled ≡ false) × (t.unfinished_count + c ≡ s.unfinished_count) × SameTasks s t

  dec_CountsOff :
      (s t : StaticAlgorithm F)
      → t.unfinished_count ≡ s.unfinished_count
      → ((n : ℕ) → SameTasks s (record t { unfinished_count = n }))
      → CountsOff 1 s (dec_unfinished t >>= λ u. ok (false, u))
  unfolding dec_unfinished
  dec_CountsOff s t e same = by_count t.unfinished_count refl
    where
      by_count :
          (n : ℕ)
          → t.unfinished_count ≡ n
          → CountsOff 1 s (lower_unfinished n t >>= λ u. ok (false, u))
      by_count zero c = (refl, omega arith)
      by_count (suc n) c = (refl, omega arith, same n)

  module _ (initial : ℕ → StaticAct F) (behaviour : F → ℕ → StaticAct (Option F)) where
    Still-task :
        (key : ℕ) (s : StaticAlgorithm F) (task : StaticFuture F)
        → IsStill s
        → get_elem? s.registry key ≡ some task
        → Still (some task)
    Still-task key s task still e = subst Still e (still key)

    stays : (s : StaticAlgorithm F) → IsStill s → CountsOff 0 s (ok (false, s))
    stays s still = (
      refl,
      omega arith,
      record { still = still; same_off = λ j. refl; same_length = refl; same_suspended = refl },
    )

    -- The memory of a cancelled task is cleared.
    cleared :
        (key : ℕ) (s : StaticAlgorithm F) (task : StaticFuture F) (n : ℕ)
        → IsStill s
        → get_elem? s.registry key ≡ some task
        → SameTasks s (record s {
          registry = set s.registry key (clear_task false task);
          unfinished_count = n;
        })
    cleared key s task n still e = record {
      still = λ j. elim (ℕ_discrete key j) [
        | yes at ↦ rw (at_key j at) (Still-task key s task still e)
        | no away ↦ rw (beside j away) (still j)
      ];
      same_off = λ j. elim (ℕ_discrete key j) [
        | yes at ↦ rw (at_key j at) (ap off (sym e) ∙ ap (λ i. off (get_elem? s.registry i)) at)
        | no away ↦ rw (beside j away)
      ];
      same_length = length-set s.registry key (clear_task false task);
      same_suspended = refl;
    }
      where
        at_key :
            (j : ℕ)
            → key ≡ j
            → get_elem? (set s.registry key (clear_task false task)) j
              ≡ some (clear_task false task)
        at_key j at =
            subst
              (λ i.
                get_elem? (set s.registry key (clear_task false task)) i
                ≡ some (clear_task false task))
              at (get_elem?-set_self s.registry key task _ e)

        beside :
            (j : ℕ)
            → key ≢ j
            → get_elem? (set s.registry key (clear_task false task)) j ≡ get_elem? s.registry j
        beside j away = get_elem?-set s.registry key j _ ∙ ground arith

    by_reason :
        (key : ℕ) (s : StaticAlgorithm F) (task : StaticFuture F)
        → IsStill s
        → get_elem? s.registry key ≡ some task
        → (o : StopReason) → task.stop_reason ≡ o
        → CountsOff (off_reason o) s (visit_task initial behaviour key task o s)
    unfolding visit_task
    by_reason key s task still e StopReason.none was =
        let (idle, r) = Still-task key s task still e in
        rw (poll_task_waits initial behaviour false key task s (r.2 was)) (stays s still)
    by_reason key s task still e StopReason.suspended was = stays s still
    by_reason key s task still e StopReason.finished was = stays s still
    by_reason key s task still e StopReason.restart was =
        absurd ((Still-task key s task still e).1.0 was)
    by_reason key s task still e StopReason.restart_suspended was =
        absurd ((Still-task key s task still e).1.1 was)
    by_reason key s task still e StopReason.cancelled was =
        let (idle, r) = Still-task key s task still e in
        rw (clear_lem initial behaviour false key task s idle) (
          rw (change_lem (clear_task false) key s task e) (
            dec_CountsOff s (record s { registry = set s.registry key (clear_task false task) })
              refl (λ n. cleared key s task n still e)))

    visit-CountsOff :
        (key : ℕ) (s : StaticAlgorithm F)
        → IsStill s
        → CountsOff (off (get_elem? s.registry key)) s (visit initial behaviour key s)
    unfolding visit
    visit-CountsOff key s still = elim (Option-cases (get_elem? s.registry key)) [
      | inl e ↦ rw (e, visit) (stays s still)
      | inr (task, e) ↦ rw (e, visit) (by_reason key s task still e task.stop_reason refl)
    ]

    beat_from-CountsOff :
        (left key : ℕ) (s : StaticAlgorithm F)
        → IsStill s
        → CountsOff (off_from left key s.registry) s (beat_from initial behaviour left key false s)
    unfolding beat_from
    beat_from-CountsOff zero key s still = stays s still
    beat_from-CountsOff (suc left) key s still =
        next (visit initial behaviour key s) (visit-CountsOff key s still)
          (λ t still'. beat_from-CountsOff left (suc key) t still')
      where
        onward :
            (t : StaticAlgorithm F) (c d : ℕ) (o : Outcome (Bool × StaticAlgorithm F))
            → t.unfinished_count + c ≡ s.unfinished_count
            → SameTasks s t
            → CountsOff d t o
            → CountsOff (c + d) s o
        onward t c d (panic p) e same (q, lt) = (q, omega arith)
        onward t c d (ok (polled, u)) e same (quiet, e', same') =
            (quiet, omega arith, SameTasks-trans same same')

        next :
            (o : Outcome (Bool × StaticAlgorithm F))
            → CountsOff (off (get_elem? s.registry key)) s o
            → ((t : StaticAlgorithm F)
                → IsStill t
                → CountsOff
                    (off_from left (suc key) t.registry)
                    t
                    (beat_from initial behaviour left (suc key) false t))
            → CountsOff
                (off_from (suc left) key s.registry)
                s
                (o >>= λ r. beat_from initial behaviour left (suc key) (false || r.0) r.1)
        next (panic p) (q, lt) rest = (q, omega arith)
        next (ok (true, t)) (quiet, e, same) rest = cc
        next (ok (false, t)) (quiet, e, same) rest =
            onward t (off (get_elem? s.registry key)) (off_from left (suc key) s.registry) _ e same
              (rw (← off_from-same left (suc key) s.registry t.registry same.same_off)
                (rest t same.still))

    -- A beat of a wheel at rest.
    beat_once-CountsOff :
        (s : StaticAlgorithm F)
        → IsStill s
        → CountsOff (cancelled_count s) s (beat_once initial behaviour s)
    unfolding beat_once
    beat_once-CountsOff s still = beat_from-CountsOff (length s.registry) 0 s still

    -- The result of a call, by the counts after it.
    abbrev pub verdict : ℕ → ℕ → Poll
    verdict left suspended =
        if (left == 0) || (left == suspended) then ready (left == 0) else pending

    -- What a call with the caller's wakers does when `c` tasks are cancelled.
    abbrev pub CountsTwice :
        ℕ → StaticAlgorithm F → Outcome (Option (Poll × StaticAlgorithm F)) → Type 0
    CountsTwice c s (panic p) = (p ≡ subtract_overflow) × (s.unfinished_count < c + c)
    CountsTwice c s (ok none) = ⊥
    CountsTwice c s (ok (some (p, t))) =
        (t.unfinished_count + c + c ≡ s.unfinished_count)
        × (p ≡ verdict t.unfinished_count s.suspended_count)
        × SameTasks s t

    -- While no task can be polled, a call of `poll_internal` counts each cancelled task off twice:
    -- it panics when the count of unfinished tasks is less than twice the number of the cancelled
    -- ones, and otherwise gives its result by the count that is lower by so much.
    pub poll_internal-CountsTwice :
        (fuel waker : ℕ) (s : StaticAlgorithm F)
        → IsStill s
        → CountsTwice (cancelled_count s) s (poll_internal initial behaviour (suc fuel) waker s)
    unfolding poll_internal poll_loop
    poll_internal-CountsTwice fuel waker s still =
        first (beat_once initial behaviour (set_waker none s))
          (beat_once-CountsOff (set_waker none s) still)
      where
        ended :
            (t : StaticAlgorithm F) → (finish t).0 ≡ verdict t.unfinished_count t.suspended_count
        ended t = ground arith

        kept :
            (t : StaticAlgorithm F)
            → ((finish t).1.registry ≡ t.registry)
              × ((finish t).1.suspended_count ≡ t.suspended_count)
              × ((finish t).1.unfinished_count ≡ t.unfinished_count)
        kept t = ground arith

        second :
            (t : StaticAlgorithm F) (c : ℕ) (o : Outcome (Bool × StaticAlgorithm F))
            → t.unfinished_count + c ≡ s.unfinished_count
            → SameTasks s t
            → CountsOff c (set_waker (some waker) t) o
            → CountsTwice c s (
                o >>= λ q. elim q.0 [
                  | true ↦ poll_loop initial behaviour fuel waker (set_waker none q.1)
                  | false ↦ ok (some (finish q.1))
                ])
        second t c (panic p) e same (q, lt) = (q, omega arith)
        second t c (ok (true, u)) e same (quiet, e', same') = cc
        second t c (ok (false, u)) e same (quiet, e', same') =
            let (r, n, m) = kept u in
            let both = SameTasks-trans same (SameTasks-frame _ u t u refl refl refl refl same') in
            (
              omega arith,
              ended u ∙ ground (arith, m, both.same_suspended),
              SameTasks-frame s u s (finish u).1 refl refl r n both,
            )

        first :
            (o : Outcome (Bool × StaticAlgorithm F))
            → CountsOff (cancelled_count s) (set_waker none s) o
            → CountsTwice (cancelled_count s) s (
                o >>= λ r. elim r.0 [
                  | true ↦ poll_loop initial behaviour fuel waker r.1
                  | false ↦ beat_once initial behaviour (set_waker (some waker) r.1) >>= λ q.
                      elim q.0 [
                        | true ↦ poll_loop initial behaviour fuel waker (set_waker none q.1)
                        | false ↦ ok (some (finish q.1))
                      ]
                ])
        first (panic p) (q, lt) = (q, omega arith)
        first (ok (true, t)) (quiet, e, same) = cc
        first (ok (false, t)) (quiet, e, same) =
            second t (cancelled_count s) (beat_once initial behaviour (set_waker (some waker) t)) e
              (SameTasks-frame _ t s t refl refl refl refl same)
              (subst
                (λ c.
                  CountsOff c (set_waker (some waker) t)
                    (beat_once initial behaviour (set_waker (some waker) t)))
                (same_count t same) (beat_once-CountsOff (set_waker (some waker) t) same.still))
          where
            same_count :
                (t : StaticAlgorithm F)
                → SameTasks (set_waker none s) t
                → cancelled_count t ≡ cancelled_count s
            same_count t same =
                ap (λ n. off_from n 0 t.registry) same.same_length
                ∙ off_from-same (length s.registry) 0 s.registry t.registry same.same_off
