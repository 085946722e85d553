-- ===== src/Static/Rest.antt =====
-- src/st/algorithm.rs: what a beat without a poll, and the end of a call of `poll_internal`, mean.
use juggle.Prelude.{
  ℕ, ◌≡◌, ◌≢◌, refl, sym, ap, ◌∙◌, subst, inl, inr, Bool, true, false, Option, none, some,
  get_elem?, set, get_elem?-set, get_elem?-set_self, arith, Outcome, ok, panic, recursive_poll,
  ◌>>=◌, >>=-eq_ok, Bool-cases,
}
use juggle.StaticTask.{StopReason, StaticFuture, StaticAct, reset, clear_task}
use juggle.Static.{StaticAlgorithm, change, set_stop_reason, dec_unfinished}
use juggle.Static.Beat.{end_task, clear, poll_local, poll_task, restart_task, visit_task}
use juggle.Static.Inv.{change_lem}
use juggle.Static.Safe.{clear_lem, restart_task_lem}

-- A task that no beat restarts,
abbrev pub Settled : {F : Type 0} → Option (StaticFuture F) → Type 0
Settled none = Unit {0}
Settled (some task) =
    (task.stop_reason ≢ StopReason.restart) × (task.stop_reason ≢ StopReason.restart_suspended)

-- and that no beat polls.
abbrev pub Rests : {F : Type 0} → Option (StaticFuture F) → Type 0
Rests none = Unit {0}
Rests (some task) =
    (task.stop_reason ≢ StopReason.restart)
    × (task.stop_reason ≢ StopReason.restart_suspended)
    × (task.stop_reason ≡ StopReason.none → task.runnable ≡ false)

module _ {F : Type 0} (initial : ℕ → StaticAct F) (behaviour : F → ℕ → StaticAct (Option F)) where
  -- A round without a poll.
  pub record Quiet (key : ℕ) (s t : StaticAlgorithm F) : Type 0 where
    pub others : (j : ℕ) → j ≢ key → get_elem? t.registry j ≡ get_elem? s.registry j
    pub settled : Settled (get_elem? t.registry key)
    pub rests : Settled (get_elem? s.registry key) → Rests (get_elem? t.registry key)
    pub same_waker : t.last_waker ≡ s.last_waker

  -- A round that is a poll, if it returns.
  abbrev Polls : Outcome (Bool × StaticAlgorithm F) → Type 0
  Polls (panic p) = Unit {0}
  Polls (ok (polled, t)) = polled ≡ true

  end_task-Polls : (key : ℕ) (done : Bool) (s : StaticAlgorithm F) → Polls (end_task key done s)
  end_task-Polls key true s = by_count (dec_unfinished (set_stop_reason key StopReason.finished s))
    where
      by_count : (o : Outcome (StaticAlgorithm F)) → Polls (o >>= λ t. ok (true, t))
      by_count (panic p) = tt
      by_count (ok t) = refl
  end_task-Polls key false s = refl

  poll_task-Polls :
      (restart : Bool) (key : ℕ) (task : StaticFuture F) (s : StaticAlgorithm F)
      → task.runnable ≡ true
      → Polls (poll_task initial behaviour restart key task s)
  unfolding poll_task
  poll_task-Polls restart key task s runs =
      simp runs
        (by_poll (poll_local initial behaviour restart key task (record s { current = some key })))
    where
      by_poll :
          (o : Outcome (Bool × StaticAlgorithm F))
          → Polls (o >>= λ r. end_task key r.0 (record r.1 { current = none }))
      by_poll (panic p) = tt
      by_poll (ok (done, t)) = end_task-Polls key done (record t { current = none })

  not_quiet :
      (o : Outcome (Bool × StaticAlgorithm F)) {t : StaticAlgorithm F}
      → Polls o
      → o ≡ ok (false, t)
      → ⊥
  not_quiet (panic p) post e = cc
  not_quiet (ok (b, u)) post e = cc

  pub Quiet-refl :
      (key : ℕ) (s : StaticAlgorithm F)
      → Rests (get_elem? s.registry key)
      → Settled (get_elem? s.registry key)
      → Quiet key s s
  Quiet-refl key s r q = record {
    others = λ j ne. refl;
    settled = q;
    rests = λ h. r;
    same_waker = refl;
  }

  -- A round that writes the task at `key`.
  Quiet-set :
      (key : ℕ) (s t : StaticAlgorithm F) (task new : StaticFuture F)
      → get_elem? s.registry key ≡ some task
      → t.registry ≡ set s.registry key new
      → t.last_waker ≡ s.last_waker
      → Settled (some new)
      → (Settled (some task) → Rests (some new))
      → Quiet key s t
  Quiet-set key s t task new e r w q rests = record {
    others = λ j ne. rw r (get_elem?-set s.registry key j new ∙ ground arith);
    settled = rw (r, get_elem?-set_self s.registry key task new e) q;
    rests = rw (r, get_elem?-set_self s.registry key task new e, e) rests;
    same_waker = w;
  }

  pub poll_task_waits :
      (restart : Bool) (key : ℕ) (task : StaticFuture F) (s : StaticAlgorithm F)
      → task.runnable ≡ false
      → poll_task initial behaviour restart key task s ≡ ok (false, s)
  unfolding poll_task
  poll_task_waits restart key task s waits = simp waits

  clear_busy :
      (to_uninit : Bool) (key : ℕ) (task : StaticFuture F) (s : StaticAlgorithm F)
      → task.polling ≡ true
      → clear to_uninit key task s ≡ panic recursive_poll
  unfolding clear
  clear_busy to_uninit key task s busy = rw busy

  restart_task_busy :
      (val : StopReason) (key : ℕ) (task : StaticFuture F) (s : StaticAlgorithm F)
      → task.polling ≡ true
      → restart_task initial behaviour val key task s ≡ panic recursive_poll
  unfolding restart_task
  restart_task_busy val key task s busy = rw (clear_busy true key task _ busy)

  dec_unfinished_lem :
      (s : StaticAlgorithm F) {t : StaticAlgorithm F}
      → dec_unfinished s ≡ ok t
      → (t.registry ≡ s.registry) × (t.last_waker ≡ s.last_waker)
  unfolding dec_unfinished
  dec_unfinished_lem s h = ground arith

  abbrev quiet : StaticAlgorithm F → Outcome (Bool × StaticAlgorithm F)
  quiet s = ok (false, s)

  same_state : {s t : StaticAlgorithm F} → quiet s ≡ quiet t → s ≡ t
  same_state h = cc

  -- A round at a task that is not polled.
  pub by_reason :
      (key : ℕ) (task : StaticFuture F) (s t : StaticAlgorithm F)
      → get_elem? s.registry key ≡ some task
      → (o : StopReason) → task.stop_reason ≡ o
      → visit_task initial behaviour key task o s ≡ ok (false, t)
      → Quiet key s t
  unfolding visit_task
  by_reason key task s t e StopReason.none was h = elim (Bool-cases task.runnable) [
    | inl runs ↦ absurd (not_quiet _ (poll_task-Polls false key task s runs) h)
    | inr waits ↦
        let same : s ≡ t = cc (sym (poll_task_waits false key task s waits) ∙ h) in
        subst (Quiet key s) same (Quiet-refl key s (rw e (cc, cc, λ n. waits)) (rw e (cc, cc)))
  ]
  by_reason key task s t e StopReason.suspended was h =
      let same : s ≡ t = cc in
      subst (Quiet key s) same (Quiet-refl key s (rw e (cc, cc, λ n. cc)) (rw e (cc, cc)))
  by_reason key task s t e StopReason.finished was h =
      let same : s ≡ t = cc in
      subst (Quiet key s) same (Quiet-refl key s (rw e (cc, cc, λ n. cc)) (rw e (cc, cc)))
  by_reason key task s t e StopReason.cancelled was h = elim (Bool-cases task.polling) [
    | inl busy ↦ absurd (cc (rw (clear_busy false key task s busy) at h))
    | inr idle ↦
        let (u, d, r) =
          >>=-eq_ok (dec_unfinished (change (clear_task false) key s)) _
            (rw (clear_lem initial behaviour false key task s idle) at h) in
        let (reg, w) = dec_unfinished_lem (change (clear_task false) key s) d in
        let same : u ≡ t = cc in
        let at = change_lem (clear_task false) key s task e in
        Quiet-set key s t task (clear_task false task) e
          (ap (λ v. v.registry) (sym same) ∙ reg ∙ ap (λ v. v.registry) at)
          (ap (λ v. v.last_waker) (sym same) ∙ w ∙ ap (λ v. v.last_waker) at) (cc, cc)
          (λ q. (cc, cc, λ n. cc))
  ]
  by_reason key task s t e StopReason.restart was h = elim (Bool-cases task.polling) [
    | inl busy ↦ absurd (cc (rw (restart_task_busy StopReason.none key task s busy) at h))
    | inr idle ↦ absurd (
        not_quiet _ (poll_task-Polls true key (reset false (clear_task true task)) _ refl)
          (rw (restart_task_lem initial behaviour StopReason.none key task s e idle) at h))
  ]
  by_reason key task s t e StopReason.restart_suspended was h = elim (Bool-cases task.polling) [
    | inl busy ↦ absurd (cc (rw (restart_task_busy StopReason.suspended key task s busy) at h))
    | inr idle ↦
        let same : record s { registry = set s.registry key (reset false (clear_task true task)) }
            ≡ t =
          same_state
            (rw (restart_task_lem initial behaviour StopReason.suspended key task s e idle) at h) in
        Quiet-set key s t task (reset false (clear_task true task)) e
          (ap (λ v. v.registry) (sym same)) (ap (λ v. v.last_waker) (sym same)) (ground arith)
          (λ q. absurd (q.1 was))
  ]
