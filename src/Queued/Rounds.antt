-- ===== src/Queued/Rounds.antt =====
-- src/dy/algorithm.rs: what the rounds of `rotate_once` keep, by the invariant of the scheduler of
-- unordered_algorithm.rs on the shared part.
use juggle.Prelude.{
  ℕ, zero, suc, ◌+◌, ◌≤◌, ◌≡◌, refl, sym, ap, ◌∙◌, subst, Bool, true, false, Bool-cases,
  Option-cases, inl, inr, Option, none, some, Outcome, ok, panic, ◌>>=◌, arith,
}
use juggle.Task.{StopReason, DynamicFuture, Act}
use juggle.TaskRegistry.{TaskRegistry, IsRegistryPanic}
use juggle.Scheduler.Inv.{Inv, Inv-frame, susp}
use juggle.Scheduler.Beat.{Polled, poll_local_Inv, remove_Inv}
use juggle.Queued.{SchedulerAlgorithm, from_queue, front, is_key, drop_guard, remove_task, on_ctrl}
use juggle.Queued.Beat.{poll_local, requeue, after_poll, rotate_task, rotate_front, rotate}
use juggle.Queued.Calls.{shared, poll_local-ctrl}

module _ {F : Type 0} (reg : TaskRegistry (DynamicFuture F)) where
  open reg use {R, get, insert}

  -- The count of suspended tasks may be further off, by tasks that ended while suspended.
  abbrev pub Valid : ℕ → SchedulerAlgorithm R → Type 0
  Valid leak q = (leak' : ℕ) × (leak ≤ leak') × Inv reg none leak' q.ctrl

  abbrev pub Keeps : ℕ → Outcome (SchedulerAlgorithm R) → Type 0
  Keeps leak (panic p) = IsRegistryPanic p
  Keeps leak (ok q) = Valid leak q

  abbrev pub Rotates : ℕ → Outcome (Option (SchedulerAlgorithm R)) → Type 0
  Rotates leak (panic p) = IsRegistryPanic p
  Rotates leak (ok none) = Unit {0}
  Rotates leak (ok (some q)) = Valid leak q

  remove_task-Keeps :
      (leak key : ℕ) (task : DynamicFuture F) (q : SchedulerAlgorithm R)
      → Inv reg none leak q.ctrl
      → get q.ctrl.registry key ≡ some task
      → Keeps leak (remove_task reg key q)
  unfolding remove_task
  remove_task-Keeps leak key task q inv at =
      let (r, e, inv') = remove_Inv reg leak q.ctrl key task inv at in
      rw e (leak + susp (some task), omega arith, inv')

  drop_guard-ctrl :
      (key : ℕ) (q : SchedulerAlgorithm R)
      → (drop_guard key q).ctrl ≡ record q.ctrl { current = none }
  drop_guard-ctrl key q = elim (Bool-cases (is_key (front (from_queue q)) key)) [
    | inl e ↦ rw e refl
    | inr e ↦ rw e refl
  ]

  module _ (retain : (ℕ → DynamicFuture F → Bool) → R → R) (behaviour : F → ℕ → Act F) where
    after_poll-Keeps :
        (leak key : ℕ) (task : DynamicFuture F) (is_ready : Bool) (q : SchedulerAlgorithm R)
        → Inv reg none leak q.ctrl
        → get q.ctrl.registry key ≡ some task
        → Keeps leak (after_poll reg retain behaviour key is_ready q)
    unfolding after_poll
    after_poll-Keeps leak key task true q inv at =
        rw (at, after_poll) (remove_task-Keeps leak key task q inv at)
    after_poll-Keeps leak key task false q inv at = rw (at, after_poll) (by_reason task.stop_reason)
      where
        by_reason : (o : StopReason) → Keeps leak (requeue reg retain behaviour key task o q)
        by_reason StopReason.cancelled = remove_task-Keeps leak key task q inv at
        by_reason StopReason.suspended = (leak, omega arith, inv)
        by_reason StopReason.none = elim (Bool-cases (q.ctrl.runnable task.flags)) [
          | inl on ↦ rw on (leak, omega arith, inv)
          | inr off ↦ rw off (leak, omega arith, inv)
        ]

    rotate_task-Keeps :
        (leak key : ℕ) (task : DynamicFuture F) (q : SchedulerAlgorithm R)
        → Inv reg none leak q.ctrl
        → get q.ctrl.registry key ≡ some task
        → (o : StopReason) → Keeps leak (rotate_task reg retain behaviour key task o q)
    rotate_task-Keeps leak key task q inv at StopReason.suspended = (leak, omega arith, inv)
    rotate_task-Keeps leak key task q inv at StopReason.cancelled =
        remove_task-Keeps leak key task q inv at
    rotate_task-Keeps leak key task q inv at StopReason.none =
        polled (poll_local reg retain behaviour key task started) (
          subst (Polled reg key leak) (sym (poll_local-ctrl reg retain behaviour key task started))
            (poll_local_Inv reg behaviour leak key task started.ctrl
              (Inv-frame reg none leak q.ctrl started.ctrl refl refl inv) at))
      where
        started : SchedulerAlgorithm R
        started = on_ctrl (λ s. record s { current = some key }) q

        polled :
            (o : Outcome (Bool × SchedulerAlgorithm R))
            → Polled reg key leak (shared o)
            → Keeps leak (o >>= λ r. after_poll reg retain behaviour key r.0 (drop_guard key r.1))
        polled (panic p) post = post
        polled (ok (b, t)) (inv', held, here) =
            let same = drop_guard-ctrl key t in
            after_poll-Keeps leak key held b (drop_guard key t)
              (Inv-frame reg none leak t.ctrl (drop_guard key t).ctrl (ap (λ s. s.registry) same)
                (ap (λ s. s.suspended_count) same) inv')
              (ap (λ s. get s.registry key) same ∙ here)

    pub rotate_front-Keeps :
        (leak key : ℕ) (q : SchedulerAlgorithm R)
        → Inv reg none leak q.ctrl
        → Keeps leak (rotate_front reg retain behaviour key q)
    unfolding rotate_front
    rotate_front-Keeps leak key q inv = elim (Option-cases (get q.ctrl.registry key)) [
      | inl e ↦ rw (e, rotate_front) (ground arith, ground arith, ground arith)
      | inr (task, e) ↦
          rw (e, rotate_front) (rotate_task-Keeps leak key task q inv e task.stop_reason)
    ]

    Rotates-mono :
        (m n : ℕ) (o : Outcome (Option (SchedulerAlgorithm R))) → m ≤ n → Rotates n o → Rotates m o
    Rotates-mono m n (panic p) le post = post
    Rotates-mono m n (ok none) le post = tt
    Rotates-mono m n (ok (some q)) le (l, le', inv) = (l, omega arith, inv)

    -- The rounds of `rotate_once`, however many, keep the invariant of the scheduler, or panic for
    -- another reason than a recursive poll, a missing task on removal or an underflow of the count.
    pub rotate-Rotates :
        (fuel leak : ℕ) (q : SchedulerAlgorithm R)
        → Inv reg none leak q.ctrl
        → Rotates leak (rotate reg retain behaviour fuel q)
    unfolding rotate
    rotate-Rotates zero leak q inv = tt
    rotate-Rotates (suc fuel) leak q inv = elim (Option-cases (front (from_queue q))) [
      | inl e ↦ rw (e, rotate) (leak, omega arith, inv)
      | inr (key, e) ↦
          rw (e, rotate)
            (next (rotate_front reg retain behaviour key q) (rotate_front-Keeps leak key q inv)
              (λ l t inv'. rotate-Rotates fuel l t inv'))
    ]
      where
        next :
            (o : Outcome (SchedulerAlgorithm R))
            → Keeps leak o
            → ((l : ℕ) (t : SchedulerAlgorithm R)
                → Inv reg none l t.ctrl
                → Rotates l (rotate reg retain behaviour fuel t))
            → Rotates leak (o >>= λ t. rotate reg retain behaviour fuel t)
        next (panic p) post again = post
        next (ok t) (l, le, inv') again =
            Rotates-mono leak l (rotate reg retain behaviour fuel t) le (again l t inv')
