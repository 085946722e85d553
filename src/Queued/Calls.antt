-- ===== src/Queued/Calls.antt =====
-- src/dy/algorithm.rs: the calls of a handle against those of the scheduler of
-- unordered_algorithm.rs, on the state that the two share.
use juggle.Prelude.{
  ℕ, ◌≡◌, refl, ap, ◌∙◌, Bool, true, false, Option, none, some, Option-cases, inl, inr, Outcome, ok,
  panic, ◌>>=◌, arith, if◌then◌else◌, Bool-cases, ◌||◌, ◌&&◌, is_some,
}
use juggle.Task.{StopReason, SpawnParams, DynamicFuture, Act}
use juggle.TaskRegistry.{TaskRegistry}
use juggle.Scheduler.{
  Sched, end_poll, is_suspended, inc_suspended, dec_suspended, lower, set_stop_reason,
}
use juggle.Scheduler
use juggle.Queued.{
  SchedulerAlgorithm, register, registered, spawn, resume, resume_task, suspend, suspend_task,
  cancel, cancel_task, run, on_ctrl, is_key, enqueue_runnable, defer_absent, registered_count,
}
use juggle.Queued
use juggle.Queued.Beat.{poll_local}

-- The answer and the shared part of what a call comes to.
abbrev pub shared : {A R : Type 0} → Outcome (A × SchedulerAlgorithm R) → Outcome (A × Sched R)
shared (ok (a, q)) = ok (a, q.ctrl)
shared (panic p) = panic p

shared->>= :
    {A B R : Type 0} (o : Outcome (A × SchedulerAlgorithm R))
    (f : A × SchedulerAlgorithm R → Outcome (B × SchedulerAlgorithm R))
    (g : A × Sched R → Outcome (B × Sched R))
    → ((a : A) (q : SchedulerAlgorithm R) → shared (f (a, q)) ≡ g (a, q.ctrl))
    → shared (o >>= f) ≡ (shared o >>= g)
shared->>= (ok (a, q)) f g same = same a q
shared->>= (panic p) f g same = refl

module _ {F : Type 0} (reg : TaskRegistry (DynamicFuture F)) where
  open reg use {R, get, insert, modify}

  registered-ctrl :
      (reason : StopReason) (o : Option ℕ) (q : SchedulerAlgorithm R)
      → (registered reg reason o q).ctrl
        ≡ (if is_suspended reason && is_some o then inc_suspended q.ctrl else q.ctrl)
  registered-ctrl reason none q = ground arith
  registered-ctrl StopReason.suspended (some key) q = ground arith
  registered-ctrl StopReason.cancelled (some key) q = ground arith
  registered-ctrl StopReason.none (some key) q = ground arith

  register-ctrl :
      (dynamic : DynamicFuture F) (q : SchedulerAlgorithm R)
      → shared (register reg dynamic q) ≡ Scheduler.register reg dynamic q.ctrl
  unfolding register Scheduler.register
  register-ctrl dynamic q = by_insert (insert dynamic q.ctrl.registry)
    where
      by_insert :
          (o : Outcome (Option ℕ × R))
          → shared (
              o >>= λ r. ok (
                r.0,
                registered reg dynamic.stop_reason r.0
                    (on_ctrl (λ s. record s { registry = r.1 }) q),
              ))
            ≡ (o >>= λ r.
                let s' = record q.ctrl { registry = r.1 } in
                ok (
                  r.0,
                  if is_suspended dynamic.stop_reason && is_some r.0 then inc_suspended s' else s',
                ))
      by_insert (panic p) = refl
      by_insert (ok (o, r)) = ap (λ s. ok (o, s)) (registered-ctrl dynamic.stop_reason o _)

  spawn-ctrl :
      (future : F) (params : SpawnParams) (q : SchedulerAlgorithm R)
      → shared (spawn reg future params q) ≡ Scheduler.spawn reg future params q.ctrl
  unfolding spawn Scheduler.spawn
  spawn-ctrl future params q = register-ctrl _ _

  module _ (key : ℕ) (task : DynamicFuture F) (q : SchedulerAlgorithm R) where
    resume_task-ctrl :
        (reason : StopReason)
        → shared (resume_task reg key task reason q) ≡ Scheduler.resume_task reg key reason q.ctrl
    unfolding resume_task Scheduler.resume_task
    resume_task-ctrl StopReason.none = refl
    resume_task-ctrl StopReason.cancelled = refl
    resume_task-ctrl StopReason.suspended =
        by_count (dec_suspended (set_stop_reason reg key StopReason.none q.ctrl))
      where
        placed : Sched R → SchedulerAlgorithm R
        placed s =
            if s.runnable task.flags || is_key s.current key
            then enqueue_runnable key true (record q { ctrl = s })
            else defer_absent key (record q { ctrl = s })

        placed-ctrl : (s : Sched R) → (placed s).ctrl ≡ s
        placed-ctrl s = elim (Bool-cases (s.runnable task.flags || is_key s.current key)) [
          | inl e ↦ rw e refl
          | inr e ↦ rw e refl
        ]

        by_count :
            (o : Outcome (Sched R))
            → shared (o >>= λ s. ok (true, placed s)) ≡ (o >>= λ s. ok (true, s))
        by_count (panic p) = refl
        by_count (ok s) = ap (λ t. ok (true, t)) (placed-ctrl s)

    suspend_task-ctrl :
        (reason : StopReason)
        → ((suspend_task reg key task reason q).0, (suspend_task reg key task reason q).1.ctrl)
          ≡ Scheduler.suspend_task reg key reason q.ctrl
    unfolding suspend_task Scheduler.suspend_task
    suspend_task-ctrl StopReason.none = refl
    suspend_task-ctrl StopReason.cancelled = refl
    suspend_task-ctrl StopReason.suspended = refl

    cancel_task-ctrl :
        (reason : StopReason)
        → shared (cancel_task reg key reason q) ≡ Scheduler.cancel_task reg key reason q.ctrl
    unfolding cancel_task Scheduler.cancel_task
    cancel_task-ctrl StopReason.none = refl
    cancel_task-ctrl StopReason.cancelled = refl
    cancel_task-ctrl StopReason.suspended =
        by_count (dec_suspended (set_stop_reason reg key StopReason.cancelled q.ctrl))
      where
        by_count :
            (o : Outcome (Sched R))
            → shared (o >>= λ s. ok (true, record q { ctrl = s; scan_registry = true }))
              ≡ (o >>= λ s. ok (true, s))
        by_count (panic p) = refl
        by_count (ok s) = refl

  resume-ctrl :
      (key : ℕ) (q : SchedulerAlgorithm R)
      → shared (resume reg key q) ≡ Scheduler.resume reg key q.ctrl
  unfolding resume Scheduler.resume
  resume-ctrl key q = elim (Option-cases (get q.ctrl.registry key)) [
    | inl e ↦ rw (e, resume, Scheduler.resume) refl
    | inr (task, e) ↦
        rw (e, resume, Scheduler.resume) (resume_task-ctrl key task q task.stop_reason)
  ]

  cancel-ctrl :
      (key : ℕ) (q : SchedulerAlgorithm R)
      → shared (cancel reg key q) ≡ Scheduler.cancel reg key q.ctrl
  unfolding cancel Scheduler.cancel
  cancel-ctrl key q = elim (Option-cases (get q.ctrl.registry key)) [
    | inl e ↦ rw (e, cancel, Scheduler.cancel) refl
    | inr (task, e) ↦
        rw (e, cancel, Scheduler.cancel) (cancel_task-ctrl key task q task.stop_reason)
  ]

  suspend-ctrl :
      (key : ℕ) (q : SchedulerAlgorithm R)
      → ((suspend reg key q).0, (suspend reg key q).1.ctrl) ≡ Scheduler.suspend reg key q.ctrl
  unfolding suspend Scheduler.suspend
  suspend-ctrl key q = elim (Option-cases (get q.ctrl.registry key)) [
    | inl e ↦ rw (e, suspend, Scheduler.suspend) refl
    | inr (task, e) ↦
        rw (e, suspend, Scheduler.suspend) (suspend_task-ctrl key task q task.stop_reason)
  ]

  -- Whatever calls the user's code makes in a poll, both schedulers answer them alike, panic alike,
  -- and have the same effect on the tasks, the count of suspended ones, the flags and the wakers.
  pub run-ctrl :
      (act : Act F) (q : SchedulerAlgorithm R)
      → shared (run reg act q) ≡ Scheduler.run reg act q.ctrl
  unfolding run Scheduler.run
  run-ctrl Act.ready q = refl
  run-ctrl (Act.pending future) q = refl
  run-ctrl (Act.spawn future params k) q =
      shared->>= (spawn reg future params q) _ _ (λ o t. run-ctrl (k o) t)
      ∙ ap (λ o. o >>= λ r. Scheduler.run reg (k r.0) r.1) (spawn-ctrl future params q)
  run-ctrl (Act.cancel key k) q =
      shared->>= (cancel reg key q) _ _ (λ b t. run-ctrl (k b) t)
      ∙ ap (λ o. o >>= λ r. Scheduler.run reg (k r.0) r.1) (cancel-ctrl key q)
  run-ctrl (Act.resume key k) q =
      shared->>= (resume reg key q) _ _ (λ b t. run-ctrl (k b) t)
      ∙ ap (λ o. o >>= λ r. Scheduler.run reg (k r.0) r.1) (resume-ctrl key q)
  run-ctrl (Act.suspend key k) q =
      run-ctrl (k (suspend reg key q).0) (suspend reg key q).1
      ∙ ap (λ r. Scheduler.run reg (k r.0) r.1) (suspend-ctrl key q)
  run-ctrl (Act.get_state key k) q = run-ctrl (k (Queued.get_state reg q key)) q
  run-ctrl (Act.current k) q = run-ctrl (k q.ctrl.current) q
  run-ctrl (Act.registered_count k) q = run-ctrl (k (registered_count reg q)) q
  run-ctrl (Act.wake flags k) q = run-ctrl k (on_ctrl (Scheduler.wake flags) q)

  module _ (retain : (ℕ → DynamicFuture F → Bool) → R → R) (behaviour : F → ℕ → Act F) where
    -- So does the poll of a task as a whole.
    pub poll_local-ctrl :
        (key : ℕ) (task : DynamicFuture F) (q : SchedulerAlgorithm R)
        → shared (poll_local reg retain behaviour key task q)
          ≡ Scheduler.poll_local reg behaviour key task q.ctrl
    unfolding poll_local Scheduler.poll_local
    poll_local-ctrl key task q = elim (Bool-cases task.polling) [
      | inl e ↦ rw (e, poll_local, Scheduler.poll_local) refl
      | inr e ↦
          rw (e, poll_local, Scheduler.poll_local)
            (shared->>= (run reg (behaviour task.future task.flags) _) _ _ (λ o t. refl)
              ∙ ap
                  (λ o. o >>= λ r. ok (
                    if is_some r.0 then false else true,
                    record r.1 { registry = modify (end_poll r.0) key r.1.registry },
                  ))
                  (run-ctrl (behaviour task.future task.flags) _))
    ]
