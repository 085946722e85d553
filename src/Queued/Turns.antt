-- ===== src/Queued/Turns.antt =====
-- src/dy/algorithm.rs: no call of a handle edits the queue that a beat works on, so that each round of
-- `rotate_once` that polls takes one key off that queue.
use juggle.Prelude.{
  ℕ, ◌+◌, ◌≡◌, refl, ◌∙◌, Bool, true, ◌||◌, Bool-cases, Option-cases, inl, inr, Option, none, some,
  List, Outcome, ok, panic, ◌>>=◌, if◌then◌else◌,
}
use juggle.Task.{StopReason, SpawnParams, DynamicFuture, Act}
use juggle.TaskRegistry.{TaskRegistry}
use juggle.Scheduler.{Sched, set_stop_reason, dec_suspended, is_suspended, end_poll}
use juggle.Scheduler
use juggle.Queued.{
  SchedulerAlgorithm, from_queue, set_to, on_ctrl, enqueue_runnable, defer_absent, is_key, register,
  registered, spawn, resume, resume_task, suspend, suspend_task, cancel, cancel_task, get_state,
  registered_count, run,
}

module _ {R : Type 0} where
  -- The queue of the beat is as it was.
  abbrev pub SameQueue : SchedulerAlgorithm R → SchedulerAlgorithm R → Type 0
  SameQueue q t = from_queue t ≡ from_queue q

  abbrev pub KeepsQueue :
      {A : Type 0} → SchedulerAlgorithm R → Outcome (A × SchedulerAlgorithm R) → Type 0
  KeepsQueue q (panic p) = Unit {0}
  KeepsQueue q (ok (a, t)) = SameQueue q t

  pub from_queue-set_to :
      (queue : List ℕ) (q : SchedulerAlgorithm R) → from_queue (set_to queue q) ≡ from_queue q
  from_queue-set_to queue q = elim (Bool-cases q.which_buffer) [
    | inl e ↦ rw e refl
    | inr e ↦ rw e refl
  ]

  pub bind-KeepsQueue :
      {A B : Type 0} (q : SchedulerAlgorithm R) (o : Outcome (A × SchedulerAlgorithm R))
      (f : A × SchedulerAlgorithm R → Outcome (B × SchedulerAlgorithm R))
      → KeepsQueue q o
      → ((a : A) (t : SchedulerAlgorithm R) → KeepsQueue t (f (a, t)))
      → KeepsQueue q (o >>= f)
  bind-KeepsQueue q (panic p) f same next = tt
  bind-KeepsQueue {B = B} q (ok (a, t)) f same next = carry (f (a, t)) (next a t)
    where
      carry : (o : Outcome (B × SchedulerAlgorithm R)) → KeepsQueue t o → KeepsQueue q o
      carry (panic p) k = tt
      carry (ok (b, u)) k = k ∙ same

module _ {F : Type 0} (reg : TaskRegistry (DynamicFuture F)) where
  open reg use {R, get, insert, remove, modify}

  registered-SameQueue :
      (reason : StopReason) (o : Option ℕ) (q : SchedulerAlgorithm R)
      → SameQueue q (registered reg reason o q)
  registered-SameQueue reason none q = refl
  registered-SameQueue StopReason.suspended (some key) q = refl
  registered-SameQueue StopReason.none (some key) q = from_queue-set_to _ q
  registered-SameQueue StopReason.cancelled (some key) q = from_queue-set_to _ q

  spawn-KeepsQueue :
      (future : F) (params : SpawnParams) (q : SchedulerAlgorithm R)
      → KeepsQueue q (spawn reg future params q)
  unfolding spawn register
  spawn-KeepsQueue future params q = by_insert (insert _ q.ctrl.registry)
    where
      by_insert :
          (o : Outcome (Option ℕ × R))
          → KeepsQueue q (
              ◌>>=◌ {B = Option ℕ × SchedulerAlgorithm R} o (λ r. ok (
                r.0,
                registered reg
                    (if params.suspended then StopReason.suspended else StopReason.none)
                    r.0
                    (on_ctrl
                      (λ s. record s { registry = r.1 })
                      (on_ctrl
                        (λ s. record s {
                          runnable = Scheduler.store_flag s.runnable s.next_flags true;
                          next_flags = s.next_flags + 1;
                        })
                        q)),
              )))
      by_insert (panic p) = tt
      by_insert (ok (o, r)) = registered-SameQueue _ o _

  module _ (key : ℕ) (q : SchedulerAlgorithm R) where
    resume-KeepsQueue : KeepsQueue q (resume reg key q)
    unfolding resume resume_task
    resume-KeepsQueue = elim (Option-cases (get q.ctrl.registry key)) [
      | inl e ↦ rw (e, resume) refl
      | inr (task, e) ↦ rw (e, resume) (by_reason task task.stop_reason)
    ]
      where
        by_reason :
            (task : DynamicFuture F) (o : StopReason) → KeepsQueue q (resume_task reg key task o q)
        by_reason task StopReason.none = refl
        by_reason task StopReason.cancelled = refl
        by_reason task StopReason.suspended =
            by_count (dec_suspended (set_stop_reason reg key StopReason.none q.ctrl))
          where
            by_count :
                (o : Outcome (Sched R))
                → KeepsQueue q (
                    ◌>>=◌ {B = Bool × SchedulerAlgorithm R} o (λ s. ok (
                      true,
                      if s.runnable task.flags || is_key s.current key
                          then enqueue_runnable key true (record q { ctrl = s })
                          else defer_absent key (record q { ctrl = s }),
                    )))
            by_count (panic p) = tt
            by_count (ok s) = elim (Bool-cases (s.runnable task.flags || is_key s.current key)) [
              | inl e ↦ rw e (from_queue-set_to _ (record q { ctrl = s }))
              | inr e ↦ rw e refl
            ]

    cancel-KeepsQueue : KeepsQueue q (cancel reg key q)
    unfolding cancel cancel_task
    cancel-KeepsQueue = elim (Option-cases (get q.ctrl.registry key)) [
      | inl e ↦ rw (e, cancel) refl
      | inr (task, e) ↦ rw (e, cancel) (by_reason task.stop_reason)
    ]
      where
        by_reason : (o : StopReason) → KeepsQueue q (cancel_task reg key o q)
        by_reason StopReason.none = refl
        by_reason StopReason.cancelled = refl
        by_reason StopReason.suspended =
            by_count (dec_suspended (set_stop_reason reg key StopReason.cancelled q.ctrl))
          where
            by_count :
                (o : Outcome (Sched R))
                → KeepsQueue q (
                    ◌>>=◌ {B = Bool × SchedulerAlgorithm R} o
                      (λ s. ok (true, record q { ctrl = s; scan_registry = true })))
            by_count (panic p) = tt
            by_count (ok s) = refl

    suspend-SameQueue : SameQueue q (suspend reg key q).1
    unfolding suspend suspend_task
    suspend-SameQueue = elim (Option-cases (get q.ctrl.registry key)) [
      | inl e ↦ rw (e, suspend) refl
      | inr (task, e) ↦ rw (e, suspend) (by_reason task task.stop_reason)
    ]
      where
        by_reason :
            (task : DynamicFuture F) (o : StopReason)
            → SameQueue q (suspend_task reg key task o q).1
        by_reason task StopReason.none = refl
        by_reason task StopReason.cancelled = refl
        by_reason task StopReason.suspended = refl

  -- Whatever calls the user's code makes in a poll, the queue of the beat stays as it is.
  pub run-KeepsQueue : (act : Act F) (q : SchedulerAlgorithm R) → KeepsQueue q (run reg act q)
  unfolding run
  run-KeepsQueue Act.ready q = refl
  run-KeepsQueue (Act.pending future) q = refl
  run-KeepsQueue (Act.spawn future params k) q =
      bind-KeepsQueue q (spawn reg future params q) _ (spawn-KeepsQueue future params q)
        (λ o t. run-KeepsQueue (k o) t)
  run-KeepsQueue (Act.cancel key k) q =
      bind-KeepsQueue q (cancel reg key q) _ (cancel-KeepsQueue key q)
        (λ b t. run-KeepsQueue (k b) t)
  run-KeepsQueue (Act.resume key k) q =
      bind-KeepsQueue q (resume reg key q) _ (resume-KeepsQueue key q)
        (λ b t. run-KeepsQueue (k b) t)
  run-KeepsQueue (Act.suspend key k) q =
      bind-KeepsQueue q (ok (suspend reg key q)) (λ r. run reg (k r.0) r.1)
        (suspend-SameQueue key q) (λ b t. run-KeepsQueue (k b) t)
  run-KeepsQueue (Act.get_state key k) q = run-KeepsQueue (k (get_state reg q key)) q
  run-KeepsQueue (Act.current k) q = run-KeepsQueue (k q.ctrl.current) q
  run-KeepsQueue (Act.registered_count k) q = run-KeepsQueue (k (registered_count reg q)) q
  run-KeepsQueue (Act.wake flags k) q = run-KeepsQueue k (on_ctrl (Scheduler.wake flags) q)
