-- ===== src/Queued/Leaves.antt =====
-- src/dy/algorithm.rs: what a round of `rotate_once` leaves of the queue of its beat.
use juggle.Prelude.{
  ℕ, ◌≡◌, refl, ap, ◌∙◌, subst, Bool, true, false, Bool-cases, Option-cases, inl, inr, none, some,
  List, Outcome, ok, panic, ◌>>=◌, if◌then◌else◌, arith,
}
use juggle.Task.{StopReason, DynamicFuture, Act}
use juggle.TaskRegistry.{TaskRegistry}
use juggle.Scheduler.{Sched, start_poll, end_poll, store_flag}
use juggle.Scheduler
use juggle.Queued.{
  SchedulerAlgorithm, from_queue, on_ctrl, is_key, front, pop_front, drop_guard, run, remove_task,
}
use juggle.Queued.Beat.{poll_local, requeue, after_poll, rotate_task}
use juggle.Queued.Drain.{from_queue-set_from}
use juggle.Queued.Turns.{KeepsQueue, from_queue-set_to, bind-KeepsQueue, run-KeepsQueue}

module _ {F : Type 0} (reg : TaskRegistry (DynamicFuture F)) where
  open reg use {R, get, modify}

  -- The queue of the beat after a step, when it returns.
  abbrev pub Leaves : List ℕ → Outcome (SchedulerAlgorithm R) → Type 0
  Leaves queue (panic p) = Unit {0}
  Leaves queue (ok t) = from_queue t ≡ queue

  remove_task-Leaves :
      (key : ℕ) (q : SchedulerAlgorithm R) → Leaves (from_queue q) (remove_task reg key q)
  unfolding remove_task
  remove_task-Leaves key q = by_remove (Scheduler.remove_task reg key q.ctrl)
    where
      by_remove :
          (o : Outcome (Sched R)) → Leaves (from_queue q) (o >>= λ s. ok (record q { ctrl = s }))
      by_remove (panic p) = tt
      by_remove (ok s) = refl

  drop_guard-from_queue :
      (key : ℕ) (q : SchedulerAlgorithm R)
      → front (from_queue q) ≡ some key
      → from_queue (drop_guard key q) ≡ pop_front (from_queue q)
  drop_guard-from_queue key q e =
      let own : is_key (front (from_queue q)) key ≡ true =
        ap (λ o. is_key o key) e ∙ ground arith in
      rw own (from_queue-set_from reg _ (record q { ctrl = record q.ctrl { current = none } }))

  module _ (retain : (ℕ → DynamicFuture F → Bool) → R → R) (behaviour : F → ℕ → Act F) where
    poll_local-KeepsQueue :
        (key : ℕ) (task : DynamicFuture F) (q : SchedulerAlgorithm R)
        → KeepsQueue q (poll_local reg retain behaviour key task q)
    unfolding poll_local
    poll_local-KeepsQueue key task q = elim (Bool-cases task.polling) [
      | inl e ↦ rw (e, poll_local) tt
      | inr e ↦
          rw (e, poll_local)
            (bind-KeepsQueue q (run reg (behaviour task.future task.flags) started) _
              (run-KeepsQueue reg (behaviour task.future task.flags) started) (λ o t. refl))
    ]
      where
        started : SchedulerAlgorithm R
        started =
            on_ctrl
              (λ s. record s {
                registry = modify start_poll key s.registry;
                runnable = store_flag s.runnable task.flags false;
              })
              q

    after_poll-Leaves :
        (key : ℕ) (is_ready : Bool) (q : SchedulerAlgorithm R)
        → Leaves (from_queue q) (after_poll reg retain behaviour key is_ready q)
    unfolding after_poll
    after_poll-Leaves key is_ready q = elim (Option-cases (get q.ctrl.registry key)) [
      | inl e ↦ rw (e, after_poll) tt
      | inr (task, e) ↦ rw (e, after_poll) (by_ready task is_ready)
    ]
      where
        by_reason :
            (task : DynamicFuture F) (o : StopReason)
            → Leaves (from_queue q) (requeue reg retain behaviour key task o q)
        by_reason task StopReason.cancelled = remove_task-Leaves key q
        by_reason task StopReason.suspended = refl
        by_reason task StopReason.none = elim (Bool-cases (q.ctrl.runnable task.flags)) [
          | inl on ↦ rw on (from_queue-set_to _ q)
          | inr off ↦ rw off refl
        ]

        by_ready :
            (task : DynamicFuture F) (b : Bool)
            → Leaves (from_queue q) (
                if b
                then remove_task reg key q
                else requeue reg retain behaviour key task task.stop_reason q)
        by_ready task true = remove_task-Leaves key q
        by_ready task false = by_reason task task.stop_reason

    -- A round that polls takes its key off the queue.
    pub rotate_task-Leaves :
        (key : ℕ) (task : DynamicFuture F) (q : SchedulerAlgorithm R)
        → front (from_queue q) ≡ some key
        → Leaves
            (pop_front (from_queue q))
            (rotate_task reg retain behaviour key task StopReason.none q)
    rotate_task-Leaves key task q at =
        polled (poll_local reg retain behaviour key task started)
          (poll_local-KeepsQueue key task started)
      where
        started : SchedulerAlgorithm R
        started = on_ctrl (λ s. record s { current = some key }) q

        polled :
            (o : Outcome (Bool × SchedulerAlgorithm R))
            → KeepsQueue started o
            → Leaves
                (pop_front (from_queue q))
                (o >>= λ r. after_poll reg retain behaviour key r.0 (drop_guard key r.1))
        polled (panic p) same = tt
        polled (ok (b, t)) same =
            subst (λ l. Leaves l (after_poll reg retain behaviour key b (drop_guard key t)))
              (drop_guard-from_queue key t (ap front same ∙ at) ∙ ap pop_front same)
              (after_poll-Leaves key b (drop_guard key t))
