-- ===== src/Queued/Stuck.antt =====
-- src/dy/algorithm.rs: the loop of `rotate_once` at a task that is not to be polled.
use juggle.Prelude.{
  ℕ, zero, suc, ◌+◌, ◌≡◌, refl, ap, ◌∙◌, Bool, true, false, Option, none, some, Outcome, ok, panic,
  unknown_task, arith, is_some,
}
use juggle.Task.{StopReason, is_poll_allowed, DynamicFuture, Act}
use juggle.TaskRegistry.{TaskRegistry, present}
use juggle.Scheduler
use juggle.Queued.{SchedulerAlgorithm, front, from_queue, remove_task}
use juggle.Queued.Beat.{rotate_front, rotate, rotate_once}

-- What comes of a task that is not to be polled.
abbrev pub blocked_result : {A : Type 0} → StopReason → Outcome (Option A)
blocked_result StopReason.cancelled = panic unknown_task
blocked_result _ = ok none

module _ {F : Type 0} (reg : TaskRegistry (DynamicFuture F)) where
  open reg use {R, get, remove}

  rotate-unknown :
      (retain : (ℕ → DynamicFuture F → Bool) → R → R) (behaviour : F → ℕ → Act F)
      (q : SchedulerAlgorithm R) (key : ℕ)
      → front (from_queue q) ≡ some key
      → get q.ctrl.registry key ≡ none
      → (fuel : ℕ) → rotate reg retain behaviour (suc fuel) q ≡ panic unknown_task
  unfolding rotate rotate_front
  rotate-unknown retain behaviour q key at_front at fuel =
      rw (at_front, rotate) (rw (at, rotate_front) refl)

  module _ (retain : (ℕ → DynamicFuture F → Bool) → R → R) (behaviour : F → ℕ → Act F)
      (q : SchedulerAlgorithm R) (key : ℕ) (task : DynamicFuture F)
      (at_front : front (from_queue q) ≡ some key) (at : get q.ctrl.registry key ≡ some task) where
    rotate-suspended :
        task.stop_reason ≡ StopReason.suspended
        → (fuel : ℕ) → rotate reg retain behaviour fuel q ≡ ok none
    unfolding rotate rotate_front
    rotate-suspended was zero = refl
    rotate-suspended was (suc fuel) =
        rw (at_front, rotate) (rw (at, rotate_front) (rw was (rotate-suspended was fuel)))

    abbrev gone : SchedulerAlgorithm R
    gone = record q { ctrl = record q.ctrl { registry = (remove key q.ctrl.registry).1 } }

    remove_task-present : reg.Inv q.ctrl.registry → remove_task reg key q ≡ ok gone
    unfolding remove_task Scheduler.remove_task
    remove_task-present inv =
        let was : present (remove key q.ctrl.registry).0 ≡ 1 =
          reg.remove-present key q.ctrl.registry inv ∙ ap present at in
        let did : is_some (remove key q.ctrl.registry).0 ≡ true = ground (arith, was) in
        rw (did, remove_task, Scheduler.remove_task) refl

    get-gone : reg.Inv q.ctrl.registry → get (remove key q.ctrl.registry).1 key ≡ none
    get-gone inv = ground (arith, reg.get-remove key q.ctrl.registry key inv)

    pub rotate-cancelled :
        reg.Inv q.ctrl.registry
        → task.stop_reason ≡ StopReason.cancelled
        → (fuel : ℕ) → rotate reg retain behaviour (suc (suc fuel)) q ≡ panic unknown_task
    unfolding rotate rotate_front
    rotate-cancelled inv was fuel =
        rw (at_front, rotate)
          (rw (at, rotate_front)
            (rw was (
              rw (remove_task-present inv)
                (rotate-unknown retain behaviour gone key at_front (get-gone inv) fuel))))

    -- In a valid registry, `rotate_once` with a suspended task at the front of the queue uses up any
    -- fuel, so that the loop does not end, and with a cancelled one it panics in its second round.
    pub rotate_once-blocked_result :
        reg.Inv q.ctrl.registry
        → is_poll_allowed task.stop_reason ≡ false
        → (fuel : ℕ)
        → rotate_once reg retain behaviour (fuel + 2) q ≡ blocked_result task.stop_reason
    unfolding rotate_once
    rotate_once-blocked_result inv blocked fuel =
        let two : fuel + 2 ≡ suc (suc fuel) = omega arith in
        rw two (by_reason task.stop_reason refl)
      where
        by_reason :
            (o : StopReason)
            → task.stop_reason ≡ o
            → rotate_once reg retain behaviour (suc (suc fuel)) q ≡ blocked_result o
        by_reason StopReason.none was = absurd (ground (arith, was, blocked))
        by_reason StopReason.suspended was =
            rw (rotate-suspended was (suc (suc fuel)), rotate_once) refl
        by_reason StopReason.cancelled was = rw (rotate-cancelled inv was fuel, rotate_once) refl
