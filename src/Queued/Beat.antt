-- ===== src/Queued/Beat.antt =====
-- src/dy/algorithm.rs: the beats of the queued scheduler and `poll_internal`. A panic of the user's
-- code ends the beat, and the guards that drop then are not modelled.
use juggle.Prelude.{
  ℕ, zero, suc, Bool, true, false, not, ◌&&◌, Option, none, some, List, [], ◌∷◌, ◌==◌, length,
  if◌then◌else◌, Outcome, ok, panic, unwrap_none, unknown_task, unreachable_code, recursive_poll,
  task_not_found, ◌>>=◌, is_some,
}
use juggle.Task.{StopReason, DynamicFuture, Act}
use juggle.TaskRegistry.{TaskRegistry}
use juggle.Scheduler.{
  Poll, pending, ready, start_poll, end_poll, store_flag, register_waker, clear_waker,
}
use juggle.Queued.{
  SchedulerAlgorithm, Rotate, wait, continue, is_cancelled, front, is_empty, push_back, from_queue,
  to_queue, set_from, set_to, on_ctrl, drop_guard, run, remove_task,
}

module _ {F : Type 0} (reg : TaskRegistry (DynamicFuture F)) where
  open reg use {R, get, remove, modify}

  -- What a visit of `drain_runnable` finds: whether the element stays, the queue and the registry.
  abbrev pub Drained : Type 0
  Drained = Bool × List ℕ × R

  abbrev pub drain_task : ℕ → StopReason → Bool → List ℕ → R → Outcome Drained
  drain_task elem StopReason.suspended runs to r = ok (false, to, r)
  drain_task elem StopReason.cancelled runs to r =
      let p = remove elem r in if is_some p.0 then ok (false, to, p.1) else panic task_not_found
  drain_task elem StopReason.none runs to r =
      if runs then ok (false, push_back elem to, r) else ok (true, to, r)

  abbrev pub drain_elem : (ℕ → Bool) → ℕ → List ℕ → R → Outcome Drained
  drain_elem flags elem to r = elim (get r elem) [
    | none ↦ panic unwrap_none
    | some task ↦ drain_task elem task.stop_reason (flags task.flags) to r
  ]

  -- The closure of `drain_runnable` on the elements in their order: those that stay, the queue `to`
  -- and the registry.
  unfoldable pub drain : (ℕ → Bool) → List ℕ → List ℕ → R → Outcome (List ℕ × List ℕ × R)
  drain flags [] to r = ok ([], to, r)
  drain flags (elem ∷ from) to r = drain_elem flags elem to r >>= λ d.
      drain flags from d.1 d.2 >>= λ e. ok (if d.0 then elem ∷ e.0 else e.0, e.1, e.2)

  -- `drain_runnable` from the deferred tasks to the queue of the beat: whether any left.
  unfoldable pub drain_runnable : SchedulerAlgorithm R → Outcome (Bool × SchedulerAlgorithm R)
  drain_runnable q = drain q.ctrl.runnable q.deferred (from_queue q) q.ctrl.registry >>= λ e. ok (
    not (length q.deferred == length e.0),
    set_from e.1 (record q { deferred = e.0; ctrl = record q.ctrl { registry = e.2 } }),
  )

  unfoldable pub process_tasks : ℕ → SchedulerAlgorithm R → Outcome (Rotate × SchedulerAlgorithm R)
  process_tasks waker q =
      if is_empty q.deferred
      then ok (continue, q)
      else (drain_runnable q >>= λ d.
          if not d.0 && (is_empty (from_queue d.1) && is_empty (to_queue d.1))
          then (drain_runnable (on_ctrl (register_waker waker) d.1) >>= λ e.
              ok (if e.0 then (continue, on_ctrl clear_waker e.1) else (wait, e.1)))
          else ok (continue, d.1))

  -- The end of a beat that was asked to scan the registry.
  module _ (retain : (ℕ → DynamicFuture F → Bool) → R → R) where
    unfoldable pub retain_queue : R → List ℕ → Outcome (List ℕ)
    retain_queue r [] = ok []
    retain_queue r (key ∷ queue) = elim (get r key) [
      | none ↦ panic unwrap_none
      | some task ↦
          (retain_queue r queue >>= λ kept.
          ok (if is_cancelled task.stop_reason then kept else key ∷ kept))
    ]

    unfoldable pub scan : SchedulerAlgorithm R → Outcome (SchedulerAlgorithm R)
    scan q =
        if q.scan_registry
        then (retain_queue q.ctrl.registry (to_queue q) >>= λ kept. ok (
            on_ctrl
              (λ s. record s {
                registry = retain (λ key v. not (is_cancelled v.stop_reason)) s.registry;
              })
              (set_to kept (record q { scan_registry = false }))))
        else ok q

    -- `behaviour future flags` is what the user's future does when polled with the waker of `flags`.
    module _ (behaviour : F → ℕ → Act F) where
      -- `DynamicFuture::poll_local`: whether the future is ready.
      unfoldable pub poll_local :
          ℕ → DynamicFuture F → SchedulerAlgorithm R → Outcome (Bool × SchedulerAlgorithm R)
      poll_local key task q =
          if task.polling
          then panic recursive_poll
          else (run reg (behaviour task.future task.flags) (
                on_ctrl
                  (λ s. record s {
                    registry = modify start_poll key s.registry;
                    runnable = store_flag s.runnable task.flags false;
                  })
                  q)
              >>= λ r. ok (
                if is_some r.0 then false else true,
                on_ctrl (λ s. record s { registry = modify (end_poll r.0) key s.registry }) r.1,
              ))

      -- A task that was polled and is not ready, as its stop reason says.
      abbrev pub requeue :
          ℕ → DynamicFuture F → StopReason → SchedulerAlgorithm R → Outcome (SchedulerAlgorithm R)
      requeue key task StopReason.cancelled q = remove_task reg key q
      requeue key task StopReason.suspended q = ok q
      requeue key task StopReason.none q = ok (
          if q.ctrl.runnable task.flags
          then set_to (push_back key (to_queue q)) q
          else record q { deferred = push_back key q.deferred })

      -- The task is borrowed through the poll, in which no call removes it.
      unfoldable pub after_poll : ℕ → Bool → SchedulerAlgorithm R → Outcome (SchedulerAlgorithm R)
      after_poll key is_ready q = elim (get q.ctrl.registry key) [
        | none ↦ panic unreachable_code
        | some task ↦
            if is_ready then remove_task reg key q else requeue key task task.stop_reason q
      ]

      -- One round of the loop of `rotate_once`, by the stop reason of the front task.
      abbrev pub rotate_task :
          ℕ → DynamicFuture F → StopReason → SchedulerAlgorithm R → Outcome (SchedulerAlgorithm R)
      rotate_task key task StopReason.none q =
          poll_local key task (on_ctrl (λ s. record s { current = some key }) q) >>= λ r.
          after_poll key r.0 (drop_guard key r.1)
      rotate_task key task StopReason.suspended q = ok q
      rotate_task key task StopReason.cancelled q = remove_task reg key q

      unfoldable pub rotate_front : ℕ → SchedulerAlgorithm R → Outcome (SchedulerAlgorithm R)
      rotate_front key q = elim (get q.ctrl.registry key) [
        | none ↦ panic unknown_task
        | some task ↦ rotate_task key task task.stop_reason q
      ]

      unfoldable pub rotate : ℕ → SchedulerAlgorithm R → Outcome (Option (SchedulerAlgorithm R))
      rotate zero q = ok none
      rotate (suc fuel) q = elim (front (from_queue q)) [
        | none ↦ ok (some q)
        | some key ↦ rotate_front key q >>= λ q'. rotate fuel q'
      ]

      unfoldable pub rotate_once :
          ℕ → SchedulerAlgorithm R → Outcome (Option (SchedulerAlgorithm R))
      rotate_once fuel q =
          rotate fuel q >>= λ o. elim o [ none ↦ ok none | some q' ↦ scan q' >>= λ t. ok (some t) ]

      unfoldable pub beat_once :
          ℕ → ℕ → SchedulerAlgorithm R → Outcome (Option (Rotate × SchedulerAlgorithm R))
      beat_once fuel waker q = process_tasks waker q >>= λ p. elim p.0 [
        | wait ↦ ok (some (wait, p.1))
        | continue ↦ rotate_once fuel p.1 >>= λ o. elim o [
          | none ↦ ok none
          | some t ↦ ok (some (continue, t))
        ]
      ]

      abbrev pub is_idle : SchedulerAlgorithm R → Bool
      is_idle q = is_empty q.runnable.0 && (is_empty q.runnable.1 && is_empty q.deferred)

      -- `fuel` is for the rounds of the loop, and `rounds` for those of each `rotate_once`.
      unfoldable pub poll_internal :
          ℕ → ℕ → ℕ → SchedulerAlgorithm R → Outcome (Option (Poll × SchedulerAlgorithm R))
      poll_internal zero rounds waker q = ok none
      poll_internal (suc fuel) rounds waker q =
          beat_once rounds waker (on_ctrl clear_waker q) >>= λ o. elim o [
            | none ↦ ok none
            | some b ↦
                let q' = record b.1 { which_buffer = not b.1.which_buffer } in
                elim b.0 [
                  | wait ↦ ok (some (pending, q'))
                  | continue ↦ elim (is_idle q') [
                    | true ↦ ok (some (ready (q'.ctrl.suspended_count == 0), q'))
                    | false ↦ poll_internal fuel rounds waker q'
                  ]
                ]
          ]
