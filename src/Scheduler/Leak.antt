-- ===== src/Scheduler/Leak.antt =====
-- src/dy/unordered_algorithm.rs: a task that finishes while it is suspended is removed, and
-- `suspended_count` is not lowered for it.
use juggle.Prelude.{
  ℕ, zero, suc, ◌+◌, ◌<◌, ◌≡◌, refl, subst, inl, inr, true, false, none, some, ◌==◌, arith, ok,
  Option-cases,
}
use juggle.Task.{StopReason, DynamicFuture, Act}
use juggle.TaskRegistry.{TaskRegistry}
use juggle.Scheduler.{
  Sched, ready, clear_waker, register_waker, poll_local, poll_task, visit, beat_from, beat_once,
  poll_internal, poll_loop,
}
use juggle.Scheduler.Inv.{Inv, Inv-frame, susp, suspended_total}
use juggle.Scheduler.Beat.{Polled, poll_local_Inv, remove_Inv}
use juggle.Scheduler.Verdict.{AtRest, some_not_suspended}

module _ {F : Type 0} (reg : TaskRegistry (DynamicFuture F)) (behaviour : F → ℕ → Act F) where
  open reg use {R, get, insert, remove, count, capacity, modify}

  quiet-visit : (key : ℕ) (s : Sched R) → AtRest reg s → visit reg behaviour key s ≡ ok (false, s)
  unfolding visit
  quiet-visit key s rest = elim (Option-cases (get s.registry key)) [
    | inl e ↦ ground (arith, e)
    | inr (task, e) ↦ ground (arith, e, rest key task e)
  ]

  quiet-beat_from :
      (left key : ℕ) (s : Sched R)
      → AtRest reg s
      → beat_from reg behaviour left key false s ≡ ok (false, s)
  unfolding beat_from
  quiet-beat_from zero key s rest = refl
  quiet-beat_from (suc left) key s rest =
      rw (quiet-visit key s rest) (quiet-beat_from left (suc key) s rest)

  pub quiet-beat_once : (s : Sched R) → AtRest reg s → beat_once reg behaviour s ≡ ok (false, s)
  unfolding beat_once
  quiet-beat_once s rest = quiet-beat_from (capacity s.registry) 0 s rest

  -- The bug. With the count off by the number of tasks that are awake, all of which wait, the wheel
  -- reports that all tasks are suspended, forgets the caller's waker, and some task still waits.
  pub leaked_verdict :
      (fuel w leak : ℕ) (s : Sched R)
      → Inv reg none leak s
      → AtRest reg s
      → 0 < leak
      → count s.registry ≡ suspended_total reg s.registry + leak
      → (poll_internal reg behaviour (suc fuel) w s ≡ ok (some (ready false, clear_waker s)))
        × (key : ℕ) × (task : DynamicFuture F) × (get s.registry key ≡ some task)
        × (task.stop_reason ≡ StopReason.none)
  unfolding poll_internal poll_loop
  leaked_verdict fuel w leak s inv rest pos off =
      let (key, task, e, awake) =
        some_not_suspended reg s.registry inv.valid (omega (arith, off, pos)) in
      let all : count s.registry ≡ s.suspended_count = omega (arith, off, inv.counted) in
      let some_left : 0 < count s.registry = omega (arith, off, pos) in
      let not_zero : (count s.registry == 0) ≡ false = ground arith in
      let same : (count s.registry == s.suspended_count) ≡ true = ground arith in
      (
        rw (quiet-beat_once (clear_waker s) rest)
            (rw (quiet-beat_once (register_waker w (clear_waker s)) rest) (rw (not_zero, same))),
        key,
        task,
        e,
        ground (arith, rest key task e, awake),
      )

  -- A task that ends while suspended leaves the count one too high.
  finish_leaks :
      (leak key : ℕ) (task last : DynamicFuture F) (s u : Sched R)
      → Inv reg none leak s
      → get s.registry key ≡ some task
      → task.stop_reason ≡ StopReason.none
      → s.runnable task.flags ≡ true
      → poll_local reg behaviour key task (record s { current = some key }) ≡ ok (true, u)
      → get u.registry key ≡ some last
      → last.stop_reason ≡ StopReason.suspended
      → (t : Sched R) × (visit reg behaviour key s ≡ ok (true, t)) × Inv reg none (leak + 1) t
  unfolding visit poll_task
  finish_leaks leak key task last s u inv e was runs polled there ends =
      let (inv', held, here) = subst (Polled reg key leak) polled (
        poll_local_Inv reg behaviour leak key task _ (Inv-frame reg none leak s _ refl refl inv)
          e) in
      let (r, gone, inv'') =
        remove_Inv reg leak (record u { current = none }) key last
          (Inv-frame reg none leak u _ refl refl inv') there in
      let one : susp (some last) ≡ 1 = ground (arith, ends) in
      (
        record u { current = none; registry = r },
        ground (arith, e, was, runs, polled, gone),
        subst (λ n. Inv reg none (leak + n) (record u { current = none; registry = r })) one inv'',
      )
