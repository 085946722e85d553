-- ===== src/Scheduler.antt =====
-- src/dy/unordered_algorithm.rs: the scheduler of `Wheel`, over any task registry, and the parts of
-- src/dy/dyn_future.rs and src/dy/handle.rs that it runs. A usize that would fall below 0 panics, as
-- in a debug build.
pub mod Inv
pub mod Beat
pub mod Silent
pub mod Verdict
pub mod Control
pub mod Leak
pub mod Budget
pub mod Progress
pub mod Names
pub mod Tests
use juggle.Prelude.{
  ℕ, zero, suc, ◌+◌, ◌-◌, Bool, true, false, ◌||◌, ◌&&◌, Option, none, some, List, [], ◌∷◌, ◌==◌,
  if◌then◌else◌, Outcome, ok, panic, task_not_found, recursive_poll, subtract_overflow, ◌>>=◌,
  is_some,
}
use juggle.Task.{StopReason, is_poll_allowed, SpawnParams, State, DynamicFuture, new_future, Act}
use juggle.TaskRegistry.{TaskRegistry}

-- `last_waker` is the waker of the caller of the wheel, known by a number, and `woken` the wakers
-- woken so far. `runnable` is the store of the flags that tasks share with their wakers, with
-- `next_flags` the first address not in use.
pub record Sched (R : Type 0) : Type 0 where
  pub registry : R
  pub last_waker : Option ℕ
  pub woken : List ℕ
  pub current : Option ℕ
  pub suspended_count : ℕ
  pub runnable : ℕ → Bool
  pub next_flags : ℕ

pub data Poll : Type 0 where
  pending : Poll
  ready : Bool → Poll

abbrev pub is_suspended : StopReason → Bool
is_suspended StopReason.suspended = true
is_suspended _ = false

abbrev pub with_reason : {F : Type 0} → StopReason → DynamicFuture F → DynamicFuture F
with_reason val task = record task { stop_reason = val }

abbrev pub start_poll : {F : Type 0} → DynamicFuture F → DynamicFuture F
start_poll task = record task { polling = true }

-- The state that a poll leaves the future in; a finished future is not polled again.
abbrev pub end_poll : {F : Type 0} → Option F → DynamicFuture F → DynamicFuture F
end_poll none task = record task { polling = false }
end_poll (some future) task = record task { polling = false; future = future }

abbrev pub store_flag : (ℕ → Bool) → ℕ → Bool → ℕ → Bool
store_flag flags a val b = if a == b then val else flags b

abbrev pub task_state : StopReason → Bool → State
task_state StopReason.cancelled runs = State.cancelled
task_state StopReason.suspended runs = State.suspended
task_state StopReason.none runs = if runs then State.runnable else State.waiting

module _ {R : Type 0} where
  abbrev pub inc_suspended : Sched R → Sched R
  inc_suspended s = record s { suspended_count = s.suspended_count + 1 }

  unfoldable pub lower : ℕ → Sched R → Outcome (Sched R)
  lower zero s = panic subtract_overflow
  lower (suc n) s = ok (record s { suspended_count = n })

  unfoldable pub dec_suspended : Sched R → Outcome (Sched R)
  unfolding lower
  dec_suspended s = lower s.suspended_count s

  -- `AtomicWakerRegistry`: `register`, `clear` and `notify_wake`.
  abbrev pub register_waker : ℕ → Sched R → Sched R
  register_waker w s = record s { last_waker = some w }

  abbrev pub clear_waker : Sched R → Sched R
  clear_waker s = record s { last_waker = none }

  abbrev pub notify_wake : Sched R → Sched R
  notify_wake s = elim s.last_waker [
    | none ↦ s
    | some w ↦ record s { last_waker = none; woken = w ∷ s.woken }
  ]

  -- `InnerSyncFlags::wake`.
  abbrev pub wake : ℕ → Sched R → Sched R
  wake flags s =
      let s' = notify_wake s in record s' { runnable = store_flag s'.runnable flags true }

module _ {F : Type 0} (reg : TaskRegistry (DynamicFuture F)) where
  open reg use {R, get, insert, remove, count, capacity, modify}

  abbrev pub new : R → Sched R
  new registry = record {
    registry = registry;
    last_waker = none;
    woken = [];
    current = none;
    suspended_count = 0;
    runnable = λ a. false;
    next_flags = 0;
  }

  abbrev pub set_stop_reason : ℕ → StopReason → Sched R → Sched R
  set_stop_reason key val s = record s { registry = modify (with_reason val) key s.registry }

  -- `register`, where `dynamic` is the new task.
  unfoldable pub register : DynamicFuture F → Sched R → Outcome (Option ℕ × Sched R)
  register dynamic s = insert dynamic s.registry >>= λ r.
      let s' = record s { registry = r.1 } in
      ok (r.0, if is_suspended dynamic.stop_reason && is_some r.0 then inc_suspended s' else s')

  -- `WheelHandle::spawn_dyn` on a live wheel; `SyncFlags::new` allocates flags that are set.
  unfoldable pub spawn : F → SpawnParams → Sched R → Outcome (Option ℕ × Sched R)
  spawn future params s = register (new_future future s.next_flags params) (record s {
    runnable = store_flag s.runnable s.next_flags true;
    next_flags = s.next_flags + 1;
  })

  unfoldable pub resume_task : ℕ → StopReason → Sched R → Outcome (Bool × Sched R)
  resume_task key StopReason.suspended s =
      dec_suspended (set_stop_reason key StopReason.none s) >>= λ s'. ok (true, s')
  resume_task key _ s = ok (false, s)

  unfoldable pub resume : ℕ → Sched R → Outcome (Bool × Sched R)
  unfolding resume_task
  resume key s = elim (get s.registry key) [
    | none ↦ ok (false, s)
    | some task ↦ resume_task key task.stop_reason s
  ]

  unfoldable pub suspend_task : ℕ → StopReason → Sched R → Bool × Sched R
  suspend_task key StopReason.none s =
      (true, inc_suspended (set_stop_reason key StopReason.suspended s))
  suspend_task key _ s = (false, s)

  unfoldable pub suspend : ℕ → Sched R → Bool × Sched R
  unfolding suspend_task
  suspend key s = elim (get s.registry key) [
    | none ↦ (false, s)
    | some task ↦ suspend_task key task.stop_reason s
  ]

  unfoldable pub cancel_task : ℕ → StopReason → Sched R → Outcome (Bool × Sched R)
  cancel_task key StopReason.cancelled s = ok (false, s)
  cancel_task key StopReason.suspended s =
      dec_suspended (set_stop_reason key StopReason.cancelled s) >>= λ s'. ok (true, s')
  cancel_task key StopReason.none s = ok (true, set_stop_reason key StopReason.cancelled s)

  unfoldable pub cancel : ℕ → Sched R → Outcome (Bool × Sched R)
  unfolding cancel_task
  cancel key s = elim (get s.registry key) [
    | none ↦ ok (false, s)
    | some task ↦ cancel_task key task.stop_reason s
  ]

  abbrev pub get_state : Sched R → ℕ → State
  get_state s key = elim (get s.registry key) [
    | none ↦ State.inactive
    | some task ↦ task_state task.stop_reason (s.runnable task.flags)
  ]

  -- The user's code of one poll. The result is the future's next state, or none when it is ready.
  unfoldable pub run : Act F → Sched R → Outcome (Option F × Sched R)
  run Act.ready s = ok (none, s)
  run (Act.pending future) s = ok (some future, s)
  run (Act.spawn future params k) s = spawn future params s >>= λ r. run (k r.0) r.1
  run (Act.cancel key k) s = cancel key s >>= λ r. run (k r.0) r.1
  run (Act.suspend key k) s = let r = suspend key s in run (k r.0) r.1
  run (Act.resume key k) s = resume key s >>= λ r. run (k r.0) r.1
  run (Act.get_state key k) s = run (k (get_state s key)) s
  run (Act.current k) s = run (k s.current) s
  run (Act.registered_count k) s = run (k (count s.registry)) s
  run (Act.wake flags k) s = run k (wake flags s)

  -- `remove(key).expect("Internal Error: task not found.")`.
  unfoldable pub remove_task : ℕ → Sched R → Outcome (Sched R)
  remove_task key s =
      let r = remove key s.registry in
      if is_some r.0 then ok (record s { registry = r.1 }) else panic task_not_found

  -- The end of `poll_internal`, after two beats without a poll.
  abbrev pub finish : Sched R → Poll × Sched R
  finish s =
      let cnt = count s.registry in
      if (cnt == 0) || (cnt == s.suspended_count)
      then (ready (cnt == 0), clear_waker s)
      else (pending, s)

  -- `behaviour future flags` is what the user's future does when polled with the waker of `flags`.
  module _ (behaviour : F → ℕ → Act F) where
    -- `DynamicFuture::poll_local`.
    unfoldable pub poll_local : ℕ → DynamicFuture F → Sched R → Outcome (Bool × Sched R)
    poll_local key task s =
        if task.polling
        then panic recursive_poll
        else (run (behaviour task.future task.flags) (record s {
          registry = modify start_poll key s.registry;
          runnable = store_flag s.runnable task.flags false;
        })
            >>= λ r. ok (
              if is_some r.0 then false else true,
              record r.1 { registry = modify (end_poll r.0) key r.1.registry },
            ))

    -- A pollable task: `current` is set around the poll, and a finished task is removed.
    unfoldable pub poll_task : ℕ → DynamicFuture F → Sched R → Outcome (Bool × Sched R)
    poll_task key task s = poll_local key task (record s { current = some key }) >>= λ r.
        let s' = record r.1 { current = none } in
        if r.0 then (remove_task key s' >>= λ s''. ok (true, s'')) else ok (true, s')

    -- One round of the loop of `beat_once` at an allocated task: whether it was polled.
    visit_task : ℕ → DynamicFuture F → StopReason → Sched R → Outcome (Bool × Sched R)
    visit_task key task StopReason.cancelled s = remove_task key s >>= λ s'. ok (false, s')
    visit_task key task StopReason.suspended s = ok (false, s)
    visit_task key task StopReason.none s =
        if s.runnable task.flags then poll_task key task s else ok (false, s)

    unfoldable pub visit : ℕ → Sched R → Outcome (Bool × Sched R)
    unfolding visit_task
    visit key s = elim (get s.registry key) [
      | none ↦ ok (false, s)
      | some task ↦ visit_task key task task.stop_reason s
    ]

    unfoldable pub beat_from : ℕ → ℕ → Bool → Sched R → Outcome (Bool × Sched R)
    beat_from zero key any_poll s = ok (any_poll, s)
    beat_from (suc left) key any_poll s =
        visit key s >>= λ r. beat_from left (suc key) (any_poll || r.0) r.1

    -- The range of keys is that of the capacity when the beat starts.
    unfoldable pub beat_once : Sched R → Outcome (Bool × Sched R)
    beat_once s = beat_from (capacity s.registry) 0 false s

    -- The loop of `poll_internal` with fuel for its rounds; none when the fuel is used up.
    unfoldable pub poll_loop : ℕ → ℕ → Sched R → Outcome (Option (Poll × Sched R))
    poll_loop zero waker s = ok none
    poll_loop (suc fuel) waker s = beat_once s >>= λ r. elim r.0 [
      | true ↦ poll_loop fuel waker r.1
      | false ↦ beat_once (register_waker waker r.1) >>= λ q. elim q.0 [
        | true ↦ poll_loop fuel waker (clear_waker q.1)
        | false ↦ ok (some (finish q.1))
      ]
    ]

    unfoldable pub poll_internal : ℕ → ℕ → Sched R → Outcome (Option (Poll × Sched R))
    poll_internal fuel waker s = poll_loop fuel waker (clear_waker s)
