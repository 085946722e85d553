-- ===== src/Static.antt =====
-- src/st/algorithm.rs: the scheduler of a static wheel, src/st/handle.rs: its handle, and the lock of
-- src/st/wheel.rs. A usize that would fall below 0 panics, as in a debug build; the counts never come
-- near the greatest usize, since each change of a count is one call.
pub mod Beat
pub mod Life
pub mod Reuse
pub mod Inv
pub mod Calls
pub mod Run
pub mod Careful
pub mod Safe
pub mod Rest
pub mod Verdict
pub mod Still
pub mod CountedOff
pub mod Leak
pub mod Tests
use Prim.Native.String.{String}
use juggle.Prelude.{
  ℕ, zero, suc, ◌+◌, ◌%◌, Bool, true, false, ◌||◌, ◌&&◌, not, Option, none, some, List, [], ◌∷◌,
  length, get_elem?, set, ◌==◌, ltb, if◌then◌else◌, Outcome, ok, panic, recursive_poll,
  subtract_overflow, invalid_handle, index_out_of_bounds, ◌>>=◌,
}
use juggle.Task.{State}
use juggle.Scheduler.Names.{is_name}
use juggle.StaticTask.{StopReason, StaticFuture, StaticAct, set_reason, set_runnable}

pub record StaticAlgorithm (F : Type 0) : Type 0 where
  pub registry : List (StaticFuture F)
  pub last_waker : Option ℕ
  pub woken : List ℕ
  pub current : Option ℕ
  pub suspended_count : ℕ
  pub unfinished_count : ℕ
  pub current_generation : ℕ

abbrev pub state_of : StopReason → Bool → State
state_of StopReason.finished runs = State.inactive
state_of StopReason.cancelled runs = State.cancelled
state_of StopReason.suspended runs = State.suspended
state_of StopReason.restart_suspended runs = State.suspended
state_of StopReason.restart runs = State.runnable
state_of StopReason.none runs = if runs then State.runnable else State.waiting

module _ {F : Type 0} where
  abbrev pub change : (StaticFuture F → StaticFuture F) → ℕ → StaticAlgorithm F → StaticAlgorithm F
  change f key s = elim (get_elem? s.registry key) [
    | none ↦ s
    | some task ↦ record s { registry = set s.registry key (f task) }
  ]

  abbrev pub set_stop_reason : ℕ → StopReason → StaticAlgorithm F → StaticAlgorithm F
  set_stop_reason key val s = change (set_reason val) key s

  abbrev pub inc_suspended : StaticAlgorithm F → StaticAlgorithm F
  inc_suspended s = record s { suspended_count = s.suspended_count + 1 }

  abbrev pub inc_unfinished : StaticAlgorithm F → StaticAlgorithm F
  inc_unfinished s = record s { unfinished_count = s.unfinished_count + 1 }

  abbrev pub lower_suspended : ℕ → StaticAlgorithm F → Outcome (StaticAlgorithm F)
  lower_suspended zero s = panic subtract_overflow
  lower_suspended (suc n) s = ok (record s { suspended_count = n })

  unfoldable pub dec_suspended : StaticAlgorithm F → Outcome (StaticAlgorithm F)
  dec_suspended s = lower_suspended s.suspended_count s

  abbrev pub lower_unfinished : ℕ → StaticAlgorithm F → Outcome (StaticAlgorithm F)
  lower_unfinished zero s = panic subtract_overflow
  lower_unfinished (suc n) s = ok (record s { unfinished_count = n })

  unfoldable pub dec_unfinished : StaticAlgorithm F → Outcome (StaticAlgorithm F)
  dec_unfinished s = lower_unfinished s.unfinished_count s

  -- `AtomicWakerRegistry`.
  abbrev pub set_waker : Option ℕ → StaticAlgorithm F → StaticAlgorithm F
  set_waker w s = record s { last_waker = w }

  abbrev pub notify_wake : StaticAlgorithm F → StaticAlgorithm F
  notify_wake s = elim s.last_waker [
    | none ↦ s
    | some w ↦ record s { last_waker = none; woken = w ∷ s.woken }
  ]

  -- `StaticSyncFlags::wake`, for the flags of the task of a key.
  abbrev pub wake : ℕ → StaticAlgorithm F → StaticAlgorithm F
  wake key s = change (set_runnable true) key (notify_wake s)

  abbrev pub resume_at : ℕ → StopReason → StaticAlgorithm F → Outcome (Bool × StaticAlgorithm F)
  resume_at key StopReason.suspended s =
      dec_suspended (set_stop_reason key StopReason.none s) >>= λ s'. ok (true, s')
  resume_at key _ s = ok (false, s)

  unfoldable pub resume : ℕ → StaticAlgorithm F → Outcome (Bool × StaticAlgorithm F)
  resume key s = elim (get_elem? s.registry key) [
    | none ↦ ok (false, s)
    | some task ↦ resume_at key task.stop_reason s
  ]

  abbrev pub suspend_at : ℕ → StopReason → StaticAlgorithm F → Bool × StaticAlgorithm F
  suspend_at key StopReason.none s =
      (true, inc_suspended (set_stop_reason key StopReason.suspended s))
  suspend_at key StopReason.restart s =
      (true, inc_suspended (set_stop_reason key StopReason.restart_suspended s))
  suspend_at key _ s = (false, s)

  unfoldable pub suspend : ℕ → StaticAlgorithm F → Bool × StaticAlgorithm F
  suspend key s = elim (get_elem? s.registry key) [
    | none ↦ (false, s)
    | some task ↦ suspend_at key task.stop_reason s
  ]

  abbrev pub mark_restart : ℕ → StaticAlgorithm F → Outcome (Bool × StaticAlgorithm F)
  mark_restart key s = ok (true, set_stop_reason key StopReason.restart s)

  abbrev pub restart_at : ℕ → StopReason → StaticAlgorithm F → Outcome (Bool × StaticAlgorithm F)
  restart_at key StopReason.suspended s = dec_suspended s >>= mark_restart key
  restart_at key StopReason.restart_suspended s = dec_suspended s >>= mark_restart key
  restart_at key StopReason.cancelled s = mark_restart key (inc_unfinished s)
  restart_at key StopReason.finished s = mark_restart key (inc_unfinished s)
  restart_at key StopReason.restart s = ok (true, s)
  restart_at key StopReason.none s = mark_restart key s

  unfoldable pub restart : ℕ → StaticAlgorithm F → Outcome (Bool × StaticAlgorithm F)
  restart key s = elim (get_elem? s.registry key) [
    | none ↦ ok (false, s)
    | some task ↦ restart_at key task.stop_reason s
  ]

  abbrev pub cancel_at : ℕ → StopReason → StaticAlgorithm F → Outcome (Bool × StaticAlgorithm F)
  cancel_at key StopReason.cancelled s = ok (false, s)
  cancel_at key StopReason.suspended s =
      dec_suspended (set_stop_reason key StopReason.cancelled s) >>= λ s'. ok (true, s')
  cancel_at key _ s = ok (true, set_stop_reason key StopReason.cancelled s)

  unfoldable pub cancel : ℕ → StaticAlgorithm F → Outcome (Bool × StaticAlgorithm F)
  cancel key s = elim (get_elem? s.registry key) [
    | none ↦ ok (false, s)
    | some task ↦ cancel_at key task.stop_reason s
  ]

  abbrev pub get_state : StaticAlgorithm F → ℕ → State
  get_state s key = elim (get_elem? s.registry key) [
    | none ↦ State.inactive
    | some task ↦ state_of task.stop_reason task.runnable
  ]

  -- `StaticHandle` is known by its generation. Each operation first looks at it.
  abbrev pub is_valid : StaticAlgorithm F → ℕ → Bool
  is_valid s generation = s.current_generation == generation

  abbrev pub guarded :
      ℕ
      → (StaticAlgorithm F → Outcome (Bool × StaticAlgorithm F))
      → StaticAlgorithm F
      → Outcome (Bool × StaticAlgorithm F)
  guarded generation f s = if is_valid s generation then f s else ok (false, s)

  unfoldable pub get_name : StaticAlgorithm F → ℕ → Option String
  get_name s key = elim (get_elem? s.registry key) [ none ↦ none | some task ↦ task.name ]

  -- The position in the registry, which is the key, of the first task with the name.
  unfoldable pub position : String → ℕ → List (StaticFuture F) → Option ℕ
  position name key [] = none
  position name key (task ∷ tasks) =
      let rest = position name (suc key) tasks in if is_name name task.name then some key else rest

  abbrev pub get_by_name : StaticAlgorithm F → String → Option ℕ
  get_by_name s name = position name 0 s.registry

  unfoldable pub get_current_name : StaticAlgorithm F → Option String
  get_current_name s = elim s.current [ none ↦ none | some key ↦ get_name s key ]

  unfoldable pub get_id_by_index : ℕ → ℕ → StaticAlgorithm F → Outcome ℕ
  get_id_by_index generation index s =
      if is_valid s generation
      then (if ltb index (length s.registry) then ok index else panic index_out_of_bounds)
      else panic invalid_handle

  -- The user's code of one call of `init` or one poll.
  unfoldable pub run :
      {A : Type 0} → StaticAct A → StaticAlgorithm F → Outcome (A × StaticAlgorithm F)
  run (StaticAct.returns a) s = ok (a, s)
  run (StaticAct.is_valid generation k) s = run (k (is_valid s generation)) s
  run (StaticAct.cancel generation key k) s =
      guarded generation (cancel key) s >>= λ r. run (k r.0) r.1
  run (StaticAct.suspend generation key k) s =
      guarded generation (λ t. ok (suspend key t)) s >>= λ r. run (k r.0) r.1
  run (StaticAct.resume generation key k) s =
      guarded generation (resume key) s >>= λ r. run (k r.0) r.1
  run (StaticAct.restart generation key k) s =
      guarded generation (restart key) s >>= λ r. run (k r.0) r.1
  run (StaticAct.current generation k) s =
      run (k (if is_valid s generation then s.current else none)) s
  run (StaticAct.get_current_name generation k) s =
      run (k (if is_valid s generation then get_current_name s else none)) s
  run (StaticAct.get_name generation key k) s =
      run (k (if is_valid s generation then get_name s key else none)) s
  run (StaticAct.get_by_name generation name k) s =
      run (k (if is_valid s generation then get_by_name s name else none)) s
  run (StaticAct.registered_count generation k) s =
      run (k (if is_valid s generation then length s.registry else 0)) s
  run (StaticAct.get_id_by_index generation index k) s =
      get_id_by_index generation index s >>= λ key. run (k key) s
  run (StaticAct.wake key k) s = run k (wake key s)
