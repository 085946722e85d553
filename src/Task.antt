-- ===== src/Task.antt =====
-- src/dy/stat.rs, src/dy/dyn_future.rs and the parameter types of src/dy/handle.rs: what a task is.
-- The user's future is a parameter: a poll of it is a tree of the calls that it makes on the
-- handle, with what it does next for each answer.
use Prim.Native.String.{String}
use juggle.Prelude.{ℕ, Bool, true, false, Option, some, if◌then◌else◌}

-- `StopReason` of stat.rs.
pub data StopReason : Type 0 where
  none : StopReason
  suspended : StopReason
  cancelled : StopReason

abbrev pub is_poll_allowed : StopReason → Bool
is_poll_allowed StopReason.none = true
is_poll_allowed _ = false

pub data TaskName : Type 0 where
  static_name : String → TaskName
  dynamic_name : String → TaskName
  none : TaskName

abbrev pub as_str : TaskName → Option String
as_str (static_name s) = some s
as_str (dynamic_name s) = some s
as_str TaskName.none = Option.none

pub record SpawnParams : Type 0 where
  pub suspended : Bool
  pub name : TaskName

-- `State` of handle.rs.
pub data State : Type 0 where
  runnable : State
  suspended : State
  waiting : State
  cancelled : State
  inactive : State

-- `flags` is the address of the shared `InnerSyncFlags`, which wakers may hold after the task ended.
pub record DynamicFuture (F : Type 0) : Type 0 where
  pub future : F
  pub flags : ℕ
  pub name : TaskName
  pub stop_reason : StopReason
  pub polling : Bool

abbrev pub new_future : {F : Type 0} → F → ℕ → SpawnParams → DynamicFuture F
new_future future flags params = record {
  future = future;
  flags = flags;
  name = params.name;
  stop_reason = if params.suspended then StopReason.suspended else StopReason.none;
  polling = false;
}

-- One poll of a user's future: the calls on the handle in their order, then the result of the poll.
pub data Act (F : Type 0) : Type 0 where
  ready : Act F
  pending : F → Act F
  spawn : F → SpawnParams → (Option ℕ → Act F) → Act F
  cancel : ℕ → (Bool → Act F) → Act F
  suspend : ℕ → (Bool → Act F) → Act F
  resume : ℕ → (Bool → Act F) → Act F
  get_state : ℕ → (State → Act F) → Act F
  current : (Option ℕ → Act F) → Act F
  registered_count : (ℕ → Act F) → Act F
  wake : ℕ → Act F → Act F
