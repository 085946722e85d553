-- ===== src/StaticTask.antt =====
-- src/st/config.rs and src/st/stt_future.rs: a task of a static wheel, and the life cycle of the future
-- in its static memory. Destructors run no calls of the scheduler in this model.
pub mod Lifecycle
use Prim.Native.String.{String}
use juggle.Prelude.{ℕ, Bool, true, false, Option, some, List, [], ◌∷◌, ◌&&◌, if◌then◌else◌}

-- `StopReason` of src/st/mod.rs.
pub data StopReason : Type 0 where
  none : StopReason
  suspended : StopReason
  cancelled : StopReason
  finished : StopReason
  restart : StopReason
  restart_suspended : StopReason

pub record StaticParams : Type 0 where
  pub suspended : Bool
  pub name : Option String

-- `INIT_FLAG` with `POLL`, the memory that it guards.
pub data Slot (F : Type 0) : Type 0 where
  uninit : Slot F
  created : F → Slot F
  dropped : Slot F

-- The status argument of `handle_task`.
pub data Status : Type 0 where
  poll : Status
  restart : Status
  cancel : Status
  uninit : Status

-- What `handle_task` does to the memory: the future that `init` made is written, the future in the
-- memory is polled, which changes it from its state before to its state after, and it is dropped in
-- place.
pub data Effect (F : Type 0) : Type 0 where
  makes : F → Effect F
  polls : F → F → Effect F
  drops : F → Effect F

-- What `handle_task` goes on with: it returns, it calls `init`, or it polls the future.
pub data Next (F : Type 0) : Type 0 where
  returns : Next F
  inits : Next F
  polls : F → Next F

pub record Handled (F : Type 0) : Type 0 where
  pub slot : Slot F
  pub next : Next F
  pub effects : List (Effect F)

module _ {F : Type 0} where
  -- A status other than 0: the drop, before a new future for a restart.
  unfoldable pub clear_slot : Status → Slot F → Slot F × List (Effect F)
  clear_slot Status.restart (Slot.created f) = (Slot.uninit, drops f ∷ [])
  clear_slot Status.uninit (Slot.created f) = (Slot.uninit, drops f ∷ [])
  clear_slot Status.cancel (Slot.created f) = (Slot.dropped, drops f ∷ [])
  clear_slot Status.uninit Slot.dropped = (Slot.uninit, [])
  clear_slot Status.cancel Slot.uninit = (Slot.dropped, [])
  clear_slot _ slot = (slot, [])

  abbrev pub proceed : Next F → Slot F × List (Effect F) → Handled F
  proceed next r = record { slot = r.0; next = next; effects = r.1 }

  -- `handle_task` up to the call of `init` or the poll.
  unfoldable pub handle_task : Status → Slot F → Handled F
  unfolding clear_slot
  handle_task Status.restart slot = proceed inits (clear_slot Status.restart slot)
  handle_task Status.cancel slot = proceed returns (clear_slot Status.cancel slot)
  handle_task Status.uninit slot = proceed returns (clear_slot Status.uninit slot)
  handle_task Status.poll Slot.uninit = proceed inits (Slot.uninit, [])
  handle_task Status.poll Slot.dropped = proceed returns (Slot.dropped, [])
  handle_task Status.poll (Slot.created f) = proceed (Next.polls f) (Slot.created f, [])

  -- The end of `handle_task`: a future that is ready is dropped in place. `next` is its state after a
  -- poll that is pending, `last` the state in which it is dropped.
  unfoldable pub after_poll : F → Option F → Slot F × List (Effect F)
  after_poll last (some next) = (Slot.created next, [])
  after_poll last Option.none = (Slot.dropped, drops last ∷ [])

-- `StaticFuture`, with the flag of its `StaticSyncFlags`. A wheel is only got from `try_lock`, which
-- initializes the flags before they are read.
pub record StaticFuture (F : Type 0) : Type 0 where
  pub slot : Slot F
  pub name : Option String
  pub stop_reason : StopReason
  pub polling : Bool
  pub start_suspended : Bool
  pub runnable : Bool

module _ {F : Type 0} where
  -- `StaticFuture::new`.
  abbrev pub new_task : StaticParams → StaticFuture F
  new_task params = record {
    slot = Slot.uninit;
    name = params.name;
    stop_reason = StopReason.none;
    polling = false;
    start_suspended = params.suspended;
    runnable = true;
  }

  abbrev pub reset : Bool → StaticFuture F → StaticFuture F
  reset defaults task = record task {
    stop_reason =
        if task.start_suspended && defaults then StopReason.suspended else StopReason.none;
    runnable = true;
  }

  abbrev pub set_reason : StopReason → StaticFuture F → StaticFuture F
  set_reason val task = record task { stop_reason = val }

  abbrev pub set_runnable : Bool → StaticFuture F → StaticFuture F
  set_runnable val task = record task { runnable = val }

  -- The memory once `init` has made a future.
  abbrev pub set_created : F → StaticFuture F → StaticFuture F
  set_created future task = record task { slot = Slot.created future }

  -- `cancel` of a task that is not being polled.
  abbrev pub clear_task : Bool → StaticFuture F → StaticFuture F
  clear_task to_uninit task = record task {
    slot = (clear_slot (if to_uninit then Status.uninit else Status.cancel) task.slot).0;
  }

-- The user's code, which is called to make a future or to poll one: its calls on handles, each with
-- the generation of the handle, then its result. `wake` calls the waker of a task.
pub data StaticAct (A : Type 0) : Type 0 where
  returns : A → StaticAct A
  is_valid : ℕ → (Bool → StaticAct A) → StaticAct A
  cancel : ℕ → ℕ → (Bool → StaticAct A) → StaticAct A
  suspend : ℕ → ℕ → (Bool → StaticAct A) → StaticAct A
  resume : ℕ → ℕ → (Bool → StaticAct A) → StaticAct A
  restart : ℕ → ℕ → (Bool → StaticAct A) → StaticAct A
  current : ℕ → (Option ℕ → StaticAct A) → StaticAct A
  get_current_name : ℕ → (Option String → StaticAct A) → StaticAct A
  get_name : ℕ → ℕ → (Option String → StaticAct A) → StaticAct A
  get_by_name : ℕ → String → (Option ℕ → StaticAct A) → StaticAct A
  registered_count : ℕ → (ℕ → StaticAct A) → StaticAct A
  get_id_by_index : ℕ → ℕ → (ℕ → StaticAct A) → StaticAct A
  wake : ℕ → StaticAct A → StaticAct A
