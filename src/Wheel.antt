-- ===== src/Wheel.antt =====
-- src/dy/wheel.rs and src/dy/handle.rs: wheels that own a scheduler, handles that refer to it weakly,
-- and the identifiers of tasks. The memory is the list of the allocations behind reference counted
-- pointers; an address is a place of the list and is not used again. `m` is the greatest usize.
pub mod Params
pub mod Handles
pub mod Lock
pub mod Tests
use Prim.Native.String.{String}
use juggle.Prelude.{
  ℕ, zero, suc, ◌+◌, ◌-◌, Bool, true, false, not, Option, none, some, List, [], ◌∷◌, ◌++◌, length,
  get_elem?, set, ltb, ◌==◌, if◌then◌else◌, Outcome, Panic, ok, panic, ◌>>=◌, add_overflow,
  lock_in_call, tasks_finished, unwrap_suspended,
}
use mathlib.Core.Option
use juggle.Task.{TaskName, as_str, SpawnParams, State, DynamicFuture, Act}
use juggle.TaskRegistry.{TaskRegistry}
use juggle.Scheduler.{Sched, Poll, pending, ready}
use juggle.Scheduler
use juggle.Scheduler.Names
use juggle.Wheel.Params

-- `IdNum`, which holds the key plus 1.
pub record IdNum : Type 0 where
  pub number : ℕ

unfoldable pub from_usize : ℕ → ℕ → Outcome IdNum
from_usize m v = if ltb m (v + 1) then panic add_overflow else ok (record { number = v + 1 })

abbrev pub to_usize : IdNum → ℕ
to_usize id = id.number - 1

-- An allocation with its strong count; the content of a freed one is not read.
pub record Shared (A : Type 0) : Type 0 where
  pub alg : A
  pub strong : ℕ

abbrev pub Memory : Type 0 → Type 0
Memory A = List (Shared A)

-- `WheelHandle` and `Wheel`, by the address of their pointer.
pub record WheelHandle : Type 0 where
  pub ptr : ℕ

pub record Wheel : Type 0 where
  pub ptr : ℕ
  pub handle : WheelHandle

pub record LockedWheel (A : Type 0) : Type 0 where
  pub alg : A

abbrev pub is_same : WheelHandle → WheelHandle → Bool
is_same a b = a.ptr == b.ptr

-- `Result<(), SuspendError>`.
pub data Finished : Type 0 where
  all_finished : Finished
  suspend_error : Finished

abbrev pub map_flag : Poll → Option Finished
map_flag pending = none
map_flag (ready flag) = some (if flag then all_finished else suspend_error)

-- What `spin_block_forever` does with the result of `spin_block`.
abbrev pub spin_block_end : Finished → Panic
spin_block_end all_finished = tasks_finished
spin_block_end suspend_error = unwrap_suspended

module _ {A : Type 0} where
  -- `Weak::strong_count`.
  abbrev pub strong_count : ℕ → Memory A → ℕ
  strong_count ptr h = elim (get_elem? h ptr) [ none ↦ 0 | some cell ↦ cell.strong ]

  abbrev pub is_valid : WheelHandle → Memory A → Bool
  is_valid handle h = not (strong_count handle.ptr h == 0)

  abbrev pub set_strong : ℕ → Shared A → ℕ → Memory A → Memory A
  set_strong ptr cell n h = set h ptr (record cell { strong = n })

  -- `from_inner`.
  unfoldable pub from_inner : A → Memory A → Wheel × Memory A
  from_inner alg h = (
    record { ptr = length h; handle = record { ptr = length h } },
    h ++ record { alg = alg; strong = 1 } ∷ [],
  )

  -- `Rc::try_unwrap` takes the content when there is no other strong pointer.
  unfoldable pub lock : Wheel → Memory A → Outcome (LockedWheel A × Memory A)
  lock wheel h = elim (get_elem? h wheel.ptr) [
    | none ↦ panic lock_in_call
    | some cell ↦
        if cell.strong == 1
        then ok (record { alg = cell.alg }, set_strong wheel.ptr cell 0 h)
        else panic lock_in_call
  ]

  abbrev pub unlock : LockedWheel A → Memory A → Wheel × Memory A
  unlock locked h = from_inner locked.alg h

  -- Dropping a wheel gives up its strong pointer.
  abbrev pub drop : Wheel → Memory A → Memory A
  drop wheel h = elim (get_elem? h wheel.ptr) [
    | none ↦ h
    | some cell ↦ set_strong wheel.ptr cell (cell.strong - 1) h
  ]

  -- `unwrap_weak!`: the strong pointer lives through the call, in which `call` sees the content.
  unfoldable pub unwrap_weak :
      {B : Type 0} → WheelHandle → B → (A → Outcome (B × A)) → Memory A → Outcome (B × Memory A)
  unwrap_weak handle ret call h = elim (get_elem? h handle.ptr) [
    | none ↦ ok (ret, h)
    | some cell ↦
        if cell.strong == 0
        then ok (ret, h)
        else (call cell.alg >>= λ r.
            ok (r.0, set h handle.ptr (record { alg = r.1; strong = cell.strong })))
  ]

module _ {F : Type 0} (m : ℕ) (reg : TaskRegistry (DynamicFuture F)) where
  open reg use {R, count}

  -- `map(|v| IdNum::from_usize(v))`.
  abbrev pub map_id : Option ℕ → Outcome (Option IdNum)
  map_id none = ok none
  map_id (some key) = from_usize m key >>= λ id. ok (some id)

  abbrev pub spawn_dyn :
      WheelHandle → SpawnParams → F → Memory (Sched R) → Outcome (Option IdNum × Memory (Sched R))
  spawn_dyn handle params future =
      unwrap_weak handle none
        (λ s. Scheduler.spawn reg future params s >>= λ r. map_id r.0 >>= λ id. ok (id, r.1))

  abbrev pub spawn :
      WheelHandle → SpawnParams → F → Memory (Sched R) → Outcome (Option IdNum × Memory (Sched R))
  spawn handle params future = spawn_dyn handle params future

  abbrev pub spawn_default :
      WheelHandle → F → Memory (Sched R) → Outcome (Option IdNum × Memory (Sched R))
  spawn_default handle future = spawn_dyn handle Params.default future

  abbrev pub cancel : WheelHandle → IdNum → Memory (Sched R) → Outcome (Bool × Memory (Sched R))
  cancel handle id = unwrap_weak handle false (Scheduler.cancel reg (to_usize id))

  abbrev pub suspend : WheelHandle → IdNum → Memory (Sched R) → Outcome (Bool × Memory (Sched R))
  suspend handle id = unwrap_weak handle false (λ s. ok (Scheduler.suspend reg (to_usize id) s))

  abbrev pub resume : WheelHandle → IdNum → Memory (Sched R) → Outcome (Bool × Memory (Sched R))
  resume handle id = unwrap_weak handle false (Scheduler.resume reg (to_usize id))

  -- A call that only reads.
  abbrev pub reads :
      {B : Type 0}
      → WheelHandle
      → B
      → (Sched R → Outcome B)
      → Memory (Sched R)
      → Outcome (B × Memory (Sched R))
  reads handle ret call = unwrap_weak handle ret (λ s. call s >>= λ b. ok (b, s))

  abbrev pub get_state :
      WheelHandle → IdNum → Memory (Sched R) → Outcome (Option State × Memory (Sched R))
  get_state handle id = reads handle none (λ s. ok (some (Scheduler.get_state reg s (to_usize id))))

  abbrev pub current : WheelHandle → Memory (Sched R) → Outcome (Option IdNum × Memory (Sched R))
  current handle = reads handle none (λ s. map_id s.current)

  abbrev pub with_name :
      {B : Type 0}
      → WheelHandle
      → IdNum
      → (Option String → B)
      → Memory (Sched R)
      → Outcome (B × Memory (Sched R))
  with_name handle id func =
      reads handle (func none)
        (λ s. ok (Names.with_name reg (to_usize id) (λ name. func (as_str name)) s))

  abbrev pub get_name :
      WheelHandle → IdNum → Memory (Sched R) → Outcome (Option String × Memory (Sched R))
  get_name handle id = reads handle none (λ s. ok (Names.with_name reg (to_usize id) as_str s))

  abbrev pub get_current_name :
      WheelHandle → Memory (Sched R) → Outcome (Option String × Memory (Sched R))
  get_current_name handle h = current handle h >>= λ r. elim r.0 [
    | none ↦ ok (none, r.1)
    | some id ↦ get_name handle id r.1
  ]

  abbrev pub get_by_name :
      WheelHandle → String → Memory (Sched R) → Outcome (Option IdNum × Memory (Sched R))
  get_by_name handle name = reads handle none (λ s. map_id (Names.get_by_name reg name s))

  abbrev pub registered_count : WheelHandle → Memory (Sched R) → Outcome (ℕ × Memory (Sched R))
  registered_count handle = reads handle 0 (λ s. ok (count s.registry))

  -- `behaviour` is what the user's futures do.
  module _ (behaviour : F → ℕ → Act F) where
    -- `poll` of a locked wheel, with fuel for the rounds of its scheduler.
    unfoldable pub poll_locked :
        ℕ → ℕ → LockedWheel (Sched R) → Outcome (Option (Option Finished × LockedWheel (Sched R)))
    poll_locked fuel waker locked =
        Scheduler.poll_internal reg behaviour fuel waker locked.alg >>= λ o. elim o [
          | none ↦ ok none
          | some r ↦ ok (some (map_flag r.0, record { alg = r.1 }))
        ]

    -- `spin_block` of a locked wheel, with fuel for its polls, whose waker does nothing.
    unfoldable pub spin_block :
        ℕ → ℕ → ℕ → LockedWheel (Sched R) → Outcome (Option (Finished × LockedWheel (Sched R)))
    spin_block zero fuel waker locked = ok none
    spin_block (suc polls) fuel waker locked = poll_locked fuel waker locked >>= λ o. elim o [
      | none ↦ ok none
      | some r ↦ elim r.0 [
        | none ↦ spin_block polls fuel waker r.1
        | some result ↦ ok (some (result, r.1))
      ]
    ]
