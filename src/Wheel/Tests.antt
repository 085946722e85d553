-- ===== src/Wheel/Tests.antt =====
-- A wheel with tasks that have names, its handles, and the theorems on them.
use juggle.Prelude.{
  ℕ, ◌+◌, ◌-◌, ◌^◌, ◌<◌, ◌≡◌, refl, subst, ◌⊎◌, Bool, Option, none, some, [], ◌∷◌, get_elem?, arith,
  Outcome, ok, panic, add_overflow,
}
use juggle.Slab.{ChunkSlab, init_chunk}
use juggle.Slab
use juggle.Slab.Map.{new-Inv}
use juggle.Registry
use juggle.Registry.{usize_key}
use juggle.Registry.Instance.{slab_registry}
use juggle.Task.{DynamicFuture, Act, new_future}
use juggle.TaskRegistry.{TaskRegistry, InsertPost}
use juggle.Scheduler.{Sched, poll_internal, poll_loop, beat_once, beat_from, visit, register}
use juggle.Scheduler
use juggle.Scheduler.Names.{First, get_by_name-First, name_from}
use juggle.Scheduler.Names
use juggle.Wheel.{
  IdNum, from_usize, to_usize, Memory, Wheel, LockedWheel, Finished, suspend_error, from_inner,
  lock, unlock, unwrap_weak, spawn_dyn, suspend, get_name, get_state, get_by_name, spin_block,
  poll_locked,
}
use juggle.Wheel.Params.{named, dyn_named}
use juggle.Wheel.Lock.{Relocked, unlock-lock}
use juggle.Wheel.Handles.{from_usize-to_usize, first_state, spawn-get_name}

abbrev usize_max : ℕ
usize_max = 2 ^ 64 - 1

-- A future is a number, and each poll is pending.
abbrev tasks : TaskRegistry (DynamicFuture ℕ)
tasks = slab_registry (DynamicFuture ℕ) usize_max refl

abbrev Alg : Type 0
Alg = Sched (ChunkSlab (DynamicFuture ℕ))

abbrev fresh : Alg
fresh = Scheduler.new tasks Slab.new

abbrev or_same : {B : Type 0} → Memory Alg → Outcome (B × Memory Alg) → Memory Alg
or_same h (ok (b, h')) = h'
or_same h (panic p) = h

-- `Wheel::new` in an empty memory.
abbrev wheel : Wheel
wheel = record { ptr = 0; handle = record { ptr = 0 } }

abbrev memory : Memory Alg
memory = record { alg = fresh; strong = 1 } ∷ []

wheel_new : from_inner fresh [] ≡ (wheel, memory)
unfolding from_inner
wheel_new = refl

abbrev dog : Memory Alg
dog = or_same memory (spawn_dyn usize_max tasks wheel.handle (named "Dog") 1 memory)

abbrev dog_cat : Memory Alg
dog_cat = or_same dog (spawn_dyn usize_max tasks wheel.handle (dyn_named "Cat") 2 dog)

-- To compute with the memory, unfold this.
evaluates : Unit {0}
unfolding unwrap_weak from_usize Scheduler.spawn register Registry.insert Slab.insert init_chunk
    Names.get_by_name name_from lock from_inner Scheduler.suspend spin_block poll_locked
    poll_internal poll_loop beat_once beat_from visit
evaluates = tt

abbrev id_of : ℕ → IdNum
id_of key = record { number = key + 1 }

lookups :
    (get_by_name usize_max tasks wheel.handle "Cat" dog_cat ≡ ok (some (id_of 1), dog_cat))
    × (get_by_name usize_max tasks wheel.handle "Cow" dog_cat ≡ ok (none, dog_cat))
    × (get_name usize_max tasks wheel.handle (id_of 0) dog_cat ≡ ok (some "Dog", dog_cat))
unfolding evaluates
lookups = (refl, refl, refl)

-- When the only task is suspended, a locked wheel ends with the error.
abbrev paused : Memory Alg
paused = or_same dog (suspend usize_max tasks wheel.handle (id_of 0) dog)

abbrev polls_once : ℕ → ℕ → Act ℕ
polls_once n flags = Act.pending n

abbrev alg_of : Memory Alg → Alg
alg_of h = elim (get_elem? h 0) [ none ↦ fresh | some cell ↦ cell.alg ]

abbrev finished_of : Outcome (Option (Finished × LockedWheel Alg)) → Option Finished
finished_of (ok (some r)) = some r.0
finished_of _ = none

paused_error :
    finished_of (spin_block usize_max tasks polls_once 1 3 0 (record { alg = alg_of paused }))
    ≡ some suspend_error
unfolding evaluates
paused_error = refl

abbrev small : ℕ
small = 7

from_usize-to_usize_example :
    ((id : IdNum) × (from_usize 255 small ≡ ok id)
      × (0 < id.number)
      × (to_usize id ≡ small)
      × (small < 255))
    ⊎ ((small ≡ 255) × (from_usize 255 small ≡ panic add_overflow))
from_usize-to_usize_example = from_usize-to_usize 255 small (omega arith)

abbrev cancel_dog : Alg → Outcome (Bool × Alg)
cancel_dog = Scheduler.cancel tasks 0

unlock-lock_example :
    (h1 : Memory Alg) × (lock wheel memory ≡ ok (record { alg = fresh }, h1))
    × Relocked wheel fresh memory
        (unlock (record { alg = fresh }) h1).1
        (unlock (record { alg = fresh }) h1).0
unlock-lock_example = unlock-lock wheel fresh memory refl

abbrev dog_future : DynamicFuture ℕ
dog_future = new_future 1 0 (named "Dog")

abbrev dog_registry : ChunkSlab (DynamicFuture ℕ)
dog_registry = (alg_of dog).registry

dog_inserted : tasks.insert dog_future Slab.new ≡ ok (some 0, dog_registry)
unfolding evaluates
dog_inserted = refl

spawn-get_name_example :
    (id : IdNum) × (h' : Memory Alg) × (spawn_dyn usize_max tasks wheel.handle
        (named "Dog")
        1
        memory
      ≡ ok (some id, h'))
    × (get_name usize_max tasks wheel.handle id h' ≡ ok (some "Dog", h'))
    × (get_state usize_max tasks wheel.handle id h' ≡ ok (some (first_state (named "Dog")), h'))
spawn-get_name_example =
    spawn-get_name usize_max tasks wheel.handle (named "Dog") 1 memory
      (record { alg = fresh; strong = 1 }) 0 dog_registry refl (omega arith)
      (new-Inv (usize_key usize_max)) dog_inserted (omega arith)

abbrev dog_alg : Alg
dog_alg = record fresh { registry = dog_registry }

dog_valid : tasks.Inv dog_registry
dog_valid =
    (subst (InsertPost tasks.get tasks.capacity tasks.Inv dog_future Slab.new) dog_inserted
      (tasks.insert_lem dog_future Slab.new (new-Inv (usize_key usize_max)))).1

get_by_name-First_example : First tasks "Dog" dog_registry (Names.get_by_name tasks "Dog" dog_alg)
get_by_name-First_example = get_by_name-First tasks "Dog" dog_alg dog_valid
