-- ===== src/Prelude/Panics.antt =====
-- Results of code that may panic. Each constructor of `Panic` is one panic of the source.
use mathlib.Core.Path.{◌≡◌, refl}

pub data Panic : Type 0 where
  slab_overflow : Panic  -- "ChunkSlab size overflow."
  unreachable_code : Panic  -- unreachable!()
  out_of_bounds : Panic  -- an index out of the bounds of a vector
  task_not_found : Panic  -- "Internal Error: task not found."
  recursive_poll : Panic  -- "Recursive call to DynamicFuture::poll_local is not allowed."
  unknown_key : Panic  -- "Error: unknown key passed to TimingGroup::…"
  zero_slots : Panic  -- "Time slot count is zero."
  add_overflow : Panic  -- "attempt to add with overflow"
  multiply_overflow : Panic  -- "attempt to multiply with overflow"
  unknown_task : Panic  -- "Internal Error: unknown task in queue."
  unwrap_none : Panic  -- "called `Option::unwrap()` on a `None` value"
  unwrap_suspended : Panic  -- a SuspendError unwrapped
  lock_in_call : Panic  -- "Cannot lock inside call to handle's method."
  tasks_finished : Panic  -- "…::spin_block_forever(): Didn't expect all tasks to finish."
  borrow_in_retain : Panic  -- "Registry: Cannot borrow task during retain operation."
  iterate_in_retain : Panic  -- "Registry: Cannot iterate during retain operation."
  insert_in_retain : Panic  -- "Registry: Cannot insert task during retain operation."
  insert_in_iteration : Panic  -- "Registry: Cannot insert task during iteration."
  remove_in_retain : Panic  -- "Registry: Cannot remove task during retain operation."
  remove_borrowed : Panic  -- "Registry: Cannot remove task that might be borrowed."
  retain_borrowed : Panic  -- "Registry: Cannot remove tasks that might be borrowed."
  invalid_handle : Panic  -- "Handle is invalid."
  index_out_of_bounds : Panic  -- "Error: Index out of bounds."
  dangling_pointer : Panic  -- not a panic: the use of an allocation after it was freed
  subtract_overflow : Panic  -- "attempt to subtract with overflow"

pub data Outcome {ℓ} (A : Type ℓ) : Type ℓ where
  ok : A → Outcome A
  panic : Panic → Outcome A

infixl 5 ◌>>=◌
abbrev pub ◌>>=◌ {ℓ κ} : {A : Type ℓ} {B : Type κ} → Outcome A → (A → Outcome B) → Outcome B
ok a >>= f = f a
panic p >>= f = panic p

-- Inversion of a successful bind.
pub >>=-eq_ok {ℓ κ} :
    {A : Type ℓ} {B : Type κ} (m : Outcome A) (f : A → Outcome B) {b : B}
    → (m >>= f) ≡ ok b
    → (a : A) × (m ≡ ok a) × (f a ≡ ok b)
>>=-eq_ok (ok a) f h = (a, refl, h)
>>=-eq_ok (panic p) f h = cc

pub ok-injective : {A : Type 0} {a b : A} → ok a ≡ ok b → a ≡ b
ok-injective e = cc
