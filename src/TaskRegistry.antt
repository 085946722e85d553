-- ===== src/TaskRegistry.antt =====
-- src/dy/stat.rs: the interface `TaskRegistry`, with the laws that the scheduler relies on.
pub mod Totals
use juggle.Prelude.{
  ℕ, ◌<◌, ◌≤◌, ◌≡◌, ◌≢◌, Bool, Option, none, some, ◌==◌, if◌then◌else◌, Outcome, ok, panic, Panic,
  task_not_found, recursive_poll, subtract_overflow,
}
use juggle.Prelude.Range.{sum_below}
use mathlib.Core.Option

abbrev pub present {ℓ} : {T : Type ℓ} → Option T → ℕ
present none = 0
present (some _) = 1

-- A panic of the registry itself, none of those that the scheduler's own checks raise.
abbrev pub IsRegistryPanic : Panic → Type 0
IsRegistryPanic p = (p ≢ task_not_found) × (p ≢ recursive_poll) × (p ≢ subtract_overflow)

-- `key` was free, holds `task` now, and nothing else changed.
pub record IsInserted {T R : Type 0} (get : R → ℕ → Option T) (capacity : R → ℕ) (task : T) (r : R)
    (key : ℕ) (r' : R) : Type 0 where
  pub fresh : get r key ≡ none
  pub stored : (j : ℕ) → get r' j ≡ (if key == j then some task else get r j)
  pub extends : capacity r ≤ capacity r'

-- What an insert may come to.
abbrev pub InsertPost :
    {T R : Type 0}
    → (R → ℕ → Option T)
    → (R → ℕ)
    → (R → Type 0)
    → T
    → R
    → Outcome (Option ℕ × R)
    → Type 0
InsertPost get capacity Inv task r (panic p) = IsRegistryPanic p
InsertPost get capacity Inv task r (ok (none, r')) = r' ≡ r
InsertPost get capacity Inv task r (ok (some key, r')) =
    IsInserted get capacity task r key r' × Inv r'

-- `modify` is a write to a task's cells through a borrowed reference.
pub record TaskRegistry (T : Type 0) : Type 1 where
  pub R : Type 0
  pub get : R → ℕ → Option T
  pub insert : T → R → Outcome (Option ℕ × R)
  pub remove : ℕ → R → Option (Unit {0}) × R
  pub count : R → ℕ
  pub capacity : R → ℕ
  pub modify : (T → T) → ℕ → R → R
  pub Inv : R → Type 0
  pub insert_lem : (task : T) (r : R) → Inv r → InsertPost get capacity Inv task r (insert task r)
  pub remove-present : (key : ℕ) (r : R) → Inv r → present (remove key r).0 ≡ present (get r key)
  pub get-remove :
      (key : ℕ) (r : R) (j : ℕ)
      → Inv r
      → get (remove key r).1 j ≡ (if key == j then none else get r j)
  pub capacity-remove : (key : ℕ) (r : R) → Inv r → capacity (remove key r).1 ≡ capacity r
  pub remove-Inv : (key : ℕ) (r : R) → Inv r → Inv (remove key r).1
  pub get-modify :
      (f : T → T) (key : ℕ) (r : R) (j : ℕ)
      → Inv r
      → get (modify f key r) j ≡ (if key == j then Option.map f (get r key) else get r j)
  pub capacity-modify :
      (f : T → T) (key : ℕ) (r : R) → Inv r → capacity (modify f key r) ≡ capacity r
  pub modify-Inv : (f : T → T) (key : ℕ) (r : R) → Inv r → Inv (modify f key r)
  pub lt_of_get : (r : R) (key : ℕ) {task : T} → Inv r → get r key ≡ some task → key < capacity r
  pub count_lem : (r : R) → Inv r → count r ≡ sum_below (capacity r) (λ k. present (get r k))
