-- ===== src/Scheduler/Names.antt =====
-- src/dy/unordered_algorithm.rs: the lookups of tasks by name.
use Prim.Native.String.{String}
use text.Mathlib.Text.{◌==◌}
use text.Mathlib.TextEquality.{eq_iff}
use juggle.Prelude.{
  ℕ, zero, suc, ◌+◌, ◌<◌, ◌≤◌, ◌≡◌, refl, sym, ap, ◌∙◌, ◌↔◌, subst, ℕ_discrete, Bool, true, false,
  Option, none, some, arith,
}
use juggle.Task.{TaskName, as_str, DynamicFuture}
use juggle.TaskRegistry.{TaskRegistry}
use juggle.Scheduler.{Sched}

-- `Some(n) if n == name`.
abbrev pub is_name : String → Option String → Bool
is_name name none = false
is_name name (some n) = n == name

module _ {F : Type 0} (reg : TaskRegistry (DynamicFuture F)) where
  open reg use {R, get, capacity}

  abbrev pub has_name : String → Option (DynamicFuture F) → Bool
  has_name name none = false
  has_name name (some task) = is_name name (as_str task.name)

  -- The loop over the keys from `key` on, of which there are `left`.
  unfoldable pub name_from : String → ℕ → ℕ → R → Option ℕ
  name_from name zero key r = none
  name_from name (suc left) key r =
      let rest = name_from name left (suc key) r in
      elim (has_name name (get r key)) [ true ↦ some key | false ↦ rest ]

  unfoldable pub get_by_name : String → Sched R → Option ℕ
  get_by_name name s = name_from name (capacity s.registry) 0 s.registry

  abbrev pub with_name : {A : Type 0} → ℕ → (TaskName → A) → Sched R → A
  with_name key func s = elim (get s.registry key) [
    | none ↦ func TaskName.none
    | some task ↦ func task.name
  ]

  abbrev pub Named : String → R → ℕ → Type 0
  Named name r key =
      (task : DynamicFuture F) × (get r key ≡ some task) × (as_str task.name ≡ some name)

  -- The least key at or above `low` and below `high` of a task with the name, if there is one.
  abbrev pub FirstNamed : String → R → ℕ → ℕ → Option ℕ → Type 0
  FirstNamed name r low high none = (j : ℕ) → low ≤ j → j < high → ¬ Named name r j
  FirstNamed name r low high (some key) =
      (low ≤ key) × Named name r key × ((j : ℕ) → low ≤ j → j < key → ¬ Named name r j)

  is_name_iff : (name : String) (o : Option String) → (is_name name o ≡ true) ↔ (o ≡ some name)
  is_name_iff name none = ((λ e. absurd (cc e)), (λ e. absurd (cc e)))
  is_name_iff name (some n) =
      ((λ e. ap some ((eq_iff n name).0 e)), (λ e. (eq_iff n name).1 (same e)))
    where
      same : some n ≡ some name → n ≡ name
      same e = cc

  has_name_iff :
      (name : String) (r : R) (key : ℕ) → (has_name name (get r key) ≡ true) ↔ Named name r key
  has_name_iff name r key = by_task (get r key) refl
    where
      by_task :
          (o : Option (DynamicFuture F))
          → get r key ≡ o
          → (has_name name o ≡ true) ↔ Named name r key
      by_task none q = ((λ e. absurd (cc e)), (λ h. absurd (cc (q, h.1))))
      by_task (some task) q = (
        (λ e. (task, q, (is_name_iff name (as_str task.name)).0 e)),
        (λ h.
            (is_name_iff name (as_str task.name)).1
              (ap (λ t. as_str t.name) (same h.0 (sym q ∙ h.1)) ∙ h.2)),
      )
        where
          same : (u : DynamicFuture F) → some task ≡ some u → task ≡ u
          same u e = cc

  name_from-FirstNamed :
      (name : String) (r : R) (left key : ℕ)
      → FirstNamed name r key (key + left) (name_from name left key r)
  unfolding name_from
  name_from-FirstNamed name r zero key = λ j le lt h. omega arith
  name_from-FirstNamed name r (suc left) key =
      by_test (has_name name (get r key)) refl (name_from-FirstNamed name r left (suc key))
    where
      is_other : (has_name name (get r key) ≡ false) → ¬ Named name r key
      is_other e h = cc (e, (has_name_iff name r key).1 h)

      beside :
          (has_name name (get r key) ≡ false)
          → (j : ℕ) → key ≤ j
          → (suc key ≤ j → ¬ Named name r j)
          → ¬ Named name r j
      beside e j le above = elim (ℕ_discrete key j) [
        | yes same ↦ subst (λ i. ¬ Named name r i) same (is_other e)
        | no ne ↦ above (omega (arith, ne))
      ]

      later :
          (has_name name (get r key) ≡ false)
          → (o : Option ℕ) → FirstNamed name r (suc key) (suc key + left) o
          → FirstNamed name r key (key + suc left) o
      later e none h = λ j le lt. beside e j le (λ above. h j above (omega arith))
      later e (some k) h =
          (omega (arith, h.0), h.1, λ j le lt. beside e j le (λ above. h.2 j above lt))

      by_test :
          (b : Bool)
          → has_name name (get r key) ≡ b
          → FirstNamed name r (suc key) (suc key + left) (name_from name left (suc key) r)
          → FirstNamed name r key
              (key + suc left)
              (elim b [ true ↦ some key | false ↦ name_from name left (suc key) r ])
      by_test true e rest = (omega arith, (has_name_iff name r key).0 e, λ j le lt h. omega arith)
      by_test false e rest = later e (name_from name left (suc key) r) rest

  abbrev pub First : String → R → Option ℕ → Type 0
  First name r none = (key : ℕ) → ¬ Named name r key
  First name r (some key) = Named name r key × ((j : ℕ) → j < key → ¬ Named name r j)

  -- In a valid registry, a lookup by name gives the least key of a task with that name, and nothing
  -- only when no task has it.
  pub get_by_name-First :
      (name : String) (s : Sched R)
      → reg.Inv s.registry
      → First name s.registry (get_by_name name s)
  unfolding get_by_name
  get_by_name-First name s inv =
      whole (name_from name (capacity s.registry) 0 s.registry)
        (name_from-FirstNamed name s.registry (capacity s.registry) 0)
    where
      whole :
          (o : Option ℕ)
          → FirstNamed name s.registry 0 (0 + capacity s.registry) o
          → First name s.registry o
      whole none h =
          λ key at. h key (omega arith) (omega (arith, reg.lt_of_get s.registry key inv at.1)) at
      whole (some key) h = (h.1, λ j lt. h.2 j (omega arith) lt)
