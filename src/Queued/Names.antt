-- ===== src/Queued/Names.antt =====
-- src/dy/algorithm.rs: the lookups of tasks by name, over the iteration of the registry.
use Prim.Native.String.{String}
use juggle.Prelude.{
  ℕ, zero, suc, ◌≡◌, refl, ap, ◌∙◌, true, false, Option, none, some, List, [], ◌∷◌, Bool-cases, inl,
  inr,
}
use juggle.Task.{TaskName, as_str, DynamicFuture}
use juggle.TaskRegistry.{TaskRegistry}
use juggle.Slab.Iter.{collect}
use juggle.Scheduler.Names.{is_name, has_name, name_from}
use juggle.Scheduler.Names
use juggle.Queued.{SchedulerAlgorithm}

module _ {F : Type 0} (reg : TaskRegistry (DynamicFuture F)) where
  open reg use {R, get, capacity}

  unfoldable pub name_in : String → List (ℕ × DynamicFuture F) → Option ℕ
  name_in name [] = none
  name_in name (item ∷ items) =
      let rest = name_in name items in
      elim (is_name name (as_str item.1.name)) [ true ↦ some item.0 | false ↦ rest ]

  abbrev pub with_name : {A : Type 0} → ℕ → (TaskName → A) → SchedulerAlgorithm R → A
  with_name key func q = Names.with_name reg key func q.ctrl

  module _ (iter : R → List (ℕ × DynamicFuture F)) where
    unfoldable pub get_by_name : String → SchedulerAlgorithm R → Option ℕ
    get_by_name name q = name_in name (iter q.ctrl.registry)

    name_in-collect :
        (name : String) (left key : ℕ) (r : R)
        → name_in name (collect key left (get r)) ≡ name_from reg name left key r
    unfolding name_in collect name_from
    name_in-collect name zero key r = refl
    name_in-collect name (suc left) key r =
        by_task (get r key) (name_in-collect name left (suc key) r)
      where
        by_task :
            (o : Option (DynamicFuture F))
            → name_in name (collect (suc key) left (get r)) ≡ name_from reg name left (suc key) r
            → name_in name (elim o [
              | none ↦ collect (suc key) left (get r)
              | some v ↦ (key, v) ∷ collect (suc key) left (get r)
            ])
              ≡ elim (has_name reg name o) [
                | true ↦ some key
                | false ↦ name_from reg name left (suc key) r
              ]
        by_task none same = same
        by_task (some task) same = elim (Bool-cases (is_name name (as_str task.name))) [
          | inl e ↦ rw (e, name_in) refl
          | inr e ↦ rw (e, name_in) same
        ]

    -- When the registry iterates over its tasks by their keys, a lookup by name finds the task that
    -- the scheduler of unordered_algorithm.rs finds.
    get_by_name-ctrl :
        (name : String) (q : SchedulerAlgorithm R)
        → iter q.ctrl.registry ≡ collect 0 (capacity q.ctrl.registry) (get q.ctrl.registry)
        → get_by_name name q ≡ Names.get_by_name reg name q.ctrl
    unfolding get_by_name Names.get_by_name
    get_by_name-ctrl name q whole =
        ap (name_in name) whole ∙ name_in-collect name (capacity q.ctrl.registry) 0 q.ctrl.registry
