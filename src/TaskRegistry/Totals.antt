-- ===== src/TaskRegistry/Totals.antt =====
-- Sums over the tasks of a registry, and how each operation changes them.
use juggle.Prelude.{
  ℕ, ◌+◌, ◌-◌, ◌≤◌, ◌≡◌, ◌≢◌, refl, ap, ◌∙◌, Option, none, some, ◌==◌, if◌then◌else◌, arith, inl,
  inr, Option-cases,
}
use juggle.Prelude.Range.{sum_below, sum_below-change, sum_below-grow}
use mathlib.Core.Option
use juggle.TaskRegistry.{TaskRegistry, IsInserted}

module _ {T : Type 0} (reg : TaskRegistry T) (w : Option T → ℕ) where
  open reg use {R, get, capacity, remove, modify, Inv}

  pub total : R → ℕ
  total r = sum_below (capacity r) (λ k. w (get r k))

  pub total_lem : (r : R) → total r ≡ sum_below (capacity r) (λ k. w (get r k))
  unfolding total
  total_lem r = refl

  module _ (zero_weight : w none ≡ 0) where
    pub total-modify :
        (f : T → T) (key : ℕ) (r : R) (task : T)
        → Inv r
        → get r key ≡ some task
        → total (modify f key r) + w (some task) ≡ total r + w (some (f task))
    unfolding total
    total-modify f key r task inv e = rw (reg.capacity-modify f key r inv) (
        omega (
          arith,
          ap w e,
          ap w (reg.get-modify f key r key inv ∙ modified),
          sum_below-change (capacity r) (λ k. w (get r k)) (λ k. w (get (modify f key r) k)) key
              (reg.lt_of_get r key inv e)
              (λ j lt ne. ap w (reg.get-modify f key r j inv ∙ other j ne)),
        ))
      where
        modified : (if key == key then Option.map f (get r key) else get r key) ≡ some (f task)
        modified = ground (arith, e)

        other :
            (j : ℕ) → j ≢ key → (if key == j then Option.map f (get r key) else get r j) ≡ get r j
        other j ne = ground arith

    pub total-remove :
        (key : ℕ) (r : R) (task : T)
        → Inv r
        → get r key ≡ some task
        → total (remove key r).1 + w (some task) ≡ total r
    unfolding total
    total-remove key r task inv e = rw (reg.capacity-remove key r inv) (
        omega (
          arith,
          zero_weight,
          ap w e,
          ap w (reg.get-remove key r key inv ∙ removed),
          sum_below-change (capacity r) (λ k. w (get r k)) (λ k. w (get (remove key r).1 k)) key
              (reg.lt_of_get r key inv e)
              (λ j lt ne. ap w (reg.get-remove key r j inv ∙ other j ne)),
        ))
      where
        removed : (if key == key then none else get r key) ≡ none
        removed = ground arith

        other : (j : ℕ) → j ≢ key → (if key == j then none else get r j) ≡ get r j
        other j ne = ground arith

    pub total-insert :
        (task : T) (r : R) (key : ℕ) (r' : R)
        → Inv r
        → Inv r'
        → IsInserted get capacity task r key r'
        → total r' ≡ total r + w (some task)
    unfolding total
    total-insert task r key r' inv inv' did =
        let here : get r' key ≡ some task = did.stored key ∙ at_key in
        let grows : capacity r' ≡ capacity r + (capacity r' - capacity r) =
          omega (arith, did.extends) in
        let wide : sum_below (capacity r') (λ k. w (get r k))
            ≡ sum_below (capacity r) (λ k. w (get r k)) =
          rw grows (
            sum_below-grow (capacity r) (capacity r' - capacity r) (λ k. w (get r k))
              (λ j le. ap w (beyond j le) ∙ zero_weight)) in
        omega (
          arith,
          wide,
          zero_weight,
          ap w here,
          ap w did.fresh,
          sum_below-change (capacity r') (λ k. w (get r k)) (λ k. w (get r' k)) key
              (reg.lt_of_get r' key inv' here) (λ j lt ne. ap w (did.stored j ∙ other j ne)),
        )
      where
        at_key : (if key == key then some task else get r key) ≡ some task
        at_key = ground arith

        other : (j : ℕ) → j ≢ key → (if key == j then some task else get r j) ≡ get r j
        other j ne = ground arith

        beyond : (j : ℕ) → capacity r ≤ j → get r j ≡ none
        beyond j le = elim (Option-cases (get r j)) [
          | inl e ↦ e
          | inr (t, e) ↦ absurd (omega (arith, reg.lt_of_get r j inv e))
        ]
