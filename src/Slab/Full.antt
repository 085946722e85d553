-- ===== src/Slab/Full.antt =====
-- src/utils/chunk_slab.rs: `insert` when every key is in use.
use juggle.Prelude.{
  ℕ, ◌+◌, ◌-◌, ◌%◌, ◌<◌, ◌≤◌, ◌≡◌, refl, sym, ap, ◌∙◌, subst, inl, inr, true, Option, none, some,
  List, [], ◌∷◌, length, ◌==◌, if◌then◌else◌, arith, panic, slab_overflow, unreachable_code,
  Bool-cases,
}
use juggle.Prelude.Range.{eq_of_sum_below, sum_below-one}
use juggle.Slab.{KeyType, Entry, empty, full, ChunkSlab, cell, capacity, insert}
use juggle.Slab.Inv.{IsKeyType, Chain, weight, Inv}

module _ {T : Type 0} where
  weight-le : (o : Option (Entry T)) → weight o ≤ 1
  weight-le none = omega arith
  weight-le (some (full val)) = omega arith
  weight-le (some (empty link)) = omega arith

  -- A slab without a free entry has a value at every key below its capacity.
  pub all_full :
      (k : KeyType) (s : ChunkSlab T)
      → Inv k s
      → s.len ≡ capacity s
      → (j : ℕ) → j < capacity s
      → (val : T) × (cell s j ≡ some (full val))
  all_full k s inv same j lt = by_cell (cell s j) refl
    where
      one : weight (cell s j) ≡ 1
      one =
          eq_of_sum_below (capacity s) (λ i. weight (cell s i)) (λ i. 1) (λ i. weight-le (cell s i))
            (omega (arith, same, inv.counted, sum_below-one (capacity s))) j lt

      by_cell : (o : Option (Entry T)) → cell s j ≡ o → (val : T) × (cell s j ≡ some (full val))
      by_cell (some (full val)) e = (val, e)
      by_cell (some (empty link)) e = absurd (ground (arith, one, e))
      by_cell none e = absurd (ground (arith, one, e))

  -- With every key in use an insert panics: by the overflow test, or, for `usize` keys, which have no
  -- such test, at the entry that the wrapped free list names.
  pub insert_exhausted :
      (k : KeyType) (val : T) (s : ChunkSlab T)
      → IsKeyType k
      → Inv k s
      → s.len ≡ k.max_value + 1
      → insert k val s
        ≡ panic (if k.max_value == k.usize_max then unreachable_code else slab_overflow)
  unfolding insert
  insert_exhausted k val s v inv all = elim (Bool-cases (k.max_value == k.usize_max)) [
    | inr narrow ↦
        let top : ((s.len - 1) == k.max_value) ≡ true = ground (arith, all) in
        ground (arith, narrow, top)
    | inl wide ↦ by_free inv.free inv.chain inv.covers wide
  ]
    where
      mod_self : (n : ℕ) → n % n ≡ 0
      mod_self n = grind arith

      by_free :
          (free : List ℕ)
          → Chain (cell s) s.next free (capacity s % (k.max_value + 1))
          → s.len + length free ≡ capacity s
          → (k.max_value == k.usize_max) ≡ true
          → insert k val s
            ≡ panic (if k.max_value == k.usize_max then unreachable_code else slab_overflow)
      by_free (f ∷ fs) chain covers wide = absurd (omega (arith, all, covers, inv.bound))
      by_free [] end covers wide =
          let size : capacity s ≡ k.max_value + 1 = omega (arith, all, covers) in
          let first : s.next ≡ 0 =
            end ∙ (ap (λ n. n % (k.max_value + 1)) size ∙ mod_self (k.max_value + 1)) in
          let (old, here) = all_full k s inv (omega (arith, covers)) 0 (omega (arith, size)) in
          let at : cell s s.next ≡ some (full old) =
            subst (λ n. cell s n ≡ some (full old)) (sym first) here in
          ground (arith, wide, at, first, size)
