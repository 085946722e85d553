-- ===== src/Slab/Retain.antt =====
-- src/utils/chunk_slab.rs: `retain` against removals key by key.
use juggle.Prelude.{
  ℕ, zero, suc, ◌+◌, ◌<◌, ◌≡◌, refl, sym, ◌∙◌, subst, Bool, Option, none, some, ◌==◌, if◌then◌else◌,
  arith, Bool-cases, inl, inr, leb, ltb, ◌&&◌,
}
use juggle.Slab.{KeyType, Entry, ChunkSlab, cell, capacity, get, remove, retain}
use juggle.Slab.Cells.{lt_of_cell}
use juggle.Slab.Inv.{Inv}
use juggle.Slab.Remove.{remove-IsRemoved}
use juggle.Slab.Sweep.{drop_rejected, sweep, retain-sweep}

module _ {T : Type 0} (func : ℕ → T → Bool) where
  -- What `func` leaves of the value of a key.
  abbrev pub retained_value : ℕ → Option T → Option T
  retained_value key none = none
  retained_value key (some val) = if func key val then some val else none

  pub record IsRetained (k : KeyType) (s r : ChunkSlab T) : Type 0 where
    pub stored : (j : ℕ) → get r j ≡ retained_value j (get s j)
    pub same_capacity : capacity r ≡ capacity s
    pub kept : Inv k r

  record Dropped (k : KeyType) (key : ℕ) (s r : ChunkSlab T) : Type 0 where
    stored : (j : ℕ) → get r j ≡ (if key == j then retained_value j (get s j) else get s j)
    same_capacity : capacity r ≡ capacity s
    kept : Inv k r

  drop-Dropped :
      (k : KeyType) (key : ℕ) (s : ChunkSlab T)
      → Inv k s
      → Dropped k key s (drop_rejected func key s)
  drop-Dropped k key s inv = by_value (get s key) refl
    where
      by_value :
          (o : Option T)
          → get s key ≡ o
          → Dropped k key s
              (elim o [ none ↦ s | some val ↦ if func key val then s else (remove key s).1 ])
      by_value none q = record { stored = λ j. ground (arith, q); same_capacity = refl; kept = inv }
      by_value (some val) q = elim (Bool-cases (func key val)) [
        | inl keeps ↦
            rw keeps
              (record { stored = λ j. ground (arith, q, keeps); same_capacity = refl; kept = inv })
        | inr rejects ↦
            let did = remove-IsRemoved k key s inv in
            rw rejects (record {
              stored = λ j. ground (arith, q, rejects, did.stored j);
              same_capacity = did.same_capacity;
              kept = did.kept;
            })
      ]

  sweep-Retained :
      (k : KeyType) (n key : ℕ) (s : ChunkSlab T)
      → Inv k s
      → Inv k (sweep func n key s)
        × (capacity (sweep func n key s) ≡ capacity s)
        × ((j : ℕ)
            → get (sweep func n key s) j
              ≡ (if leb key j && ltb j (key + n) then retained_value j (get s j) else get s j))
  unfolding sweep
  sweep-Retained k zero key s inv = (inv, refl, λ j. ground arith)
  sweep-Retained k (suc n) key s inv =
      let did = drop-Dropped k key s inv in
      let (kept, same, at) = sweep-Retained k n (suc key) (drop_rejected func key s) did.kept in
      (kept, same ∙ did.same_capacity, λ j. ground (arith, at j, did.stored j))

  -- On a well-formed slab, `retain` keeps the values that `func` accepts, frees the keys of the
  -- others, changes nothing else, and leaves the slab well formed.
  pub retain-IsRetained :
      (k : KeyType) (s : ChunkSlab T) → Inv k s → IsRetained k s (retain k func s)
  retain-IsRetained k s inv =
      let (kept, same, at) = sweep-Retained k (capacity s) 0 s inv in
      subst (IsRetained k s) (sym (retain-sweep func k s inv)) (record {
        stored = λ j. at j ∙ in_range j (get s j) refl;
        same_capacity = same;
        kept = kept;
      })
    where
      in_range :
          (j : ℕ) (o : Option T)
          → get s j ≡ o
          → (if leb 0 j && ltb j (0 + capacity s) then retained_value j o else o)
            ≡ retained_value j o
      in_range j none q = ground arith
      in_range j (some val) q = ground (arith, lt_capacity j val q)
        where
          lt_capacity : (j : ℕ) (val : T) → get s j ≡ some val → j < capacity s
          lt_capacity j val q = by_cell (cell s j) refl
            where
              by_cell : (o : Option (Entry T)) → cell s j ≡ o → j < capacity s
              by_cell none h = absurd (ground (arith, h, q))
              by_cell (some entry) h = lt_of_cell s.entries j inv.sized h
