-- ===== src/Slab/Remove.antt =====
-- src/utils/chunk_slab.rs: `remove`, and `insert` behind it.
use juggle.Prelude.{
  ℕ, ◌+◌, ◌-◌, ◌*◌, ◌<◌, ◌≡◌, refl, ap, ◌∙◌, false, Option, none, some, ◌∷◌, ◌==◌, if◌then◌else◌,
  arith, ok, to_nat, is_some,
}
use juggle.Prelude.Range.{sum_below, sum_below-change}
use juggle.Slab.{
  chunk_size, KeyType, Entry, empty, full, ChunkSlab, cell, write, capacity, is_exhausted, insert,
  get, remove,
}
use juggle.Slab.Cells.{cell-write, length-write, write-IsSized, lt_of_cell}
use juggle.Slab.Insert.{reused, reused-IsInserted, insert-reused, same-capacity}
use juggle.Slab.Inv.{IsKeyType, Absent, Chain-change, Chain-Absent, weight, Inv}

module _ {T : Type 0} where
  -- What `remove` promises: it returns the value of the key and forgets it, and nothing else changes.
  pub record IsRemoved (k : KeyType) (key : ℕ) (s : ChunkSlab T) (r : Option T × ChunkSlab T)
      : Type 0 where
    pub returned : r.0 ≡ get s key
    pub stored : (j : ℕ) → get r.1 j ≡ (if key == j then none else get s j)
    pub shrunk : r.1.len + to_nat (is_some r.0) ≡ s.len
    pub same_capacity : capacity r.1 ≡ capacity s
    pub kept : Inv k r.1

  module _ (k : KeyType) (key : ℕ) (s : ChunkSlab T) (inv : Inv k s) (val : T)
      (here : cell s key ≡ some (full val)) where
    abbrev freed : ChunkSlab T
    freed = record { entries = write s.entries key (empty s.next); len = s.len - 1; next = key }

    remove-freed : remove key s ≡ (some val, freed)
    unfolding remove
    remove-freed = rw (here, remove)

    below : key < capacity s
    below = lt_of_cell s.entries key inv.sized here

    freed-cell : (j : ℕ) → cell freed j ≡ (if key == j then some (empty s.next) else cell s j)
    freed-cell j = cell-write s.entries key j (empty s.next) inv.sized below

    freed-capacity : capacity freed ≡ capacity s
    freed-capacity = ap (λ n. n * chunk_size) (length-write s.entries key (empty s.next))

    not_free : Absent key inv.free
    not_free = Chain-Absent (cell s) key s.next inv.free _ (λ link e. cc) inv.chain

    one_less :
        (sum_below (capacity s) (λ j. weight (cell freed j)) + 1
          ≡ sum_below (capacity s) (λ j. weight (cell s j)))
    one_less =
        let old : weight (cell s key) ≡ 1 = ground (arith, here) in
        let new : weight (cell freed key) ≡ 0 = ground (arith, freed-cell key) in
        omega (
          arith,
          old,
          new,
          sum_below-change (capacity s) (λ j. weight (cell s j)) (λ j. weight (cell freed j)) key
              below (λ j lt ne. ground (arith, freed-cell j)),
        )

    freed-Inv : Inv k freed
    freed-Inv = record {
      sized = write-IsSized s.entries key (empty s.next) inv.sized;
      bound = omega (arith, freed-capacity, inv.bound);
      free = key ∷ inv.free;
      chain = rw freed-capacity (
        refl,
        s.next,
        ground (arith, freed-cell key),
        Chain-change (cell s) (cell freed) key s.next inv.free _
            (λ j ne. ground (arith, freed-cell j)) not_free inv.chain,
      );
      distinct = (not_free, inv.distinct);
      covers = omega (arith, freed-capacity, inv.covers, inv.counted, one_less);
      counted = rw freed-capacity (omega (arith, one_less, inv.counted));
    }

    freed-IsRemoved : IsRemoved k key s (some val, freed)
    freed-IsRemoved = record {
      returned = ground (arith, here);
      stored = λ j. ground (arith, freed-cell j);
      shrunk = omega (arith, one_less, inv.counted);
      same_capacity = freed-capacity;
      kept = freed-Inv;
    }

  -- Every `remove` keeps the contract: of a full entry, an empty one, and a key out of range.
  pub remove-IsRemoved :
      (k : KeyType) (key : ℕ) (s : ChunkSlab T) → Inv k s → IsRemoved k key s (remove key s)
  unfolding remove
  remove-IsRemoved k key s inv = by_cell (cell s key) refl
    where
      by_cell : (c : Option (Entry T)) → cell s key ≡ c → IsRemoved k key s (remove key s)
      by_cell (some (full val)) e = rw (e, remove) (freed-IsRemoved k key s inv val e)
      by_cell (some (empty link)) e =
          rw (e, remove)
            (record {
              returned = ground (arith, e);
              stored = λ j. ground (arith, e);
              shrunk = omega arith;
              same_capacity = refl;
              kept = inv;
            })
      by_cell none e =
          rw (e, remove)
            (record {
              returned = ground (arith, e);
              stored = λ j. ground (arith, e);
              shrunk = omega arith;
              same_capacity = refl;
              kept = inv;
            })

  -- The key that was freed last is given out next, and the entry holds the new value.
  pub insert-remove :
      (k : KeyType) (key : ℕ) (old val : T) (s : ChunkSlab T)
      → IsKeyType k
      → Inv k s
      → get s key ≡ some old
      → (s' : ChunkSlab T) × (insert k val (remove key s).1 ≡ ok (key, s'))
        × (s'.len ≡ s.len)
        × (capacity s' ≡ capacity s)
        × ((j : ℕ) → get s' j ≡ (if key == j then some val else get s j))
  unfolding freed-Inv
  insert-remove k key old val s v inv here = by_cell (cell s key) refl
    where
      by_cell :
          (c : Option (Entry T))
          → cell s key ≡ c
          → (s' : ChunkSlab T) × (insert k val (remove key s).1 ≡ ok (key, s'))
            × (s'.len ≡ s.len)
            × (capacity s' ≡ capacity s)
            × ((j : ℕ) → get s' j ≡ (if key == j then some val else get s j))
      by_cell none e = absurd (ground (arith, e))
      by_cell (some (empty link)) e = absurd (ground (arith, e))
      by_cell (some (full w)) e =
          let f = freed k key s inv w e in
          let inv' = freed-Inv k key s inv w e in
          let at : cell f key ≡ some (empty s.next) =
            ground (arith, freed-cell k key s inv w e key) in
          let once = not_free k key s inv w e in
          let done =
            reused-IsInserted k val f inv' s.next inv.free at inv'.chain.3 once inv.distinct
              inv'.covers in
          let free : is_exhausted k f ≡ false = ground (arith, v.whole, inv.bound, inv.covers) in
          let size = freed-capacity k key s inv w e in
          (
            reused k val f inv' s.next inv.free at inv'.chain.3 once inv.distinct inv'.covers,
            ap (λ r. insert k val r.1) (remove-freed k key s inv w e)
                ∙ insert-reused k val f inv' s.next inv.free at inv'.chain.3 once inv.distinct
                    inv'.covers free,
            omega (arith, one_less k key s inv w e, inv.counted),
            omega (
              arith,
              size,
              same-capacity k val f inv' s.next inv.free at inv'.chain.3 once inv.distinct
                  inv'.covers,
            ),
            λ j. ground (arith, done.stored j, freed-cell k key s inv w e j),
          )
