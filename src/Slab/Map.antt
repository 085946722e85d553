-- ===== src/Slab/Map.antt =====
-- src/utils/chunk_slab.rs: `new`, `clear`, writes through `get_mut`, and whole histories of calls.
use juggle.Prelude.{
  ℕ, ◌+◌, ◌*◌, ◌≤◌, ◌≡◌, refl, sym, ap, ◌∙◌, Option, none, some, List, [], ◌∷◌, ◌==◌, if◌then◌else◌,
  arith, Outcome, ok, ◌>>=◌,
}
use juggle.Prelude.Range.{sum_below-zero, sum_below-cong}
use mathlib.Core.Option
use juggle.Slab.{
  chunk_size, KeyType, Entry, empty, full, ChunkSlab, cell, write, capacity, new, clear, insert,
  get, remove, modify,
}
use juggle.Slab.Cells.{cell-write, length-write, write-IsSized, lt_of_cell}
use native.Mathlib.Nat.{zero-mod}
use juggle.Slab.Inv.{IsKeyType, Chain-change, Chain-Absent, Inv}
use juggle.Slab.Insert.{insert_total}
use juggle.Slab.Remove.{remove-IsRemoved}

-- A call of a history. A history makes each call on what the one before left, and the first panic
-- ends it.
pub data Call (T : Type 0) : Type 0 where
  inserts : T → Call T
  removes : ℕ → Call T
  clears : Call T

module _ {T : Type 0} where
  pub new-Inv : (k : KeyType) → Inv {T = T} k new
  new-Inv k = record {
    sized = λ i c e. cc;
    bound = omega arith;
    free = [];
    chain = sym (zero-mod _);
    distinct = tt;
    covers = refl;
    counted = sym (sum_below-zero _);
  }

  -- What a write through `get_mut` does.
  pub record IsModified (k : KeyType) (f : T → T) (key : ℕ) (s t : ChunkSlab T) : Type 0 where
    pub stored : (j : ℕ) → get t j ≡ (if key == j then Option.map f (get s key) else get s j)
    pub same_len : t.len ≡ s.len
    pub same_capacity : capacity t ≡ capacity s
    pub kept : Inv k t

  pub modify-IsModified :
      (k : KeyType) (f : T → T) (key : ℕ) (s : ChunkSlab T)
      → Inv k s
      → IsModified k f key s (modify f key s)
  modify-IsModified k f key s inv = by_cell (cell s key) refl
    where
      unchanged : get s key ≡ none → modify f key s ≡ s → IsModified k f key s (modify f key s)
      unchanged miss same = rw same (record {
        stored = λ j. ground (arith, miss);
        same_len = refl;
        same_capacity = refl;
        kept = inv;
      })

      by_full : (val : T) → cell s key ≡ some (full val) → IsModified k f key s (modify f key s)
      by_full val e =
          let t : ChunkSlab T = record s { entries = write s.entries key (full (f val)) } in
          let below = lt_of_cell s.entries key inv.sized e in
          let at = λ (j : ℕ). cell-write s.entries key j (full (f val)) inv.sized below in
          let size = ap (λ n. n * chunk_size) (length-write s.entries key (full (f val))) in
          let outside = Chain-Absent (cell s) key s.next inv.free _ (λ link h. cc) inv.chain in
          let inv' : Inv k t = record {
            sized = write-IsSized s.entries key (full (f val)) inv.sized;
            bound = omega (arith, size, inv.bound);
            free = inv.free;
            chain = rw size (
                Chain-change (cell s) (cell t) key s.next inv.free _ (λ j ne. ground (arith, at j))
                  outside inv.chain);
            distinct = inv.distinct;
            covers = omega (arith, size, inv.covers);
            counted =
                rw size
                  (inv.counted ∙ sum_below-cong (capacity s) _ _ (λ j lt. ground (arith, at j, e)));
          } in
          let same : modify f key s ≡ t = ground (arith, e) in
          rw same (record {
            stored = λ j. ground (arith, at j, e);
            same_len = refl;
            same_capacity = size;
            kept = inv';
          })

      by_cell : (c : Option (Entry T)) → cell s key ≡ c → IsModified k f key s (modify f key s)
      by_cell (some (full val)) e = by_full val e
      by_cell (some (empty link)) e = unchanged (ground (arith, e)) (ground (arith, e))
      by_cell none e = unchanged (ground (arith, e)) (ground (arith, e))

  unfoldable pub step : KeyType → Call T → ChunkSlab T → Outcome (ChunkSlab T)
  step k (inserts val) s = insert k val s >>= λ r. ok r.1
  step k (removes key) s = ok (remove key s).1
  step k clears s = ok (clear s)

  unfoldable pub run : KeyType → List (Call T) → ChunkSlab T → Outcome (ChunkSlab T)
  unfolding step
  run k [] s = ok s
  run k (c ∷ cs) s = step k c s >>= λ t. run k cs t

  -- The inserts of a history.
  abbrev pub grows : Call T → ℕ
  grows (inserts val) = 1
  grows _ = 0

  abbrev pub insert_count : List (Call T) → ℕ
  insert_count [] = 0
  insert_count (c ∷ cs) = grows c + insert_count cs

  step_total :
      (k : KeyType) (c : Call T) (s : ChunkSlab T)
      → IsKeyType k
      → Inv k s
      → s.len + grows c ≤ k.max_value + 1
      → (t : ChunkSlab T) × (step k c s ≡ ok t) × Inv k t × (t.len ≤ s.len + grows c)
  unfolding step
  step_total k (inserts val) s v inv room =
      let (key, t, e, did) = insert_total k val s v inv (omega arith) in
      (t, ap (λ r. r >>= λ p. ok p.1) e, did.kept, omega (arith, did.grown))
  step_total k (removes key) s v inv room =
      let did = remove-IsRemoved k key s inv in
      ((remove key s).1, refl, did.kept, omega (arith, did.shrunk))
  step_total k clears s v inv room = (clear s, refl, new-Inv k, omega arith)

  -- From a well-formed slab, a history of inserts, removals and clears with no more inserts than there
  -- are free keys runs without a panic and ends in a well-formed slab, which has no more values than
  -- the first slab had and the history inserted.
  pub run_total :
      (k : KeyType) (cs : List (Call T)) (s : ChunkSlab T)
      → IsKeyType k
      → Inv k s
      → s.len + insert_count cs ≤ k.max_value + 1
      → (t : ChunkSlab T) × (run k cs s ≡ ok t) × Inv k t × (t.len ≤ s.len + insert_count cs)
  unfolding run
  run_total k [] s v inv room = (s, refl, inv, omega arith)
  run_total k (c ∷ cs) s v inv room =
      let (t, e, inv', len) = step_total k c s v inv (omega arith) in
      let (u, e', inv'', len') = run_total k cs t v inv' (omega arith) in
      (u, ap (λ r. r >>= λ p. run k cs p) e ∙ e', inv'', omega arith)
