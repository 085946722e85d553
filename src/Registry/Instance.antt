-- ===== src/Registry/Instance.antt =====
-- src/dy/registry.rs: `impl TaskRegistry for Registry`. The slab meets the scheduler's interface.
use juggle.Prelude.{
  ℕ, ◌+◌, ◌%◌, ◌<◌, ◌≡◌, refl, ap, ◌∙◌, Option, none, some, ◌==◌, if◌then◌else◌, arith, dec_lt,
}
use mathlib.Core.Option
use juggle.Prelude.Range.{sum_below-cong}
use juggle.TaskRegistry.{TaskRegistry, InsertPost, present}
use juggle.Slab.{chunk_size, Entry, full, empty, ChunkSlab, capacity, get, cell, value, modify}
use juggle.Slab.Inv.{Inv, IsKeyType, weight}
use juggle.Slab.Cells.{lt_of_cell}
use juggle.Slab.Insert.{insert_total}
use juggle.Slab.Remove.{remove-IsRemoved}
use juggle.Slab.Full.{insert_exhausted}
use juggle.Slab.Map.{modify-IsModified}
use juggle.Registry.{usize_key, insert, remove}

module _ (T : Type 0) (m : ℕ) (whole : (m + 1) % chunk_size ≡ 0) where
  key_type : IsKeyType (usize_key m)
  key_type = record { whole = whole; fits = omega arith }

  pub insert_Post :
      (task : T) (r : ChunkSlab T)
      → Inv (usize_key m) r
      → InsertPost get capacity (Inv (usize_key m)) task r (insert m task r)
  unfolding insert
  insert_Post task r inv = elim (dec_lt r.len (m + 1)) [
    | yes room ↦
        let (key, r', e, did) = insert_total (usize_key m) task r key_type inv (omega arith) in
        rw e (record { fresh = did.fresh; stored = did.stored; extends = did.extends }, did.kept)
    | no out ↦
        rw
          (insert_exhausted (usize_key m) task r key_type inv
            (omega (arith, inv.covers, inv.bound)))
          (ground arith, ground arith, ground arith)
  ]

  pub lt_capacity :
      (r : ChunkSlab T) (key : ℕ) {task : T}
      → Inv (usize_key m) r
      → get r key ≡ some task
      → key < capacity r
  lt_capacity r key inv e = by_cell (cell r key) refl
    where
      by_cell : (o : Option (Entry T)) → cell r key ≡ o → key < capacity r
      by_cell none h = absurd (ground (arith, h, e))
      by_cell (some entry) h = lt_of_cell r.entries key inv.sized h

  pub present-value : (o : Option (Entry T)) → weight o ≡ present (value o)
  present-value none = refl
  present-value (some (full val)) = refl
  present-value (some (empty link)) = refl

  pub removed-present :
      (key : ℕ) (r : ChunkSlab T)
      → Inv (usize_key m) r
      → present (remove key r).0 ≡ present (get r key)
  unfolding remove
  removed-present key r inv =
      ap present (ap (Option.map (λ val. tt)) (remove-IsRemoved (usize_key m) key r inv).returned)
      ∙ map-present (get r key)
    where
      map-present : (o : Option T) → present (Option.map (λ val. tt {0}) o) ≡ present o
      map-present none = refl
      map-present (some val) = refl

  pub removed : (key : ℕ) (r : ChunkSlab T) → Inv (usize_key m) r → record {
    others : (j : ℕ) → get (remove key r).1 j ≡ (if key == j then none else get r j);
    size : capacity (remove key r).1 ≡ capacity r;
    kept : Inv (usize_key m) (remove key r).1;
  }
  unfolding remove
  removed key r inv =
      let did = remove-IsRemoved (usize_key m) key r inv in
      record { others = did.stored; size = did.same_capacity; kept = did.kept }

  abbrev pub slab_registry : TaskRegistry T
  slab_registry = record {
    R = ChunkSlab T;
    get = get;
    insert = insert m;
    remove = remove;
    count = λ r. r.len;
    capacity = capacity;
    modify = modify;
    Inv = Inv (usize_key m);
    insert_lem = insert_Post;
    remove-present = removed-present;
    get-remove = λ key r j inv. (removed key r inv).others j;
    capacity-remove = λ key r inv. (removed key r inv).size;
    remove-Inv = λ key r inv. (removed key r inv).kept;
    get-modify = λ f key r j inv. (modify-IsModified (usize_key m) f key r inv).stored j;
    capacity-modify = λ f key r inv. (modify-IsModified (usize_key m) f key r inv).same_capacity;
    modify-Inv = λ f key r inv. (modify-IsModified (usize_key m) f key r inv).kept;
    lt_of_get = λ r key inv e. lt_capacity r key inv e;
    count_lem =
        λ r inv. inv.counted ∙ sum_below-cong (capacity r) _ _ (λ j lt. present-value (cell r j));
  }
