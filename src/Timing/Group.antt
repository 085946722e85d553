-- ===== src/Timing/Group.antt =====
-- src/utils/timing.rs: well-formed groups, and what the operations do to them.
use juggle.Prelude.{ℕ, ◌<◌, ◌≤◌, ◌≡◌, refl, Option, none, some, arith}
use juggle.Slab.{chunk_size, Entry, full, empty, ChunkSlab, capacity, cell, value}
use juggle.Slab
use juggle.Slab.Inv.{IsKeyType}
use juggle.Slab.Inv
use juggle.Slab.Cells.{lt_of_cell}
use juggle.Slab.Iter.{iter-collect}
use juggle.Registry.{usize_key}
use juggle.Timing.{TimeEntry, TimingGroup, share, entries, differs, min_share}
use juggle.Timing.Shares.{Differs, MinShare, differs-Differs, min_share-MinShare}

-- The slab is well formed, and `max` is no less than any share.
pub record IsGroup (m : ℕ) (g : TimingGroup) : Type 0 where
  pub slots : Inv.Inv (usize_key m) g.info
  pub below : (key : ℕ) (e : TimeEntry) → Slab.get g.info key ≡ some e → share e ≤ g.max
  pub positive : (key : ℕ) (e : TimeEntry) → Slab.get g.info key ≡ some e → 0 < e.proportion

module _ (m : ℕ) (g : TimingGroup) (slots : Inv.Inv (usize_key m) g.info) where
  -- The entries that the loops go through are those that are found at a key.
  pub lt_capacity : (key : ℕ) (e : TimeEntry) → Slab.get g.info key ≡ some e → key < capacity g.info
  lt_capacity key e at = by_cell (cell g.info key) refl
    where
      by_cell : (o : Option (Entry TimeEntry)) → cell g.info key ≡ o → key < capacity g.info
      by_cell none h = absurd (ground (arith, h, at))
      by_cell (some entry) h = lt_of_cell g.info.entries key slots.sized h

  pub differs-entries :
      (dur : ℕ) → Differs (Slab.get g.info) dur 0 (capacity g.info) (differs dur (entries m g))
  differs-entries dur =
      rw (iter-collect (usize_key m) g.info slots)
        (differs-Differs (Slab.get g.info) dur 0 (capacity g.info))

  pub min_share-entries : MinShare (Slab.get g.info) 0 (capacity g.info) (min_share (entries m g))
  min_share-entries =
      rw (iter-collect (usize_key m) g.info slots)
        (min_share-MinShare (Slab.get g.info) 0 (capacity g.info))
