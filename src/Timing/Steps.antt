-- ===== src/Timing/Steps.antt =====
-- src/utils/timing.rs: `insert`, `remove` and `update_duration` on well-formed groups.
use juggle.Prelude.{
  ℕ, ◌+◌, ◌/◌, ◌%◌, ◌<◌, ◌≤◌, ◌≡◌, refl, sym, ◌∙◌, false, Option, none, some, ◌==◌, if◌then◌else◌,
  arith, ok, panic, unwrap_none,
}
use juggle.Slab.{chunk_size, capacity}
use juggle.Slab
use juggle.Slab.Insert.{insert_total}
use juggle.Slab.Remove.{remove-IsRemoved}
use juggle.Slab.Map.{modify-IsModified, new-Inv}
use juggle.Registry.{usize_key}
use juggle.Timing.{
  TimeEntry, TimingGroup, new, share, entries, min_share, raise, add, insert, remove, update_entry,
  update_duration,
}
use juggle.Timing.Shares.{MinShare}
use juggle.Timing.Group.{IsGroup, lt_capacity, min_share-entries}
use juggle.Timing.Fair.{At}

pub new-IsGroup : (m : ℕ) → IsGroup m new
new-IsGroup m = record {
  slots = new-Inv (usize_key m);
  below = λ k e at. cc;
  positive = λ k e at. cc;
}

module _ (m : ℕ) where
  -- A new entry, which has used no time.
  abbrev pub fresh_entry : ℕ → TimeEntry
  fresh_entry slots = record { sum = 0; proportion = slots }

  pub record Inserted (slots : ℕ) (g : TimingGroup) (key : ℕ) (g' : TimingGroup) : Type 0 where
    pub absent : Slab.get g.info key ≡ none
    pub stored :
        (j : ℕ)
        → Slab.get g'.info j ≡ (if key == j then some (fresh_entry slots) else Slab.get g.info j)
    pub grown : g'.info.len ≡ g.info.len + 1
    pub kept : IsGroup m g'

  -- An entry with slots joins a well-formed group with a free key.
  pub insert-Inserted :
      (slots : ℕ) (g : TimingGroup)
      → (m + 1) % chunk_size ≡ 0
      → 0 < slots
      → IsGroup m g
      → g.info.len ≤ m
      → (key : ℕ) × (g' : TimingGroup) × (insert m slots g ≡ ok (key, g')) × Inserted slots g key g'
  unfolding insert
  insert-Inserted slots g whole pos valid room =
      let (key, r, e, did) =
        insert_total (usize_key m) (fresh_entry slots) g.info
          (record { whole = whole; fits = omega arith }) valid.slots room in
      let some_slots : (slots == 0) ≡ false = ground arith in
      (
        key,
        record g { info = r },
        rw (some_slots, e),
        record {
          absent = did.fresh;
          stored = did.stored;
          grown = did.grown;
          kept = record {
            slots = did.kept;
            below = λ j v at. ground (arith, did.stored j, at, valid.below j v, zero-share slots);
            positive = λ j v at. ground (arith, did.stored j, at, valid.positive j v);
          };
        },
      )
    where
      zero-share : (n : ℕ) → 0 / n ≡ 0
      zero-share n = grind arith

  pub record Removed (key : ℕ) (g g' : TimingGroup) : Type 0 where
    pub stored : (j : ℕ) → Slab.get g'.info j ≡ (if key == j then none else Slab.get g.info j)
    pub shrunk : g'.info.len + 1 ≡ g.info.len
    pub kept : IsGroup m g'

  -- An entry of a well-formed group leaves it.
  pub remove-Removed :
      (key : ℕ) (e : TimeEntry) (g : TimingGroup)
      → IsGroup m g
      → At g key e
      → (g' : TimingGroup) × (remove m key g ≡ ok g') × Removed key g g'
  unfolding remove
  remove-Removed key e g valid at =
      let did = remove-IsRemoved (usize_key m) key g.info valid.slots in
      let back : (Slab.remove key g.info).0 ≡ some e = did.returned ∙ at in
      (
        record g { info = (Slab.remove key g.info).1 },
        rw back,
        record {
          stored = did.stored;
          shrunk = ground (arith, did.shrunk, back);
          kept = record {
            slots = did.kept;
            below = λ j v at'. ground (arith, did.stored j, at', valid.below j v);
            positive = λ j v at'. ground (arith, did.stored j, at', valid.positive j v);
          };
        },
      )

  -- The entry at `key` after it has run for `dur`.
  pub record Updated (key dur : ℕ) (e : TimeEntry) (g g' : TimingGroup) : Type 0 where
    pub stored :
        (j : ℕ)
        → Slab.get g'.info j
          ≡ (if key == j then some (record e { sum = e.sum + dur }) else Slab.get g.info j)
    pub same_len : g'.info.len ≡ g.info.len
    pub greatest : g'.max ≡ raise g.max ((e.sum + dur) / e.proportion)
    pub kept : IsGroup m g'

  -- The `unwrap` at the end of `update_duration`.
  unwrapped :
      (o : Option ℕ) (g : TimingGroup) (t : ℕ)
      → o ≡ some t
      → (elim o [ none ↦ panic unwrap_none | some min_time ↦ ok g ]) ≡ ok g
  unwrapped none g t q = cc
  unwrapped (some u) g t q = refl

  -- A duration that does not overflow the sum of an entry of a well-formed group is added to that
  -- entry alone, the greatest share is raised to the entry's share, and the group stays well formed.
  pub update_duration-Updated :
      (top key dur : ℕ) (e : TimeEntry) (g : TimingGroup)
      → IsGroup m g
      → At g key e
      → e.sum + dur ≤ top
      → (g' : TimingGroup) × (update_duration m top key dur g ≡ ok g') × Updated key dur e g g'
  unfolding update_duration update_entry
  update_duration-Updated top key dur e g valid at fits =
      let (t, q) = least in
      (
        g',
        rw (at, update_duration) (rw fine (unwrapped (min_share (entries m g')) g' t q)),
        record { stored = stored; same_len = did.same_len; greatest = refl; kept = kept },
      )
    where
      this : TimeEntry
      this = record e { sum = e.sum + dur }

      g' : TimingGroup
      g' = record { info = Slab.modify (λ entry. this) key g.info; max = raise g.max (share this) }

      did : Slab.Map.IsModified (usize_key m) (λ entry. this) key g.info g'.info
      did = modify-IsModified (usize_key m) (λ entry. this) key g.info valid.slots

      fine : add top e.sum dur ≡ ok (e.sum + dur)
      fine = ground arith

      stored : (j : ℕ) → Slab.get g'.info j ≡ (if key == j then some this else Slab.get g.info j)
      stored j = did.stored j ∙ ground (arith, at)

      kept : IsGroup m g'
      kept = record {
        slots = did.kept;
        below = λ j v at'. ground (arith, stored j, at', valid.below j v);
        positive =
            λ j v at'. ground (arith, stored j, at', valid.positive j v, valid.positive key e at);
      }

      least : (t : ℕ) × (min_share (entries m g') ≡ some t)
      least = by_share (min_share (entries m g')) refl (min_share-entries m g' kept.slots)
        where
          here : At g' key this
          here = stored key ∙ ground arith

          by_share :
              (o : Option ℕ)
              → min_share (entries m g') ≡ o
              → MinShare (Slab.get g'.info) 0 (capacity g'.info) o
              → (t : ℕ) × (min_share (entries m g') ≡ some t)
          by_share none q gone = absurd (
              cc (
                sym here
                ∙ gone key (omega arith)
                    (omega (arith, lt_capacity m g' kept.slots key this here))))
          by_share (some t) q h = (t, q)
