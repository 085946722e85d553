-- ===== src/Timing.antt =====
-- src/utils/timing.rs: a group of entries that share time in proportion to their slots. The time is a
-- count in an unsigned integer type whose greatest value is `top`; a sum or product above it panics,
-- as in a debug build. `m` is the greatest usize, for the keys of the slab.
pub mod Shares
pub mod Group
pub mod Fair
pub mod Steps
use juggle.Prelude.{
  ℕ, ◌+◌, ◌*◌, ◌/◌, Bool, true, false, not, ◌&&◌, ◌||◌, Option, none, some, List, [], ◌∷◌, ltb, leb,
  ◌==◌, if◌then◌else◌, is_some, Outcome, ok, panic, ◌>>=◌, unknown_key, zero_slots, add_overflow,
  multiply_overflow, unwrap_none,
}
use mathlib.Core.Option
use juggle.Slab.{KeyType, ChunkSlab, iter}
use juggle.Slab
use juggle.Registry.{usize_key}

pub record TimeEntry : Type 0 where
  pub sum : ℕ
  pub proportion : ℕ

pub record TimingGroup : Type 0 where
  pub info : ChunkSlab TimeEntry
  pub max : ℕ

abbrev pub new : TimingGroup
new = record { info = Slab.new; max = 0 }

-- `get_proportional`.
abbrev pub share : TimeEntry → ℕ
share entry = entry.sum / entry.proportion

-- `any` over the entries: is there one with another share?
unfoldable pub differs : ℕ → List (ℕ × TimeEntry) → Bool
differs dur [] = false
differs dur ((key, entry) ∷ es) = not (share entry == dur) || differs dur es

-- `min` over the shares of the entries.
unfoldable pub min_share : List (ℕ × TimeEntry) → Option ℕ
min_share [] = none
min_share ((key, entry) ∷ es) = elim (min_share es) [
  | none ↦ some (share entry)
  | some least ↦ some (if ltb least (share entry) then least else share entry)
]

-- The last tests of `can_execute`, after `unwrap`.
abbrev pub below_bound : ℕ → ℕ → Option ℕ → Outcome Bool
below_bound dur min_bound none = panic unwrap_none
below_bound dur min_bound (some min_time) =
    ok (if leb min_time min_bound then leb dur min_bound else true)

abbrev pub raise : ℕ → ℕ → ℕ
raise a b = if leb a b then b else a

abbrev pub contains : ℕ → TimingGroup → Bool
contains key g = is_some (Slab.get g.info key)

abbrev pub count : TimingGroup → ℕ
count g = g.info.len

abbrev pub get_slot_count : ℕ → TimingGroup → Option ℕ
get_slot_count key g = Option.map (λ v. v.proportion) (Slab.get g.info key)

abbrev pub clear : TimingGroup → TimingGroup
clear g = record { info = Slab.clear g.info; max = 0 }

module _ (top : ℕ) where
  -- `+` and `mul_by` of the count type.
  abbrev pub add : ℕ → ℕ → Outcome ℕ
  add a b = if ltb top (a + b) then panic add_overflow else ok (a + b)

  abbrev pub mul_by : ℕ → ℕ → Outcome ℕ
  mul_by a by = if ltb top (a * by) then panic multiply_overflow else ok (a * by)

module _ (m : ℕ) where
  abbrev pub entries : TimingGroup → List (ℕ × TimeEntry)
  entries g = iter (usize_key m) g.info

  unfoldable pub insert : ℕ → TimingGroup → Outcome (ℕ × TimingGroup)
  insert slot_count g =
      if slot_count == 0
      then panic zero_slots
      else (Slab.insert (usize_key m) (record { sum = 0; proportion = slot_count }) g.info >>= λ r.
          ok (r.0, record g { info = r.1 }))

  unfoldable pub remove : ℕ → TimingGroup → Outcome TimingGroup
  remove key g =
      let r = Slab.remove key g.info in
      if is_some r.0 then ok (record g { info = r.1 }) else panic unknown_key

module _ (m top : ℕ) where
  -- `can_execute`, for the entry found at the key.
  unfoldable pub can_execute_entry : TimeEntry → TimingGroup → Outcome Bool
  can_execute_entry this g =
      if (share this == g.max) && differs (share this) (entries m g)
      then ok false
      else (mul_by top g.max 9 >>= λ scaled.
          below_bound (share this) (scaled / 10) (min_share (entries m g)))

  unfoldable pub can_execute : ℕ → TimingGroup → Outcome Bool
  can_execute key g = elim (Slab.get g.info key) [
    | none ↦ panic unknown_key
    | some this ↦ can_execute_entry this g
  ]

  -- `update_duration`, for the entry found at the key. The block behind `&& false` never runs.
  unfoldable pub update_entry : ℕ → ℕ → TimeEntry → TimingGroup → Outcome TimingGroup
  update_entry key dur this g = add top this.sum dur >>= λ sum.
      let this' : TimeEntry = record this { sum = sum } in
      let g' : TimingGroup = record {
        info = Slab.modify (λ entry. this') key g.info;
        max = raise g.max (share this');
      } in
      elim (min_share (entries m g')) [ none ↦ panic unwrap_none | some min_time ↦ ok g' ]

  unfoldable pub update_duration : ℕ → ℕ → TimingGroup → Outcome TimingGroup
  update_duration key dur g = elim (Slab.get g.info key) [
    | none ↦ panic unknown_key
    | some this ↦ update_entry key dur this g
  ]
