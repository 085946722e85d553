-- ===== src/Timing/Fair.antt =====
-- src/utils/timing.rs: which entries `can_execute` allows to run.
use juggle.Prelude.{
  ℕ, ◌*◌, ◌/◌, ◌≤◌, ◌≡◌, ◌↔◌, refl, ap, ◌∙◌, Bool, true, false, ◌&&◌, Option, none, some, leb, ◌==◌,
  if◌then◌else◌, arith, Outcome, ok, ◌>>=◌,
}
use juggle.Slab.{capacity}
use juggle.Slab
use juggle.Timing.{
  TimeEntry, TimingGroup, share, below_bound, mul_by, entries, differs, min_share, can_execute,
  can_execute_entry,
}
use juggle.Timing.Shares.{Differs, MinShare, IsLeast}
use juggle.Timing.Group.{IsGroup, lt_capacity, differs-entries, min_share-entries}

-- Nine tenths of the greatest share.
abbrev pub bound : TimingGroup → ℕ
bound g = g.max * 9 / 10

abbrev pub At : TimingGroup → ℕ → TimeEntry → Type 0
At g key e = Slab.get g.info key ≡ some e

-- An entry with the greatest share may run only if all have it, and while an entry is at or below
-- the bound only such entries may.
abbrev pub Allowed : TimingGroup → TimeEntry → Type 0
Allowed g e =
    (share e ≡ g.max → (j : ℕ) (d : TimeEntry) → At g j d → share d ≡ share e)
    × ((j : ℕ) (d : TimeEntry) → At g j d → share d ≤ bound g → share e ≤ bound g)

module _ (m top : ℕ) (g : TimingGroup) (valid : IsGroup m g) (small : g.max * 9 ≤ top) where
  bound_iff :
      (dur t : ℕ)
      → IsLeast (Slab.get g.info) 0 (capacity g.info) t
      → ((if leb t (bound g) then leb dur (bound g) else true) ≡ true)
        ↔ ((j : ℕ) (d : TimeEntry) → At g j d → share d ≤ bound g → dur ≤ bound g)
  bound_iff dur t least = (
    λ b j d at le. ground (
      arith,
      b,
      least.least j d (omega arith) (omega (arith, lt_capacity m g valid.slots j d at)) at,
    ),
    λ all. ground (arith, all least.key least.entry least.found, least.has),
  )

  module _ (key : ℕ) (e : TimeEntry) (at : At g key e) where
    abbrev answer : Bool → Bool → Option ℕ → Outcome Bool
    answer same other least =
        if same && other
        then ok false
        else (mul_by top g.max 9 >>= λ scaled. below_bound (share e) (scaled / 10) least)

    abbrev pub Decides : Outcome Bool → Type 0
    Decides o = (b : Bool) × (o ≡ ok b) × ((b ≡ true) ↔ Allowed g e)

    by_bound :
        (least : Option ℕ)
        → MinShare (Slab.get g.info) 0 (capacity g.info) least
        → (share e ≡ g.max → (j : ℕ) (d : TimeEntry) → At g j d → share d ≡ share e)
        → Decides (mul_by top g.max 9 >>= λ scaled. below_bound (share e) (scaled / 10) least)
    by_bound none gone first =
        absurd (cc (gone key (omega arith) (omega (arith, lt_capacity m g valid.slots key e at))))
    by_bound (some t) least first = (
      if leb t (bound g) then leb (share e) (bound g) else true,
      ground arith,
      (
        λ b. (first, (bound_iff (share e) t least).0 b),
        λ allowed. (bound_iff (share e) t least).1 allowed.1,
      ),
    )

    by_tests :
        (same other : Bool) (least : Option ℕ)
        → (share e == g.max) ≡ same
        → Differs (Slab.get g.info) (share e) 0 (capacity g.info) other
        → MinShare (Slab.get g.info) 0 (capacity g.info) least
        → Decides (answer same other least)
    by_tests true true least q (j, d, le, lt, at', ne) h =
        (false, refl, (λ f. cc, λ allowed. absurd (ne (allowed.0 (ground (arith, q)) j d at'))))
    by_tests true false least q d h =
        by_bound least h (λ s j v at'.
          d j v (omega arith) (omega (arith, lt_capacity m g valid.slots j v at')) at')
    by_tests false true least q d h = by_bound least h (λ s j v at'. absurd (ground (arith, q, s)))
    by_tests false false least q d h = by_bound least h (λ s j v at'. absurd (ground (arith, q, s)))

    -- In a well-formed group whose greatest share can be multiplied by 9, `can_execute` returns for
    -- an entry of the group, and allows it exactly when two things hold: if it has the greatest share
    -- then all entries have the same share, and if some entry's share is at most nine tenths of the
    -- greatest then its share is too.
    pub can_execute-Allowed : Decides (can_execute m top key g)
    unfolding can_execute can_execute_entry
    can_execute-Allowed =
        rw (at, can_execute)
          (by_tests (share e == g.max) (differs (share e) (entries m g)) (min_share (entries m g))
            refl (differs-entries m g valid.slots (share e)) (min_share-entries m g valid.slots))

  -- In a well-formed group that is not empty and whose greatest share can be multiplied by 9, some
  -- entry is allowed to run.
  pub can_execute-least :
      (key : ℕ) (e : TimeEntry)
      → At g key e
      → (k : ℕ) × (d : TimeEntry) × At g k d × (can_execute m top k g ≡ ok true)
  can_execute-least key e at =
      by_least (min_share (entries m g)) (min_share-entries m g valid.slots)
    where
      by_least :
          (least : Option ℕ)
          → MinShare (Slab.get g.info) 0 (capacity g.info) least
          → (k : ℕ) × (d : TimeEntry) × At g k d × (can_execute m top k g ≡ ok true)
      by_least none gone =
          absurd (cc (gone key (omega arith) (omega (arith, lt_capacity m g valid.slots key e at))))
      by_least (some t) h =
          let least = λ (j : ℕ) (d : TimeEntry) (at' : At g j d).
            h.least j d (omega arith) (omega (arith, lt_capacity m g valid.slots j d at')) at' in
          let (b, returned, iff) = can_execute-Allowed h.key h.entry h.found in
          let allowed : b ≡ true = iff.1 (
            λ s j d at'. omega (arith, h.has, least j d at', valid.below j d at', s),
            λ j d at' le. omega (arith, h.has, least j d at'),
          ) in
          (h.key, h.entry, h.found, returned ∙ ap ok allowed)
