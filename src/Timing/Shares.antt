-- ===== src/Timing/Shares.antt =====
-- src/utils/timing.rs: the least share and the test for another share, over the entries of a slab.
use juggle.Prelude.{
  ℕ, zero, suc, ◌+◌, ◌<◌, ◌≤◌, ◌≡◌, ◌≢◌, refl, subst, inl, inr, Bool, true, false, not, ◌||◌,
  Option, none, some, arith, Bool-cases, dec_lt, ◌==◌, if◌then◌else◌, ltb,
}
use juggle.Slab.Iter.{collect}
use juggle.Timing.{TimeEntry, share, differs, min_share}

module _ (f : ℕ → Option TimeEntry) where
  -- The least share of the entries at `n` keys from `a` on, which an entry has.
  pub record IsLeast (a n t : ℕ) : Type 0 where
    pub key : ℕ
    pub entry : TimeEntry
    pub found : f key ≡ some entry
    pub has : share entry ≡ t
    pub least : (j : ℕ) (e : TimeEntry) → a ≤ j → j < a + n → f j ≡ some e → t ≤ share e

  -- There is no entry and no least share, or there are both.
  abbrev pub MinShare : ℕ → ℕ → Option ℕ → Type 0
  MinShare a n none = (j : ℕ) → a ≤ j → j < a + n → f j ≡ none
  MinShare a n (some t) = IsLeast a n t

  -- The least share with one more entry in front.
  abbrev combine : Option TimeEntry → Option ℕ → Option ℕ
  combine none r = r
  combine (some e) none = some (share e)
  combine (some e) (some t) = some (if ltb t (share e) then t else share e)

  min_share-suc :
      (a n : ℕ) → min_share (collect a (suc n) f) ≡ combine (f a) (min_share (collect (suc a) n f))
  unfolding collect min_share
  min_share-suc a n = ground arith

  -- A key of a range is the first or one of the rest.
  at_first :
      (a n : ℕ) (P : ℕ → Type 0)
      → P a
      → ((j : ℕ) → suc a ≤ j → j < suc a + n → P j)
      → (j : ℕ) → a ≤ j
      → j < a + suc n
      → P j
  at_first a n P here rest j le lt = elim (dec_lt a j) [
    | yes above ↦ rest j above (omega arith)
    | no at ↦ let e : a ≡ j = omega arith in subst P e here
  ]

  combine-MinShare :
      (a n : ℕ) (o : Option TimeEntry) (r : Option ℕ)
      → f a ≡ o
      → MinShare (suc a) n r
      → MinShare a (suc n) (combine o r)
  combine-MinShare a n none none e h = at_first a n (λ j. f j ≡ none) e h
  combine-MinShare a n none (some t) e h = record {
    key = h.key;
    entry = h.entry;
    found = h.found;
    has = h.has;
    least = λ j d le lt at.
        at_first a n (λ i. f i ≡ some d → t ≤ share d) (λ at'. cc)
          (λ i le' lt'. h.least i d le' lt') j le lt at;
  }
  combine-MinShare a n (some v) none e h = record {
    key = a;
    entry = v;
    found = e;
    has = refl;
    least = λ j d le lt at.
        at_first a n (λ i. f i ≡ some d → share v ≤ share d) (λ at'. ground (arith, e))
          (λ i le' lt' at'. cc (h i le' lt')) j le lt at;
  }
  combine-MinShare a n (some v) (some t) e h = elim (Bool-cases (ltb t (share v))) [
    | inl less ↦ rw less (record {
      key = h.key;
      entry = h.entry;
      found = h.found;
      has = h.has;
      least = λ j d le lt at.
          at_first a n (λ i. f i ≡ some d → t ≤ share d) (λ at'. ground (arith, e, less))
            (λ i le' lt'. h.least i d le' lt') j le lt at;
    })
    | inr not_less ↦ rw not_less (record {
      key = a;
      entry = v;
      found = e;
      has = refl;
      least = λ j d le lt at.
          at_first a n (λ i. f i ≡ some d → share v ≤ share d) (λ at'. ground (arith, e))
            (λ i le' lt' at'. ground (arith, not_less, h.least i d le' lt' at')) j le lt at;
    })
  ]

  pub min_share-MinShare : (a n : ℕ) → MinShare a n (min_share (collect a n f))
  unfolding collect min_share
  min_share-MinShare a zero = λ j le lt. absurd (omega arith)
  min_share-MinShare a (suc n) = rw (min_share-suc a n) (
      combine-MinShare a n (f a) (min_share (collect (suc a) n f)) refl
        (min_share-MinShare (suc a) n))

  -- What the answer of the test for another share says.
  abbrev pub Differs : ℕ → ℕ → ℕ → Bool → Type 0
  Differs dur a n true =
      (j : ℕ) × (e : TimeEntry) × (a ≤ j) × (j < a + n) × (f j ≡ some e) × (share e ≢ dur)
  Differs dur a n false = (j : ℕ) (e : TimeEntry) → a ≤ j → j < a + n → f j ≡ some e → share e ≡ dur

  abbrev other : ℕ → Option TimeEntry → Bool → Bool
  other dur none b = b
  other dur (some e) b = not (share e == dur) || b

  differs-suc :
      (dur a n : ℕ)
      → differs dur (collect a (suc n) f) ≡ other dur (f a) (differs dur (collect (suc a) n f))
  unfolding collect differs
  differs-suc dur a n = ground arith

  other-Differs :
      (dur a n : ℕ) (o : Option TimeEntry) (b : Bool)
      → f a ≡ o
      → Differs dur (suc a) n b
      → Differs dur a (suc n) (other dur o b)
  other-Differs dur a n none true e (j, d, le, lt, at, ne) =
      (j, d, omega arith, omega arith, at, ne)
  other-Differs dur a n none false e h =
      λ j d. at_first a n (λ i. f i ≡ some d → share d ≡ dur) (λ at. cc) (λ i. h i d) j
  other-Differs dur a n (some v) b e h = elim (Bool-cases (share v == dur)) [
    | inl same ↦ rw same (beyond b same h)
    | inr away ↦ rw away (a, v, omega arith, omega arith, e, ground (arith, away))
  ]
    where
      beyond :
          (b : Bool) → (share v == dur) ≡ true → Differs dur (suc a) n b → Differs dur a (suc n) b
      beyond true same (j, d, le, lt, at, ne) = (j, d, omega arith, omega arith, at, ne)
      beyond false same h = λ j d.
          at_first a n (λ i. f i ≡ some d → share d ≡ dur) (λ at. ground (arith, same, e, at))
            (λ i. h i d) j

  pub differs-Differs : (dur a n : ℕ) → Differs dur a n (differs dur (collect a n f))
  unfolding collect differs
  differs-Differs dur a zero = λ j d le lt. absurd (omega arith)
  differs-Differs dur a (suc n) = rw (differs-suc dur a n) (
      other-Differs dur a n (f a) (differs dur (collect (suc a) n f)) refl
        (differs-Differs dur (suc a) n))
