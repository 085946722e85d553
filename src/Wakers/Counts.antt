-- ===== src/Wakers/Counts.antt =====
-- src/utils/mod.rs: what each operation of a waker does to the strong counts and the freed allocations.
use juggle.Prelude.{
  ℕ, zero, suc, ◌+◌, ◌<◌, ◌≡◌, refl, sym, ap, ◌∙◌, ◌&&◌, Option, none, some, List, [], ◌∷◌, ◌++◌,
  length, length-set, length-append, get_elem?, get_elem?-set, lt_of_get_elem?, get_elem?-eq_none,
  ◌≤◌, subst, set, sum_by, ltb, to_nat, ◌==◌, arith, ok,
}
use juggle.Wakers.{
  noop, func, static_ref, Waker, unowned, dynamic, Memory, clone_arc, free, drop_arc, new_arc, log,
  waker_clone, waker_wake_by_ref, waker_drop, waker_wake,
}

abbrev pub strong_of : ℕ → Memory → ℕ
strong_of a h = elim (get_elem? h.strong a) [ none ↦ 0 | some n ↦ n ]

-- 1 for the allocation `a` itself.
abbrev pub is_at : ℕ → ℕ → ℕ
is_at j a = to_nat (a == j)

abbrev pub count_at : List ℕ → ℕ → ℕ
count_at strong j = elim (get_elem? strong j) [ none ↦ 0 | some n ↦ n ]

abbrev pub Frees : List ℕ → List ℕ → Type 0
Frees strong freed =
    (j : ℕ) → sum_by (is_at j) freed ≡ to_nat (ltb j (length strong) && (count_at strong j == 0))

-- Each allocation that has no owner was freed, once, and no other was.
abbrev pub FreedOnce : Memory → Type 0
FreedOnce h = Frees h.strong h.freed

-- How the strong counts change, by what is added and what is taken away.
pub record Changes (more less : ℕ → ℕ) (h h' : Memory) : Type 0 where
  pub counts : (j : ℕ) → strong_of j h' + less j ≡ strong_of j h + more j
  pub once : FreedOnce h → FreedOnce h'

living : (a : ℕ) (h : Memory) → 0 < strong_of a h → (n : ℕ) × (get_elem? h.strong a ≡ some (suc n))
living a h up = by_cell (get_elem? h.strong a) refl
  where
    by_cell :
        (o : Option ℕ) → get_elem? h.strong a ≡ o → (n : ℕ) × (get_elem? h.strong a ≡ some (suc n))
    by_cell none e = absurd (ground (arith, e, up))
    by_cell (some zero) e = absurd (ground (arith, e, up))
    by_cell (some (suc n)) e = (n, e)

pub clone_arc-Changes :
    (a : ℕ) (h : Memory)
    → 0 < strong_of a h
    → (h' : Memory) × (clone_arc a h ≡ ok h') × Changes (λ j. is_at j a) (λ j. 0) h h'
unfolding clone_arc
clone_arc-Changes a h up =
    let (n, e) = living a h up in
    let range = lt_of_get_elem? h.strong a e in
    (
      record h { strong = set h.strong a (suc (suc n)) },
      rw (e, clone_arc) refl,
      record {
        counts = λ j. ground (arith, e, range, get_elem?-set h.strong a j (suc (suc n)));
        once = λ before j. ground (
          arith,
          e,
          range,
          get_elem?-set h.strong a j (suc (suc n)),
          length-set h.strong a (suc (suc n)),
          before j,
        );
      },
    )

pub drop_arc-Changes :
    (a : ℕ) (h : Memory)
    → 0 < strong_of a h
    → (h' : Memory) × (drop_arc a h ≡ ok h') × Changes (λ j. 0) (λ j. is_at j a) h h'
unfolding drop_arc
drop_arc-Changes a h up =
    let (n, e) = living a h up in
    let range = lt_of_get_elem? h.strong a e in
    (
      record h { strong = set h.strong a n; freed = free n a h.freed },
      rw (e, drop_arc) refl,
      record {
        counts = λ j. ground (arith, e, range, get_elem?-set h.strong a j n);
        once = λ before j. freed_once n e range j (before j);
      },
    )
  where
    freed_once :
        (n : ℕ)
        → get_elem? h.strong a ≡ some (suc n)
        → a < length h.strong
        → (j : ℕ)
        → sum_by (is_at j) h.freed ≡ to_nat (ltb j (length h.strong) && (strong_of j h == 0))
        → sum_by (is_at j) (free n a h.freed)
          ≡ to_nat (
              ltb j (length (set h.strong a n))
              && (strong_of j (record h { strong = set h.strong a n }) == 0))
    freed_once zero e range j before =
        ground (arith, e, range, get_elem?-set h.strong a j 0, length-set h.strong a 0, before)
    freed_once (suc n) e range j before =
        ground (
          arith,
          e,
          range,
          get_elem?-set h.strong a j (suc n),
          length-set h.strong a (suc n),
          before,
        )

abbrev value : Option ℕ → ℕ
value o = elim o [ none ↦ 0 | some n ↦ n ]

value-append :
    (xs : List ℕ) (j : ℕ)
    → value (get_elem? (xs ++ 1 ∷ []) j) ≡ value (get_elem? xs j) + is_at j (length xs)
value-append [] zero = refl
value-append [] (suc j) = ground arith
value-append (x ∷ xs) zero = ground arith
value-append (x ∷ xs) (suc j) = ground (arith, value-append xs j)

pub new_arc-Changes : (h : Memory) → Changes (λ j. is_at j (new_arc h).0) (λ j. 0) h (new_arc h).1
new_arc-Changes h = record {
  counts = λ j. omega (arith, value-append h.strong j);
  once = λ before j.
      ground
        (arith, value-append h.strong j, length-append h.strong (1 ∷ []), before j, out_of_range j);
}
  where
    out_of_range : (j : ℕ) → length h.strong ≤ j → get_elem? h.strong j ≡ none
    out_of_range j le = get_elem?-eq_none h.strong j le

-- The allocation that a waker owns a strong pointer to.
abbrev pub refers : ℕ → Waker → ℕ
refers j (unowned k) = 0
refers j (dynamic a) = is_at j a

-- The allocation of the waker is alive.
abbrev pub IsAlive : Waker → Memory → Type 0
IsAlive w h = (a : ℕ) → w ≡ dynamic a → 0 < strong_of a h

pub unchanged :
    (h h' : Memory) → h'.strong ≡ h.strong → h'.freed ≡ h.freed → Changes (λ j. 0) (λ j. 0) h h'
unchanged h h' e e' = record {
  counts = λ j. ap (λ l. value (get_elem? l j) + 0) e;
  once = λ before j. rw (e, e') (before j);
}

pub waker_clone-Changes :
    (w : Waker) (h : Memory)
    → IsAlive w h
    → (h' : Memory) × (waker_clone w h ≡ ok (w, h')) × Changes (λ j. refers j w) (λ j. 0) h h'
unfolding waker_clone
waker_clone-Changes (unowned k) h live = (h, refl, unchanged h h refl refl)
waker_clone-Changes (dynamic a) h live =
    let (h', e, did) = clone_arc-Changes a h (live a refl) in (h', rw (e, waker_clone) refl, did)

pub waker_drop-Changes :
    (w : Waker) (h : Memory)
    → IsAlive w h
    → (h' : Memory) × (waker_drop w h ≡ ok h') × Changes (λ j. 0) (λ j. refers j w) h h'
unfolding waker_drop
waker_drop-Changes (unowned k) h live = (h, refl, unchanged h h refl refl)
waker_drop-Changes (dynamic a) h live = drop_arc-Changes a h (live a refl)

pub waker_wake_by_ref-Changes :
    (w : Waker) (h : Memory)
    → IsAlive w h
    → (h' : Memory) × (waker_wake_by_ref w h ≡ ok h')
      × (h'.strong ≡ h.strong)
      × (h'.freed ≡ h.freed)
unfolding waker_wake_by_ref
waker_wake_by_ref-Changes (unowned noop) h live = (h, refl, refl, refl)
waker_wake_by_ref-Changes (unowned (func f)) h live = (log (unowned (func f)) h, refl, refl, refl)
waker_wake_by_ref-Changes (unowned (static_ref a)) h live =
    (log (unowned (static_ref a)) h, refl, refl, refl)
waker_wake_by_ref-Changes (dynamic a) h live =
    let (n, e) = living a h (live a refl) in
    (log (dynamic a) h, rw (e, waker_wake_by_ref) refl, refl, refl)

pub waker_wake-Changes :
    (w : Waker) (h : Memory)
    → IsAlive w h
    → (h' : Memory) × (waker_wake w h ≡ ok h') × Changes (λ j. 0) (λ j. refers j w) h h'
unfolding waker_wake
waker_wake-Changes w h live =
    let (h1, e, same, same') = waker_wake_by_ref-Changes w h live in
    let (h2, e', did) =
      waker_drop-Changes w h1
        (λ a at. subst (λ l. 0 < value (get_elem? l a)) (sym same) (live a at)) in
    (
      h2,
      rw (e, waker_wake) e',
      record {
        counts = λ j. did.counts j ∙ ap (λ l. value (get_elem? l j) + 0) same;
        once = λ before. did.once (
            subst (λ l. Frees l h1.freed) (sym same)
              (subst (λ l. Frees h.strong l) (sym same') before));
      },
    )
