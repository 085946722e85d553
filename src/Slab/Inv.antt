-- ===== src/Slab/Inv.antt =====
-- src/utils/chunk_slab.rs: the invariant of a slab. `next` starts a list of free entries that runs
-- through all empty ones, without repetition, and ends at the capacity.
use juggle.Prelude.{
  ℕ, zero, suc, ◌+◌, ◌%◌, ◌<◌, ◌≤◌, ◌≡◌, ◌≢◌, refl, Option, some, List, [], ◌∷◌, length, arith, ap,
  ◌∙◌, subst,
}
use juggle.Prelude.Range.{sum_below}
use native.Mathlib.Nat.{mod-eq_of_lt}
use juggle.Slab.{chunk_size, KeyType, Entry, empty, full, ChunkSlab, cell, capacity}
use juggle.Slab.Cells.{IsSized}

-- A key type whose range is a whole number of chunks and fits a `usize`.
pub record IsKeyType (k : KeyType) : Type 0 where
  pub whole : (k.max_value + 1) % chunk_size ≡ 0
  pub fits : k.max_value ≤ k.usize_max

abbrev pub Absent : ℕ → List ℕ → Type 0
Absent x [] = Unit
Absent x (y ∷ ys) = (y ≢ x) × Absent x ys

abbrev pub Distinct : List ℕ → Type 0
Distinct [] = Unit
Distinct (x ∷ xs) = Absent x xs × Distinct xs

-- The numbers `a`, `a + 1`, … of which there are `n`.
pub upto : ℕ → ℕ → List ℕ
upto a zero = []
upto a (suc n) = a ∷ upto (suc a) n

pub length-upto : (a n : ℕ) → length (upto a n) ≡ n
unfolding upto
length-upto a zero = refl
length-upto a (suc n) = omega (arith, length-upto (suc a) n)

Absent-upto : (x a n : ℕ) → x < a → Absent x (upto a n)
unfolding upto
Absent-upto x a zero h = tt
Absent-upto x a (suc n) h = (omega arith, Absent-upto x (suc a) n (omega arith))

pub Distinct-upto : (a n : ℕ) → Distinct (upto a n)
unfolding upto
Distinct-upto a zero = tt
Distinct-upto a (suc n) = (Absent-upto a (suc a) n (omega arith), Distinct-upto (suc a) n)

module _ {T : Type 0} where
  -- The free list `fs` starts at `n`, and the last link is `e`.
  abbrev pub Chain : (ℕ → Option (Entry T)) → ℕ → List ℕ → ℕ → Type 0
  Chain c n [] e = n ≡ e
  Chain c n (f ∷ fs) e = (n ≡ f) × (link : ℕ) × (c f ≡ some (empty link)) × Chain c link fs e

  -- A change outside the free list leaves it.
  pub Chain-change :
      (c d : ℕ → Option (Entry T)) (k n : ℕ) (fs : List ℕ) (e : ℕ)
      → ((j : ℕ) → j ≢ k → d j ≡ c j)
      → Absent k fs
      → Chain c n fs e
      → Chain d n fs e
  Chain-change c d k n [] e same away h = h
  Chain-change c d k n (f ∷ fs) e same away h =
      (h.0, h.1, same f away.0 ∙ h.2, Chain-change c d k h.1 fs e same away.1 h.3)

  -- An entry that is not empty is not free.
  pub Chain-Absent :
      (c : ℕ → Option (Entry T)) (k n : ℕ) (fs : List ℕ) (e : ℕ)
      → ((link : ℕ) → c k ≢ some (empty link))
      → Chain c n fs e
      → Absent k fs
  Chain-Absent c k n [] e taken h = tt
  Chain-Absent c k n (f ∷ fs) e taken h = (
    λ same. taken h.1 (subst (λ x. c x ≡ some (empty h.1)) same h.2),
    Chain-Absent c k h.1 fs e taken h.3,
  )

  -- Consecutive entries that link each to the next, in numbers below a modulus.
  pub Chain-upto :
      (c : ℕ → Option (Entry T)) (m a n : ℕ)
      → a + n ≤ m
      → ((j : ℕ) → a ≤ j → j < a + n → c j ≡ some (empty ((j + 1) % m)))
      → Chain c (a % m) (upto a n) ((a + n) % m)
  unfolding upto
  Chain-upto c m a zero le h = ap (λ x. x % m) (omega arith)
  Chain-upto c m a (suc n) le h =
      let e : a + 1 ≡ suc a = omega arith in
      let e' : a + suc n ≡ suc a + n = omega arith in
      let rest : Chain c ((a + 1) % m) (upto (suc a) n) ((a + suc n) % m) =
        rw (e, e')
          (Chain-upto c m (suc a) n (omega arith) (λ j l u. h j (omega arith) (omega arith))) in
      (mod-eq_of_lt (omega arith), (a + 1) % m, h a (omega arith) (omega arith), rest)

  abbrev pub weight : Option (Entry T) → ℕ
  weight (some (full _)) = 1
  weight _ = 0

  pub record Inv (k : KeyType) (s : ChunkSlab T) : Type 0 where
    pub sized : IsSized s.entries
    pub bound : capacity s ≤ k.max_value + 1
    pub free : List ℕ
    pub chain : Chain (cell s) s.next free (capacity s % (k.max_value + 1))
    pub distinct : Distinct free
    pub covers : s.len + length free ≡ capacity s
    pub counted : s.len ≡ sum_below (capacity s) (λ j. weight (cell s j))
