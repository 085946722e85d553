-- ===== src/Slab/Iter.antt =====
-- src/utils/chunk_slab.rs: `iter` against a plain walk over the keys.
use juggle.Prelude.{
  ℕ, zero, suc, ◌+◌, ◌*◌, ◌/◌, ◌%◌, ◌<◌, ◌≤◌, ◌≡◌, refl, ap, ◌∙◌, Option, none, some, List, [], ◌∷◌,
  ◌++◌, length, get_elem?, arith,
}
use native.Mathlib.Nat.{mod-eq_of_lt, zero-add}
use juggle.Slab.{
  chunk_size, KeyType, Entry, empty, full, ChunkSlab, cell_of, capacity, get, value, iter_chunk,
  iter_from, iter,
}
use juggle.Slab.Cells.{IsSized}
use juggle.Slab.Inv.{Inv}

module _ {T : Type 0} where
  -- The keys from `a` on, `n` of them, that have a value.
  unfoldable pub collect : ℕ → ℕ → (ℕ → Option T) → List (ℕ × T)
  collect a zero f = []
  collect a (suc n) f =
      let rest = collect (suc a) n f in elim (f a) [ none ↦ rest | some v ↦ (a, v) ∷ rest ]

  collect-append :
      (a n m : ℕ) (f : ℕ → Option T) → collect a (n + m) f ≡ collect a n f ++ collect (a + n) m f
  unfolding collect
  collect-append a zero m f = let e : a + 0 ≡ a = omega arith in rw (e, zero-add)
  collect-append a (suc n) m f =
      let e : a + suc n ≡ suc a + n = omega arith in
      let e' : suc n + m ≡ suc (n + m) = omega arith in
      rw (e, e') (ground (arith, collect-append (suc a) n m f))

  iter_chunk-collect :
      (k : KeyType) (off : ℕ) (es : List (Entry T)) (f : ℕ → Option T)
      → off + length es ≤ k.max_value + 1
      → ((i : ℕ) → i < length es → f (off + i) ≡ value (get_elem? es i))
      → iter_chunk k off es ≡ collect off (length es) f
  unfolding iter_chunk collect
  iter_chunk-collect k off [] f le h = refl
  iter_chunk-collect k off (e ∷ es) f le h =
      let next : off + 1 ≡ suc off = omega arith in
      let start : off + 0 ≡ off = omega arith in
      let small : off % (k.max_value + 1) ≡ off = mod-eq_of_lt (omega arith) in
      let rest = iter_chunk-collect k (suc off) es f (omega arith) (λ i lt.
        let up : suc off + i ≡ off + suc i = omega arith in rw up (h (suc i) (omega arith))) in
      by_entry e (rw start at (h 0 (omega arith))) next small rest
    where
      by_entry :
          (e : Entry T)
          → f off ≡ value (some e)
          → off + 1 ≡ suc off
          → off % (k.max_value + 1) ≡ off
          → iter_chunk k (suc off) es ≡ collect (suc off) (length es) f
          → iter_chunk k off (e ∷ es) ≡ collect off (suc (length es)) f
      by_entry (empty link) here next small rest = ground (arith, here, next, rest)
      by_entry (full v) here next small rest = ground (arith, here, next, small, rest)

  cell_of-head :
      (c : List (Entry T)) (cs : List (List (Entry T))) (i : ℕ)
      → i < chunk_size
      → cell_of (c ∷ cs) i ≡ get_elem? c i
  cell_of-head c cs i lt =
      let e : i / chunk_size ≡ 0 = omega arith in
      let e' : i % chunk_size ≡ i = omega arith in ground (arith, e, e')

  cell_of-tail :
      (c : List (Entry T)) (cs : List (List (Entry T))) (i : ℕ)
      → cell_of (c ∷ cs) (chunk_size + i) ≡ cell_of cs i
  cell_of-tail c cs i =
      let e : (chunk_size + i) / chunk_size ≡ suc (i / chunk_size) = omega arith in
      let e' : (chunk_size + i) % chunk_size ≡ i % chunk_size = omega arith in ground (arith, e, e')

  iter_from-collect :
      (k : KeyType) (off : ℕ) (cs : List (List (Entry T))) (f : ℕ → Option T)
      → IsSized cs
      → off + length cs * chunk_size ≤ k.max_value + 1
      → ((i : ℕ) → i < length cs * chunk_size → f (off + i) ≡ value (cell_of cs i))
      → iter_from k off cs ≡ collect off (length cs * chunk_size) f
  unfolding iter_from collect
  iter_from-collect k off [] f sized le h = refl
  iter_from-collect k off (c ∷ cs) f sized le h =
      let wide : length c ≡ chunk_size = sized 0 c refl in
      let size : suc (length cs) * chunk_size ≡ chunk_size + length cs * chunk_size = omega arith in
      let here =
        iter_chunk-collect k off c f (omega arith)
          (λ i lt. h i (omega arith) ∙ ap value (cell_of-head c cs i (omega arith))) in
      let rest =
        iter_from-collect k (off + chunk_size) cs f (λ i d e. sized (suc i) d e) (omega arith)
          (λ i lt.
            let e : off + chunk_size + i ≡ off + (chunk_size + i) = omega arith in
            rw e (h (chunk_size + i) (omega arith) ∙ ap value (cell_of-tail c cs i))) in
      rw (size, collect-append off chunk_size (length cs * chunk_size) f) (rw (here, rest, wide))

  -- The nested walk over chunks and entries visits exactly the keys with a value, in order.
  pub iter-collect :
      (k : KeyType) (s : ChunkSlab T) → Inv k s → iter k s ≡ collect 0 (capacity s) (get s)
  unfolding iter
  iter-collect k s inv =
      iter_from-collect k 0 s.entries (get s) inv.sized (omega (arith, inv.bound))
        (λ i lt. let e : 0 + i ≡ i = omega arith in rw e)
