-- ===== src/Slab/Insert.antt =====
-- src/utils/chunk_slab.rs: `Chunk::init` and `insert`.
use native.Mathlib.Nat.{mod-eq_of_lt, mod-mod}
use native.Mathlib.Numerals.{add-one}
use juggle.Prelude.{
  ℕ, zero, suc, ◌+◌, ◌-◌, ◌*◌, ◌%◌, ◌<◌, ◌≤◌, ◌≡◌, refl, sym, ap, ◌∙◌, subst, false, none, some,
  List, [], ◌∷◌, ◌++◌, length, length-append, get_elem?, ◌==◌, if◌then◌else◌, arith, ok, dec_lt,
}
use juggle.Prelude.Range.{
  sum_below, sum_below-suc, sum_below-cong, sum_below-change, sum_below-grow,
}
use juggle.Slab.{
  chunk_size, KeyType, Entry, empty, full, ChunkSlab, from_index, wrapping_inc, init_rest,
  init_chunk, cell, write, capacity, is_exhausted, insert, get, value,
}
use juggle.Slab.Cells.{
  cell-eq_none, cell-write, cell-push, length-write, write-IsSized, push-IsSized, lt_of_cell,
}
use juggle.Slab.Inv.{
  IsKeyType, Absent, Distinct, upto, length-upto, Distinct-upto, Chain, Chain-change, Chain-upto,
  weight, Inv,
}

-- One more key, reduced from `usize` to the key type.
next_key :
    (k : KeyType) (n : ℕ)
    → IsKeyType k
    → n ≤ k.max_value
    → from_index k (wrapping_inc k n) ≡ (n + 1) % (k.max_value + 1)
next_key k n v le = elim (dec_lt n k.usize_max) [
  | yes small ↦ ap (λ x. x % (k.max_value + 1)) (mod-eq_of_lt (omega arith))
  | no top ↦
      let e : n ≡ k.usize_max = omega (arith, v.fits) in
      let e' : k.max_value ≡ k.usize_max = omega (arith, v.fits) in
      rw (e, e') (mod-mod (k.usize_max + 1) (k.usize_max + 1))
]

module _ {T : Type 0} where
  -- The links that `Chunk::init` writes: each entry names the next one, in the key type's range.
  init_rest-link :
      (k : KeyType) (n start i : ℕ)
      → IsKeyType k
      → i < n
      → start + n ≤ k.max_value + 1
      → get_elem? (init_rest {T = T} k n start) i
        ≡ some (empty ((start + i + 1) % (k.max_value + 1)))
  unfolding init_rest
  init_rest-link k zero start i v lt le = absurd (omega arith)
  init_rest-link k (suc n) start zero v lt le =
      let e : start + 0 + 1 ≡ start + 1 = omega arith in
      rw e (ap (λ x. some (empty x)) (next_key k start v (omega arith)))
  init_rest-link k (suc n) start (suc i) v lt le =
      let e : start + suc i + 1 ≡ suc start + i + 1 = omega arith in
      let next : from_index k (wrapping_inc k start) ≡ suc start =
        next_key k start v (omega arith) ∙ (mod-eq_of_lt (omega arith) ∙ add-one start) in
      rw (e, next) (init_rest-link k n (suc start) i v (omega arith) (omega arith))

  -- What a successful `insert` does: a fresh key reads `val`, nothing else changes.
  pub record IsInserted (k : KeyType) (val : T) (s : ChunkSlab T) (key : ℕ) (s' : ChunkSlab T)
      : Type 0 where
    pub fresh : get s key ≡ none
    pub stored : (j : ℕ) → get s' j ≡ (if key == j then some val else get s j)
    pub grown : s'.len ≡ s.len + 1
    pub extends : capacity s ≤ capacity s'
    pub kept : Inv k s'

  -- Reuse of the first free entry.
  module _ (k : KeyType) (val : T) (s : ChunkSlab T) (inv : Inv k s) (link : ℕ) (fs : List ℕ)
      (here : cell s s.next ≡ some (empty link))
      (rest : Chain (cell s) link fs (capacity s % (k.max_value + 1))) (once : Absent s.next fs)
      (distinct : Distinct fs) (covers : s.len + suc (length fs) ≡ capacity s) where
    abbrev pub reused : ChunkSlab T
    reused = record { entries = write s.entries s.next (full val); len = s.len + 1; next = link }

    below : s.next < capacity s
    below = lt_of_cell s.entries s.next inv.sized here

    reused-cell : (j : ℕ) → cell reused j ≡ (if s.next == j then some (full val) else cell s j)
    reused-cell j = cell-write s.entries s.next j (full val) inv.sized below

    pub same-capacity : capacity reused ≡ capacity s
    same-capacity = ap (λ n. n * chunk_size) (length-write s.entries s.next (full val))

    pub insert-reused : is_exhausted k s ≡ false → insert k val s ≡ ok (s.next, reused)
    unfolding insert
    insert-reused open_range = ground (arith, open_range, below, here)

    reused-Inv : Inv k reused
    reused-Inv = record {
      sized = write-IsSized s.entries s.next (full val) inv.sized;
      bound = omega (arith, same-capacity, inv.bound);
      free = fs;
      chain = rw same-capacity (
          Chain-change (cell s) (cell reused) s.next link fs _
            (λ j ne. ground (arith, reused-cell j)) once rest);
      distinct = distinct;
      covers = omega (arith, same-capacity, covers);
      counted = rw same-capacity (omega (arith, one_more, old, new, inv.counted));
    }
      where
        old : weight (cell s s.next) ≡ 0
        old = ground (arith, here)

        new : weight (cell reused s.next) ≡ 1
        new = ground (arith, reused-cell s.next)

        one_more :
            sum_below (capacity s) (λ j. weight (cell reused j)) + weight (cell s s.next)
            ≡ sum_below (capacity s) (λ j. weight (cell s j)) + weight (cell reused s.next)
        one_more =
            sum_below-change (capacity s) (λ j. weight (cell s j)) (λ j. weight (cell reused j))
              s.next below (λ j lt ne. ground (arith, reused-cell j))

    pub reused-IsInserted : IsInserted k val s s.next reused
    reused-IsInserted = record {
      fresh = ground (arith, here);
      stored = λ j. ground (arith, reused-cell j);
      grown = refl;
      extends = omega (arith, same-capacity);
      kept = reused-Inv;
    }

  -- A new chunk, when no entry is free.
  module _ (k : KeyType) (val : T) (s : ChunkSlab T) (v : IsKeyType k) (inv : Inv k s)
      (at_end : s.next ≡ capacity s) (all_full : s.len ≡ capacity s)
      (room : capacity s + chunk_size ≤ k.max_value + 1) where
    abbrev chunk : List (Entry T)
    chunk = init_chunk k s.next val

    abbrev pushed : ChunkSlab T
    pushed = record { entries = s.entries ++ chunk ∷ []; len = s.len + 1; next = s.next + 1 }

    pushed-capacity : capacity pushed ≡ capacity s + chunk_size
    pushed-capacity = omega (arith, length-append s.entries (chunk ∷ []))

    pushed-first : cell pushed (capacity s) ≡ some (full val)
    unfolding init_chunk
    pushed-first = ground (arith, cell-push s.entries chunk (capacity s), cancel)
      where
        cancel : capacity s - capacity s ≡ 0
        cancel = omega arith

    pushed-link :
        (j : ℕ)
        → suc (capacity s) ≤ j
        → j < suc (capacity s) + 15
        → cell pushed j ≡ some (empty ((j + 1) % (k.max_value + 1)))
    unfolding init_chunk
    pushed-link j l u =
        let i : ℕ = j - suc (capacity s) in
        let at : j - capacity s ≡ suc i = omega arith in
        let to : s.next + 1 + i + 1 ≡ j + 1 = omega (arith, at_end) in
        let linked = init_rest-link k 15 (s.next + 1) i v (omega arith) (omega (arith, at_end)) in
        ground (arith, cell-push s.entries chunk j, at, to, linked)

    pushed-old : (j : ℕ) → j < capacity s → cell pushed j ≡ cell s j
    pushed-old j lt = ground (arith, cell-push s.entries chunk j)

    pushed-beyond : (j : ℕ) → capacity s + chunk_size ≤ j → cell pushed j ≡ none
    pushed-beyond j lt = ground (arith, cell-push s.entries chunk j)

    pushed-Chain :
        Chain
          (cell pushed)
          pushed.next
          (upto (suc (capacity s)) 15)
          (capacity pushed % (k.max_value + 1))
    pushed-Chain =
        let m : ℕ = k.max_value + 1 in
        let start : suc (capacity s) % m ≡ s.next + 1 =
          mod-eq_of_lt (omega arith) ∙ omega (arith, at_end) in
        let stop : (suc (capacity s) + 15) % m ≡ capacity pushed % m =
          ap (λ x. x % m) (omega (arith, pushed-capacity)) in
        let chain : Chain (cell pushed) (suc (capacity s) % m) (upto (suc (capacity s)) 15)
            ((suc (capacity s) + 15) % m) =
          Chain-upto (cell pushed) m (suc (capacity s)) 15 (omega arith) pushed-link in
        subst (λ n. Chain (cell pushed) n (upto (suc (capacity s)) 15) (capacity pushed % m)) start
          (subst (λ e. Chain (cell pushed) (suc (capacity s) % m) (upto (suc (capacity s)) 15) e)
            stop chain)

    pushed-weightless : (j : ℕ) → suc (capacity s) ≤ j → weight (cell pushed j) ≡ 0
    pushed-weightless j l = elim (dec_lt j (suc (capacity s) + 15)) [
      | yes u ↦ ap weight (pushed-link j l u)
      | no out ↦ ap weight (pushed-beyond j (omega arith))
    ]

    pushed-counted : s.len + 1 ≡ sum_below (capacity pushed) (λ j. weight (cell pushed j))
    pushed-counted =
        let w : ℕ → ℕ = λ j. weight (cell pushed j) in
        let size : capacity pushed ≡ suc (capacity s) + 15 = omega (arith, pushed-capacity) in
        rw size (
          omega (
            arith,
            all_full,
            inv.counted,
            sum_below-grow (suc (capacity s)) 15 w pushed-weightless,
            sum_below-suc (capacity s) w,
            sum_below-cong (capacity s) w (λ j. weight (cell s j))
                (λ j lt. ap weight (pushed-old j lt)),
            ap weight pushed-first,
          ))

    pushed-Inv : Inv k pushed
    pushed-Inv = record {
      sized = push-IsSized k s.entries s.next val inv.sized;
      bound = omega (arith, pushed-capacity, room);
      free = upto (suc (capacity s)) 15;
      chain = pushed-Chain;
      distinct = Distinct-upto (suc (capacity s)) 15;
      covers = omega (arith, pushed-capacity, all_full, length-upto (suc (capacity s)) 15);
      counted = pushed-counted;
    }

    pushed-stored : (j : ℕ) → get pushed j ≡ (if s.next == j then some val else get s j)
    pushed-stored j = elim (dec_lt j (capacity s)) [
      | yes old ↦ ground (arith, pushed-old j old)
      | no new ↦ ground (
        arith,
        cell-eq_none s.entries j (omega arith),
        pushed-first,
        pushed-link j,
        pushed-beyond j,
      )
    ]

    pushed-IsInserted : IsInserted k val s s.next pushed
    pushed-IsInserted = record {
      fresh = rw at_end (ap value (cell-eq_none s.entries (capacity s) (omega arith)));
      stored = pushed-stored;
      grown = refl;
      extends = omega (arith, pushed-capacity);
      kept = pushed-Inv;
    }

  -- Below the key range an insert succeeds, whatever the order of calls before it.
  pub insert_total :
      (k : KeyType) (val : T) (s : ChunkSlab T)
      → IsKeyType k
      → Inv k s
      → s.len ≤ k.max_value
      → (key : ℕ) × (s' : ChunkSlab T) × (insert k val s ≡ ok (key, s')) × IsInserted k val s key s'
  unfolding insert
  insert_total k val s v inv room = by_free inv.free inv.chain inv.distinct inv.covers
    where
      open_range : is_exhausted k s ≡ false
      open_range = ground (arith, v.whole)

      by_free :
          (free : List ℕ)
          → Chain (cell s) s.next free (capacity s % (k.max_value + 1))
          → Distinct free
          → s.len + length free ≡ capacity s
          → (key : ℕ) × (s' : ChunkSlab T) × (insert k val s ≡ ok (key, s'))
            × IsInserted k val s key s'
      by_free [] end distinct covers =
          let here : s.next ≡ capacity s = end ∙ mod-eq_of_lt (omega (arith, covers, room)) in
          let grows : capacity s + chunk_size ≤ k.max_value + 1 =
            omega (arith, covers, room, v.whole) in
          (
            s.next,
            pushed k val s v inv here (omega (arith, covers)) grows,
            ground (arith, open_range),
            pushed-IsInserted k val s v inv here (omega (arith, covers)) grows,
          )
      by_free (f ∷ fs) (same, link, here, rest) distinct covers =
          let at : cell s s.next ≡ some (empty link) =
            subst (λ n. cell s n ≡ some (empty link)) (sym same) here in
          let once : Absent s.next fs = subst (λ n. Absent n fs) (sym same) distinct.0 in
          (
            s.next,
            reused k val s inv link fs at rest once distinct.1 covers,
            insert-reused k val s inv link fs at rest once distinct.1 covers open_range,
            reused-IsInserted k val s inv link fs at rest once distinct.1 covers,
          )
