-- ===== src/Slab/Cells.antt =====
-- src/utils/chunk_slab.rs: two-level indexing seen as one array of cells.
use juggle.Prelude.{
  ℕ, zero, suc, ◌+◌, ◌-◌, ◌*◌, ◌/◌, ◌%◌, ◌<◌, ◌≤◌, ◌≡◌, refl, inl, inr, none, some, List, [], ◌∷◌,
  ◌++◌, length, get_elem?, set, ltb, ◌==◌, if◌then◌else◌, arith, get_elem?-set, get_elem?-append,
  get_elem?-eq_some, get_elem?-eq_none, lt_of_get_elem?, length-set, Option-cases,
}
use juggle.Slab.{
  chunk_size, KeyType, Entry, from_index, wrapping_inc, init_rest, init_chunk, write, cell_of,
}

pub length-init_rest :
    (T : Type 0) (k : KeyType) (n start : ℕ) → length (init_rest {T = T} k n start) ≡ n
unfolding init_rest
length-init_rest T k zero start = refl
length-init_rest T k (suc n) start =
    omega (arith, length-init_rest T k n (from_index k (wrapping_inc k start)))

module _ {T : Type 0} where
  -- Every chunk has its 16 entries.
  abbrev pub IsSized : List (List (Entry T)) → Type 0
  IsSized cs = (i : ℕ) (c : List (Entry T)) → get_elem? cs i ≡ some c → length c ≡ chunk_size

  pub cell-eq_some :
      (cs : List (List (Entry T))) (j : ℕ)
      → IsSized cs
      → j < length cs * chunk_size
      → (e : Entry T) × (cell_of cs j ≡ some e)
  cell-eq_some cs j sized lt =
      let (c, found) = get_elem?-eq_some cs (j / chunk_size) (omega arith) in
      let (e, there) =
        get_elem?-eq_some c (j % chunk_size) (omega (arith, sized (j / chunk_size) c found)) in
      (e, ground (arith, found, there))

  pub lt_of_cell :
      (cs : List (List (Entry T))) (j : ℕ) {e : Entry T}
      → IsSized cs
      → cell_of cs j ≡ some e
      → j < length cs * chunk_size
  lt_of_cell cs j sized h = elim (Option-cases (get_elem? cs (j / chunk_size))) [
    | inl out ↦ absurd (ground arith)
    | inr (c, found) ↦ omega (arith, lt_of_get_elem? cs (j / chunk_size) found)
  ]

  pub cell-eq_none :
      (cs : List (List (Entry T))) (j : ℕ) → length cs * chunk_size ≤ j → cell_of cs j ≡ none
  cell-eq_none cs j h = ground (arith, get_elem?-eq_none cs (j / chunk_size) (omega arith))

  -- A write at an allocated key changes that cell and no other.
  pub cell-write :
      (cs : List (List (Entry T))) (key j : ℕ) (e : Entry T)
      → IsSized cs
      → key < length cs * chunk_size
      → cell_of (write cs key e) j ≡ (if key == j then some e else cell_of cs j)
  cell-write cs key j e sized lt =
      let (c, found) = get_elem?-eq_some cs (key / chunk_size) (omega arith) in
      let wide : length c ≡ chunk_size = sized (key / chunk_size) c found in
      ground (
        arith,
        found,
        wide,
        get_elem?-set cs (key / chunk_size) (j / chunk_size) (set c (key % chunk_size) e),
        get_elem?-set c (key % chunk_size) (j % chunk_size) e,
      )

  pub length-write :
      (cs : List (List (Entry T))) (key : ℕ) (e : Entry T) → length (write cs key e) ≡ length cs
  length-write cs key e = elim (Option-cases (get_elem? cs (key / chunk_size))) [
    | inl out ↦ ground arith
    | inr (c, found) ↦
        ground (arith, found, length-set cs (key / chunk_size) (set c (key % chunk_size) e))
  ]

  pub write-IsSized :
      (cs : List (List (Entry T))) (key : ℕ) (e : Entry T) → IsSized cs → IsSized (write cs key e)
  write-IsSized cs key e sized i d h = elim (Option-cases (get_elem? cs (key / chunk_size))) [
    | inl out ↦ ground (arith, sized i d)
    | inr (c, found) ↦ ground (
      arith,
      found,
      sized i d,
      sized (key / chunk_size) c,
      length-set c (key % chunk_size) e,
      get_elem?-set cs (key / chunk_size) i (set c (key % chunk_size) e),
    )
  ]

  pub push-IsSized :
      (k : KeyType) (cs : List (List (Entry T))) (start : ℕ) (val : T)
      → IsSized cs
      → IsSized (cs ++ init_chunk k start val ∷ [])
  unfolding init_chunk
  push-IsSized k cs start val sized i d h = ground (
    arith,
    sized i d,
    length-init_rest T k 15 (start + 1),
    get_elem?-append cs (init_chunk k start val ∷ []) i,
    get_elem?-one (init_chunk k start val) (i - length cs),
  )
    where
      get_elem?-one :
          (c : List (Entry T)) (i : ℕ) → get_elem? (c ∷ []) i ≡ (if i == 0 then some c else none)
      get_elem?-one c zero = refl
      get_elem?-one c (suc i) = ground arith

  -- An appended chunk leaves the old cells, and shows behind them.
  pub cell-push :
      (cs : List (List (Entry T))) (c : List (Entry T)) (j : ℕ)
      → cell_of (cs ++ c ∷ []) j ≡ (
          if ltb j (length cs * chunk_size)
          then cell_of cs j
          else if ltb j (length cs * chunk_size + chunk_size)
          then get_elem? c (j - length cs * chunk_size)
          else none)
  cell-push cs c j = ground (
    arith,
    get_elem?-append cs (c ∷ []) (j / chunk_size),
    get_elem?-one (j / chunk_size - length cs),
  )
    where
      get_elem?-one : (i : ℕ) → get_elem? (c ∷ []) i ≡ (if i == 0 then some c else none)
      get_elem?-one zero = refl
      get_elem?-one (suc i) = ground arith
