-- ===== src/Slab/Sweep.antt =====
-- src/utils/chunk_slab.rs: the loops of `retain` against removals key by key.
use juggle.Prelude.{
  ℕ, zero, suc, ◌+◌, ◌-◌, ◌*◌, ◌/◌, ◌%◌, ◌<◌, ◌≤◌, ◌≡◌, refl, sym, ap, ◌∙◌, subst, Bool, true,
  false, none, some, List, [], ◌∷◌, ◌++◌, length, if◌then◌else◌, arith, Bool-cases, inl, inr,
  length-append, get_elem?-middle, set-middle, snoc-append,
}
use native.Mathlib.Nat.{mod-eq_of_lt}
use juggle.Slab.{
  chunk_size, KeyType, Entry, empty, full, ChunkSlab, from_index, cell_of, write, capacity, get,
  remove, retain_chunk, retain_from, retain,
}
use juggle.Slab.Cells.{IsSized}
use juggle.Slab.Inv.{Inv}

module _ {T : Type 0} (func : ℕ → T → Bool) where
  -- A removal of the key if `func` rejects its value.
  abbrev pub drop_rejected : ℕ → ChunkSlab T → ChunkSlab T
  drop_rejected key s = elim (get s key) [
    | none ↦ s
    | some val ↦ if func key val then s else (remove key s).1
  ]

  -- The same at the keys from `key` on, of which there are `left`.
  unfoldable pub sweep : ℕ → ℕ → ChunkSlab T → ChunkSlab T
  sweep zero key s = s
  sweep (suc left) key s = sweep left (suc key) (drop_rejected key s)

  sweep-add :
      (n m key : ℕ) (s : ChunkSlab T) → sweep (n + m) key s ≡ sweep m (key + n) (sweep n key s)
  unfolding sweep
  sweep-add zero m key s =
      let e : key + 0 ≡ key = omega arith in let e' : 0 + m ≡ m = omega arith in rw (e, e') refl
  sweep-add (suc n) m key s =
      let e : key + suc n ≡ suc key + n = omega arith in
      let e' : suc n + m ≡ suc (n + m) = omega arith in
      rw (e, e') (sweep-add n m (suc key) (drop_rejected key s))

  abbrev with_chunk :
      List (List (Entry T)) → List (Entry T) → List (List (Entry T)) → ℕ → ℕ → ChunkSlab T
  with_chunk pre c cs len next = record { entries = pre ++ c ∷ cs; len = len; next = next }

  module _ (pre cs : List (List (Entry T))) (done es : List (Entry T)) (key : ℕ)
      (place : key ≡ length pre * chunk_size + length done) (short : length done < chunk_size) where
    chunk_place : key / chunk_size ≡ length pre
    chunk_place = omega arith

    entry_place : key % chunk_size ≡ length done
    entry_place = omega arith

    cell-focus : (e : Entry T) → cell_of (pre ++ (done ++ e ∷ es) ∷ cs) key ≡ some e
    cell-focus e = ground (
      arith,
      chunk_place,
      entry_place,
      get_elem?-middle pre (done ++ e ∷ es) cs,
      get_elem?-middle done e es,
    )

    write-focus :
        (e e' : Entry T)
        → write (pre ++ (done ++ e ∷ es) ∷ cs) key e' ≡ pre ++ (done ++ e' ∷ es) ∷ cs
    write-focus e e' = ground (
      arith,
      chunk_place,
      entry_place,
      get_elem?-middle pre (done ++ e ∷ es) cs,
      set-middle done e e' es,
      set-middle pre (done ++ e ∷ es) (done ++ e' ∷ es) cs,
    )

    -- One step of the sweep at an entry of the chunk.
    drop-empty :
        (link len next : ℕ)
        → drop_rejected key (with_chunk pre (done ++ empty link ∷ es) cs len next)
          ≡ with_chunk pre (done ++ empty link ∷ es) cs len next
    drop-empty link len next = ground (arith, cell-focus (empty link))

    drop-kept :
        (val : T) (len next : ℕ)
        → func key val ≡ true
        → drop_rejected key (with_chunk pre (done ++ full val ∷ es) cs len next)
          ≡ with_chunk pre (done ++ full val ∷ es) cs len next
    drop-kept val len next keeps = ground (arith, cell-focus (full val), keeps)

    drop-gone :
        (val : T) (len next : ℕ)
        → func key val ≡ false
        → drop_rejected key (with_chunk pre (done ++ full val ∷ es) cs len next)
          ≡ with_chunk pre (done ++ empty next ∷ es) cs (len - 1) key
    unfolding remove
    drop-gone val len next rejects =
        ground (arith, cell-focus (full val), rejects, write-focus (full val) (empty next))

  module _ (k : KeyType) where
    abbrev swept :
        List (List (Entry T))
        → List (List (Entry T))
        → List (Entry T)
        → List (Entry T)
        → ℕ
        → ℕ
        → ℕ
        → ChunkSlab T
    swept pre cs done es key len next =
        let r = retain_chunk k func key es len next in with_chunk pre (done ++ r.0) cs r.1 r.2

    -- A step at an entry that leaves `e`, and the rest of the chunk.
    sweep-entry :
        (pre cs : List (List (Entry T))) (done es : List (Entry T)) (key len next : ℕ) (e : Entry T)
        (s : ChunkSlab T)
        → drop_rejected key s ≡ with_chunk pre (done ++ e ∷ es) cs len next
        → sweep (length es) (suc key) (with_chunk pre ((done ++ e ∷ []) ++ es) cs len next)
          ≡ swept pre cs (done ++ e ∷ []) es (suc key) len next
        → (let r = retain_chunk k func (key + 1) es len next in
            sweep (suc (length es)) key s ≡ with_chunk pre (done ++ e ∷ r.0) cs r.1 r.2)
    unfolding sweep
    sweep-entry pre cs done es key len next e s dropped rest =
        let one_on : key + 1 ≡ suc key = omega arith in
        let r = retain_chunk k func (suc key) es len next in
        rw one_on (
          ap (sweep (length es) (suc key))
            (dropped ∙ sym (ap (λ c. with_chunk pre c cs len next) (snoc-append done e es)))
          ∙ rest
          ∙ ap (λ c. with_chunk pre c cs r.1 r.2) (snoc-append done e r.0))

    -- The loop over a chunk, behind the entries `done` of it.
    chunk-sweep :
        (es : List (Entry T)) (pre cs : List (List (Entry T))) (done : List (Entry T))
        (key len next : ℕ)
        → key ≡ length pre * chunk_size + length done
        → length done + length es ≡ chunk_size
        → (length pre + 1) * chunk_size ≤ k.max_value + 1
        → sweep (length es) key (with_chunk pre (done ++ es) cs len next)
          ≡ swept pre cs done es key len next
    unfolding sweep retain_chunk
    chunk-sweep [] pre cs done key len next place full_chunk bound = refl
    chunk-sweep (empty link ∷ es) pre cs done key len next place full_chunk bound =
        sweep-entry pre cs done es key len next (empty link)
          (with_chunk pre (done ++ empty link ∷ es) cs len next)
          (drop-empty pre cs done es key place (omega arith) link len next)
          (chunk-sweep es pre cs (done ++ empty link ∷ []) (suc key) len next
            (omega (arith, place, length-append done (empty link ∷ [])))
            (omega (arith, full_chunk, length-append done (empty link ∷ []))) bound)
    chunk-sweep (full val ∷ es) pre cs done key len next place full_chunk bound =
        let fits : from_index k key ≡ key = mod-eq_of_lt (omega arith) in
        elim (Bool-cases (func key val)) [
          | inl keeps ↦
              rw (fits, keeps)
                (sweep-entry pre cs done es key len next (full val)
                  (with_chunk pre (done ++ full val ∷ es) cs len next)
                  (drop-kept pre cs done es key place (omega arith) val len next keeps)
                  (chunk-sweep es pre cs (done ++ full val ∷ []) (suc key) len next
                    (omega (arith, place, length-append done (full val ∷ [])))
                    (omega (arith, full_chunk, length-append done (full val ∷ []))) bound))
          | inr rejects ↦
              rw (fits, rejects)
                (sweep-entry pre cs done es key (len - 1) key (empty next)
                  (with_chunk pre (done ++ full val ∷ es) cs len next)
                  (drop-gone pre cs done es key place (omega arith) val len next rejects)
                  (chunk-sweep es pre cs (done ++ empty next ∷ []) (suc key) (len - 1) key
                    (omega (arith, place, length-append done (empty next ∷ [])))
                    (omega (arith, full_chunk, length-append done (empty next ∷ []))) bound))
        ]

    -- The loop over the chunks behind `pre`.
    from-sweep :
        (cs pre : List (List (Entry T))) (key len next : ℕ)
        → key ≡ length pre * chunk_size
        → IsSized cs
        → (length pre + length cs) * chunk_size ≤ k.max_value + 1
        → (let r = retain_from k func key cs len next in
            sweep
              (length cs * chunk_size)
              key
              (record { entries = pre ++ cs; len = len; next = next })
            ≡ record { entries = pre ++ r.0; len = r.1; next = r.2 })
    unfolding sweep retain_from
    from-sweep [] pre key len next place sized bound = refl
    from-sweep (c ∷ cs) pre key len next place sized bound =
        let r = retain_chunk k func key c len next in
        let wide : length c ≡ chunk_size = sized 0 c refl in
        let more : length (c ∷ cs) * chunk_size ≡ chunk_size + length cs * chunk_size =
          omega arith in
        let one : sweep chunk_size key (with_chunk pre c cs len next)
            ≡ with_chunk pre r.0 cs r.1 r.2 =
          subst (λ n. sweep n key (with_chunk pre c cs len next) ≡ with_chunk pre r.0 cs r.1 r.2)
            wide (chunk-sweep c pre cs [] key len next (omega arith) (omega arith) (omega arith)) in
        let rest =
          from-sweep cs (pre ++ r.0 ∷ []) (key + chunk_size) r.1 r.2
            (omega (arith, place, length-append pre (r.0 ∷ []))) (λ i. sized (suc i))
            (omega (arith, bound, length-append pre (r.0 ∷ []))) in
        let q = retain_from k func (key + chunk_size) cs r.1 r.2 in
        rw more (
          sweep-add chunk_size (length cs * chunk_size) key (with_chunk pre c cs len next)
          ∙ ap (sweep (length cs * chunk_size) (key + chunk_size)) (
              one
              ∙ sym (
                  ap (λ l. record { entries = l; len = r.1; next = r.2 }) (snoc-append pre r.0 cs)))
          ∙ rest
          ∙ ap (λ l. record { entries = l; len = q.1; next = q.2 }) (snoc-append pre r.0 q.0))

  -- On a well-formed slab, `retain` does what removals do one by one, in the order of the keys, of
  -- those whose values `func` rejects.
  pub retain-sweep :
      (k : KeyType) (s : ChunkSlab T) → Inv k s → retain k func s ≡ sweep (capacity s) 0 s
  unfolding retain
  retain-sweep k s inv =
      sym (
        from-sweep k s.entries [] 0 s.len s.next (omega arith) inv.sized (omega (arith, inv.bound)))
