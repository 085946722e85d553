-- ===== src/AtomicCell/Exclusion.antt =====
-- src/utils/cell.rs: which threads hold the mark, and how what they hold relates to the content.
use juggle.Prelude.{
  ℕ, ◌+◌, ◌≤◌, ◌≡◌, ◌≢◌, refl, sym, ap, subst, ◌⊎◌, inl, inr, Bool, true, false, Option, none, some,
  List, [], ◌∷◌, ◌++◌, get_elem?, set, sum_by, sum_by-set, sum_by-append, le-sum_by, le-sum_by_two,
  get_elem?-set, get_elem?-snoc, lt_of_get_elem?, ◌==◌, if◌then◌else◌, arith, Bool-cases,
}
use juggle.AtomicCell.{
  Op, swaps, applies, Answer, swapped, applied, panicked, Phase, starting, refused, reading,
  working, writing, releasing, returned, Local, Memory, new, advance, work, call, step, Run, start,
  spawn, acts, enter, compare_exchange_weak, put_back,
}

abbrev pub held : Bool → ℕ
held mark = if mark then 1 else 0

held_le : (mark : Bool) → held mark ≤ 1
held_le mark = ground arith

module _ {T R : Type 0} where
  abbrev settle : T → Option (R × T) → Answer T R × T
  settle cell none = (panicked, cell)
  settle cell (some r) = (applied r.0, r.1)

  -- A call that runs alone.
  abbrev pub perform : Op T R → T → Answer T R × T
  perform (swaps value) cell = (swapped cell, value)
  perform (applies func) cell = settle cell (func cell)

  -- 1 for a thread that has the mark.
  abbrev pub inside : Phase T R → ℕ
  inside (starting op) = 0
  inside (refused op) = 0
  inside (reading op) = 1
  inside (working op first) = 1
  inside (writing op value answer) = 1
  inside (releasing answer) = 1
  inside (returned answer) = 0

  -- What a thread holds fits the content.
  abbrev pub Fits : T → Phase T R → Type 0
  Fits cell (starting op) = Unit
  Fits cell (refused op) = Unit
  Fits cell (reading op) = Unit
  Fits cell (working op first) = first ≡ cell
  Fits cell (writing op value answer) = perform op cell ≡ (answer, value)
  Fits cell (releasing answer) = Unit
  Fits cell (returned answer) = Unit

  pub record Inv (s : Memory T R) : Type 0 where
    pub one : sum_by inside s.threads ≡ held s.mark
    pub fits : (i : ℕ) (p : Phase T R) → get_elem? s.threads i ≡ some p → Fits s.cell p

  Fits-outside : (cell : T) (p : Phase T R) → inside p ≡ 0 → Fits cell p
  Fits-outside cell (starting op) e = tt
  Fits-outside cell (refused op) e = tt
  Fits-outside cell (reading op) e = absurd (omega (arith, e))
  Fits-outside cell (working op first) e = absurd (omega (arith, e))
  Fits-outside cell (writing op value answer) e = absurd (omega (arith, e))
  Fits-outside cell (releasing answer) e = tt
  Fits-outside cell (returned answer) e = tt

  -- A thread that moves, and changes the content only if it has the mark.
  move-Inv :
      (s : Memory T R) (i : ℕ) (p : Phase T R) (l : Local T R)
      → Inv s
      → get_elem? s.threads i ≡ some p
      → inside l.phase + held s.mark ≡ inside p + held l.mark
      → Fits l.cell l.phase
      → (l.cell ≡ s.cell) ⊎ (inside p ≡ 1)
      → Inv (put_back i s l)
  move-Inv s i p l inv at weighed fit own = record {
    one = omega (arith, sum_by-set inside s.threads i p l.phase at, inv.one, weighed);
    fits = others;
  }
    where
      away :
          (j : ℕ) (q : Phase T R)
          → (i == j) ≡ false
          → get_elem? s.threads j ≡ some q
          → (l.cell ≡ s.cell) ⊎ (inside p ≡ 1)
          → Fits l.cell q
      away j q ne at' (inl same) = subst (λ c. Fits c q) (sym same) (inv.fits j q at')
      away j q ne at' (inr mine) = Fits-outside l.cell q (
          omega (
            arith,
            mine,
            inv.one,
            held_le s.mark,
            le-sum_by_two inside s.threads i j p q ne at at',
          ))

      others :
          (j : ℕ) (q : Phase T R) → get_elem? (set s.threads i l.phase) j ≡ some q → Fits l.cell q
      others j q at' = elim (Bool-cases (i == j)) [
        | inl same ↦ subst (Fits l.cell) (here same) fit
        | inr ne ↦ away j q ne (ground (arith, at', ne, get_elem?-set s.threads i j l.phase)) own
      ]
        where
          here : (i == j) ≡ true → l.phase ≡ q
          here same = ground (
            arith,
            at',
            same,
            get_elem?-set s.threads i j l.phase,
            lt_of_get_elem? s.threads i at,
          )

  spawn-Inv :
      (s : Memory T R) (op : Op T R)
      → Inv s
      → Inv (record s { threads = s.threads ++ (starting op ∷ []) })
  spawn-Inv s op inv = record {
    one = omega (arith, sum_by-append inside s.threads (starting op ∷ []), inv.one);
    fits = λ j q at. elim (get_elem?-snoc s.threads (starting op) j q at) [
      | inl old ↦ inv.fits j q old
      | inr newest ↦ subst (Fits s.cell) newest tt
    ];
  }

  -- The value after the work on `first`, which is the content.
  work-Fits :
      (op : Op T R) (first cell : T)
      → first ≡ cell
      → (inside (work op first) ≡ 1) × Fits cell (work op first)
  work-Fits (swaps value) first cell same = (refl, ap (λ c. (swapped c, value)) (sym same))
  work-Fits (applies func) first cell same = by_result (func first) (ap func (sym same))
    where
      by_result :
          (o : Option (R × T))
          → func cell ≡ o
          → (inside (call (applies func) o) ≡ 1) × Fits cell (call (applies func) o)
      by_result none e = (refl, tt)
      by_result (some r) e = (refl, rw e refl)

  -- The exchange.
  enter-Fits :
      (op : Op T R) (mark : Bool) (cell : T)
      → (inside (enter (compare_exchange_weak false mark).0 op) + held mark
          ≡ held (compare_exchange_weak false mark).1)
        × Fits cell (enter (compare_exchange_weak false mark).0 op)
  enter-Fits op true cell = (refl, tt)
  enter-Fits op false cell = (refl, tt)

  step-Inv :
      (s : Memory T R) (i : ℕ) (p : Phase T R)
      → Inv s
      → get_elem? s.threads i ≡ some p
      → Inv (step false i p s)
  unfolding advance
  step-Inv s i (starting op) inv at =
      let did = enter-Fits op s.mark s.cell in
      move-Inv s i (starting op) _ inv at (omega (arith, did.0)) did.1 (inl refl)
  step-Inv s i (refused op) inv at = move-Inv s i (refused op) _ inv at refl tt (inl refl)
  step-Inv s i (reading op) inv at = move-Inv s i (reading op) _ inv at refl refl (inl refl)
  step-Inv s i (working op first) inv at =
      let did = work-Fits op first s.cell (inv.fits i (working op first) at) in
      move-Inv s i (working op first) _ inv at (ap (λ n. n + held s.mark) did.0) did.1 (inl refl)
  step-Inv s i (writing op value answer) inv at =
      move-Inv s i (writing op value answer) _ inv at refl tt (inr refl)
  step-Inv s i (releasing answer) inv at =
      move-Inv s i (releasing answer) _ inv at
        (omega (arith, held_le s.mark, inv.one, le-sum_by inside s.threads i (releasing answer) at))
        tt (inl refl)
  step-Inv s i (returned answer) inv at = move-Inv s i (returned answer) _ inv at refl tt (inl refl)

  pub new-Inv : (value : T) → Inv (new value)
  new-Inv value = record { one = refl; fits = λ i p at. absurd (cc at) }

  pub run-Inv :
      {s : Memory T R} {log : List (Op T R × Answer T R)} {t : Memory T R}
      → Run false s log t
      → Inv s
      → Inv t
  run-Inv start inv = inv
  run-Inv (spawn op r) inv = spawn-Inv _ op (run-Inv r inv)
  run-Inv (acts true i p allowed at r) inv = absurd (cc (allowed refl))
  run-Inv (acts false i p allowed at r) inv = step-Inv _ i p (run-Inv r inv) at

  inside_le : (p : Phase T R) → inside p ≤ 1
  inside_le p = ground arith

  -- However the calls of the threads on a cell interleave, when exchanges do not fail spuriously and
  -- one thread is between the exchange and the release of the mark, no other thread is.
  pub run-Exclusive :
      (value : T) {log : List (Op T R × Answer T R)} {t : Memory T R} (i j : ℕ) (p q : Phase T R)
      → Run false (new value) log t
      → get_elem? t.threads i ≡ some p
      → get_elem? t.threads j ≡ some q
      → i ≢ j
      → inside p ≡ 1
      → inside q ≡ 0
  run-Exclusive value {log} {t} i j p q r at at' other one = omega (
    arith,
    one,
    inside_le q,
    held_le t.mark,
    (run-Inv r (new-Inv value)).one,
    le-sum_by_two inside t.threads i j p q (ground (arith, other)) at at',
  )
