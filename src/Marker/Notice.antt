-- ===== src/Marker/Notice.antt =====
-- src/st/atomic_marker.rs: a take during a put, and what the put returns.
use juggle.Prelude.{
  ℕ, ◌≡◌, refl, sym, ◌∙◌, subst, ◌⊎◌, inl, inr, Bool, true, false, Option, some, [], ◌∷◌, ◌++◌,
  get_elem?, set, ◌==◌, arith, get_elem?-set, get_elem?-append, lt_of_get_elem?, Bool-cases,
}
use juggle.Marker.{
  Mark, Phase, put_start, put_write, put_release, put_take, put_swap, take_start, take_value,
  take_release, put_end, take_end, broken, PutResult, taken_during_put, success, taken_before_put,
  concurrent_put, Memory, advance, new, step, Run, start, puts, takes, acts, end_put,
}
use juggle.Marker.Moves.{Inv, putter}
use juggle.Marker.Exclusion.{new-Inv, run-Inv, step-Inv, step-Moves, putting_held}

module _ {T : Type 0} where
  -- Phases of a put on the word `m`, which will find that a take came in between.
  abbrev Noticing : Mark → Phase T → Type 0
  Noticing m (put_write v) = m.marking ≡ true
  Noticing m put_release = m.marking ≡ true
  Noticing m put_take = Unit
  Noticing m (put_swap v) = Unit
  Noticing m (put_end (taken_during_put v)) = Unit
  Noticing m p = ⊥

  record Notices (i : ℕ) (s : Memory T) : Type 0 where
    phase : Phase T
    at : get_elem? s.threads i ≡ some phase
    stage : Noticing s.mark phase

  -- A step of another thread; a put that is not over holds the word.
  Noticing-other :
      (m m' : Mark) (p : Phase T)
      → Noticing m p
      → (m.marking ≡ true → m'.marking ≡ true) ⊎ (m'.putting ≡ false)
      → (putter p ≡ 1 → m'.putting ≡ true)
      → Noticing m' p
  Noticing-other m m' (put_start v) h keep own = h
  Noticing-other m m' (put_write v) h (inl stays) own = stays h
  Noticing-other m m' (put_write v) h (inr over) own = absurd (cc (over, own refl))
  Noticing-other m m' put_release h (inl stays) own = stays h
  Noticing-other m m' put_release h (inr over) own = absurd (cc (over, own refl))
  Noticing-other m m' put_take h keep own = tt
  Noticing-other m m' (put_swap v) h keep own = tt
  Noticing-other m m' take_start h keep own = h
  Noticing-other m m' take_value h keep own = h
  Noticing-other m m' (take_release v) h keep own = h
  Noticing-other m m' (put_end (taken_during_put v)) h keep own = tt
  Noticing-other m m' (put_end success) h keep own = h
  Noticing-other m m' (put_end (taken_before_put v)) h keep own = h
  Noticing-other m m' (put_end (concurrent_put v)) h keep own = h
  Noticing-other m m' (take_end r) h keep own = h
  Noticing-other m m' broken h keep own = h

  -- A step of the thread itself.
  Noticing-self :
      (s : Memory T) (p : Phase T)
      → Noticing s.mark p
      → (putter p ≡ 1 → s.mark.putting ≡ true)
      → Noticing
          (advance (record { mark = s.mark; value = s.value; dropped = s.dropped; phase = p })).mark
          (advance
            (record { mark = s.mark; value = s.value; dropped = s.dropped; phase = p })).phase
  unfolding advance
  Noticing-self s (put_start v) h own = absurd h
  Noticing-self s (put_write v) h own = h
  Noticing-self s put_release h own = released s.mark.putting s.mark.marking (own refl) h
    where
      released :
          (x y : Bool) → x ≡ true → y ≡ true → Noticing (end_put {T = T} x y).0 (end_put x y).1
      released true true e f = tt
      released true false e f = absurd (cc f)
      released false y e f = absurd (cc e)
  Noticing-self s put_take h own = tt
  Noticing-self s (put_swap v) h own = tt
  Noticing-self s take_start h own = absurd h
  Noticing-self s take_value h own = absurd h
  Noticing-self s (take_release v) h own = absurd h
  Noticing-self s (put_end (taken_during_put v)) h own = tt
  Noticing-self s (put_end success) h own = absurd h
  Noticing-self s (put_end (taken_before_put v)) h own = absurd h
  Noticing-self s (put_end (concurrent_put v)) h own = absurd h
  Noticing-self s (take_end r) h own = absurd h
  Noticing-self s broken h own = absurd h

  Notices-spawn :
      (i : ℕ) (s : Memory T) (q : Phase T)
      → Notices i s
      → Notices i (record s { threads = s.threads ++ (q ∷ []) })
  Notices-spawn i s q h = record {
    phase = h.phase;
    at =
        ground
          (arith, get_elem?-append s.threads (q ∷ []) i, lt_of_get_elem? s.threads i h.at, h.at);
    stage = h.stage;
  }

  Notices-step :
      (i j : ℕ) (s : Memory T) (q : Phase T)
      → Inv s
      → get_elem? s.threads j ≡ some q
      → Notices i s
      → Notices i (step j q s)
  Notices-step i j s q inv at h = elim (Bool-cases (j == i)) [
    | inl same ↦ record {
      phase = _;
      at = own_place same;
      stage =
          Noticing-self s q (subst (Noticing s.mark) (here same) h.stage)
            (putting_held s j q inv at);
    }
    | inr ne ↦ record {
      phase = h.phase;
      at = away ne;
      stage =
          Noticing-other s.mark (step j q s).mark h.phase h.stage (step-Moves s j q inv at).3
            (putting_held (step j q s) i h.phase (step-Inv s j q inv at) (away ne));
    }
  ]
    where
      next : Phase T
      next =
          (advance
            (record { mark = s.mark; value = s.value; dropped = s.dropped; phase = q })).phase

      here : (j == i) ≡ true → h.phase ≡ q
      here same = ground (arith, same, at, h.at)

      own_place : (j == i) ≡ true → get_elem? (set s.threads j next) i ≡ some next
      own_place same =
          ground (arith, same, get_elem?-set s.threads j i next, lt_of_get_elem? s.threads j at)

      away : (j == i) ≡ false → get_elem? (set s.threads j next) i ≡ some h.phase
      away ne = ground (arith, ne, get_elem?-set s.threads j i next, h.at)

  run-Notices : (i : ℕ) {s t : Memory T} → Run s t → Inv s → Notices i s → Notices i t
  run-Notices i start inv h = h
  run-Notices i (puts v r) inv h = Notices-spawn i _ (put_start v) (run-Notices i r inv h)
  run-Notices i (takes r) inv h = Notices-spawn i _ take_start (run-Notices i r inv h)
  run-Notices i (acts j q at r) inv h =
      Notices-step i j _ q (run-Inv r inv) at (run-Notices i r inv h)

  begins : (m : Mark) (p : Phase T) → putter p ≡ 1 → m.marking ≡ true → Noticing m p
  begins m (put_start v) e marked = absurd (omega (arith, e))
  begins m (put_write v) e marked = marked
  begins m put_release e marked = marked
  begins m put_take e marked = tt
  begins m (put_swap v) e marked = tt
  begins m take_start e marked = absurd (omega (arith, e))
  begins m take_value e marked = absurd (omega (arith, e))
  begins m (take_release v) e marked = absurd (omega (arith, e))
  begins m (put_end r) e marked = absurd (omega (arith, e))
  begins m (take_end r) e marked = absurd (omega (arith, e))
  begins m broken e marked = absurd (omega (arith, e))

  ends :
      (m : Mark) (r : PutResult T)
      → Noticing m (put_end r)
      → (v : Option T) × (r ≡ taken_during_put v)
  ends m (taken_during_put v) h = (v, refl)
  ends m success h = absurd h
  ends m (taken_before_put v) h = absurd h
  ends m (concurrent_put v) h = absurd h

  -- When the word is marked while a thread is between the exchanges of `try_put`, as a `take` does that
  -- returns `ConcurrentPut`, then whatever steps follow, that call can only return `TakenDuringPut`.
  pub run-TakenDuringPut :
      (value : Option T) {s t : Memory T} (i : ℕ) (p : Phase T) (r : PutResult T)
      → Run (new value) s
      → get_elem? s.threads i ≡ some p
      → putter p ≡ 1
      → s.mark.marking ≡ true
      → Run s t
      → get_elem? t.threads i ≡ some (put_end r)
      → (v : Option T) × (r ≡ taken_during_put v)
  run-TakenDuringPut value {s} {t} i p r before at one marked after at' =
      let inv = run-Inv before (new-Inv value) in
      let last =
        run-Notices i after inv
          (record { phase = p; at = at; stage = begins s.mark p one marked }) in
      ends t.mark r (subst (Noticing t.mark) (same last.phase last.at) last.stage)
    where
      same : (q : Phase T) → get_elem? t.threads i ≡ some q → q ≡ put_end r
      same q at'' = injective (sym at'' ∙ at')
        where
          injective : some q ≡ some (put_end r) → q ≡ put_end r
          injective e = cc
