-- ===== src/Marker/Exclusion.antt =====
-- src/st/atomic_marker.rs: which threads may access the value.
use juggle.Prelude.{
  ℕ, ◌+◌, ◌≤◌, ◌≡◌, ◌≢◌, refl, subst, inl, inr, true, Option, some, [], ◌∷◌, ◌++◌, get_elem?, arith,
  sum_by-append, le-sum_by, le-sum_by_two, get_elem?-snoc,
}
use juggle.Marker.{
  Phase, put_start, put_write, put_release, put_take, put_swap, take_start, take_value,
  take_release, put_end, take_end, broken, Memory, taken_during_put, take_result, advance, new,
  step, Run, start, puts, takes, acts,
}
use juggle.Marker.Moves.{
  taking, held_sum_le, putter, taker, Sound, Inv, Moves, move-Inv, begin_put-Moves, put_swap-Moves,
  take_release-Moves, end_put-Moves, begin_take-Moves,
}

module _ {T : Type 0} where
  pub putting_held :
      (s : Memory T) (i : ℕ) (p : Phase T)
      → Inv s
      → get_elem? s.threads i ≡ some p
      → putter p ≡ 1
      → s.mark.putting ≡ true
  putting_held s i p inv at one =
      ground (arith, le-sum_by putter s.threads i p at, inv.putters, one)

  taking_held :
      (s : Memory T) (i : ℕ) (p : Phase T)
      → Inv s
      → get_elem? s.threads i ≡ some p
      → taker p ≡ 1
      → taking s.mark ≡ true
  taking_held s i p inv at one = ground (arith, le-sum_by taker s.threads i p at, inv.takers, one)

  pub step-Moves :
      (s : Memory T) (i : ℕ) (p : Phase T)
      → Inv s
      → get_elem? s.threads i ≡ some p
      → Moves s.mark
          (step i p s).mark
          p
          (advance
            (record { mark = s.mark; value = s.value; dropped = s.dropped; phase = p })).phase
  unfolding advance
  step-Moves s i (put_start v) inv at = begin_put-Moves v s.mark.putting s.mark.marking
  step-Moves s i (put_write v) inv at = (refl, refl, tt, inl (λ e. e))
  step-Moves s i put_release inv at =
      end_put-Moves T s.mark.putting s.mark.marking (putting_held s i put_release inv at refl)
  step-Moves s i put_take inv at = (refl, refl, inv.sound i put_take at, inl (λ e. e))
  step-Moves s i (put_swap v) inv at =
      put_swap-Moves v s.mark.putting s.mark.marking (taken_during_put v)
        (putting_held s i (put_swap v) inv at refl)
  step-Moves s i take_start inv at = begin_take-Moves T s.mark.putting s.mark.marking
  step-Moves s i take_value inv at = (refl, refl, tt, inl (λ e. e))
  step-Moves s i (take_release v) inv at =
      take_release-Moves v s.mark.putting s.mark.marking (take_result v)
        (taking_held s i (take_release v) inv at refl)
  step-Moves s i (put_end r) inv at = (refl, refl, tt, inl (λ e. e))
  step-Moves s i (take_end r) inv at = (refl, refl, tt, inl (λ e. e))
  step-Moves s i broken inv at = absurd (inv.sound i broken at)

  pub step-Inv :
      (s : Memory T) (i : ℕ) (p : Phase T)
      → Inv s
      → get_elem? s.threads i ≡ some p
      → Inv (step i p s)
  step-Inv s i p inv at = move-Inv s i p _ inv at (step-Moves s i p inv at)

  pub spawn-Inv :
      (s : Memory T) (p : Phase T)
      → putter p ≡ 0
      → taker p ≡ 0
      → Sound s.mark p
      → Inv s
      → Inv (record s { threads = s.threads ++ (p ∷ []) })
  spawn-Inv s p no_put no_take fine inv = record {
    putters = omega (arith, sum_by-append putter s.threads (p ∷ []), inv.putters, no_put);
    takers = omega (arith, sum_by-append taker s.threads (p ∷ []), inv.takers, no_take);
    sound = λ j q at. elim (get_elem?-snoc s.threads p j q at) [
      | inl old ↦ inv.sound j q old
      | inr newest ↦ subst (Sound s.mark) newest fine
    ];
  }

  pub new-Inv : (value : Option T) → Inv (new value)
  new-Inv value = record { putters = refl; takers = refl; sound = λ i p at. absurd (cc at) }

  pub run-Inv : {s t : Memory T} → Run s t → Inv s → Inv t
  run-Inv start inv = inv
  run-Inv (puts v r) inv = spawn-Inv _ (put_start v) refl refl tt (run-Inv r inv)
  run-Inv (takes r) inv = spawn-Inv _ take_start refl refl tt (run-Inv r inv)
  run-Inv (acts i p at r) inv = step-Inv _ i p (run-Inv r inv) at

  -- A thread that may access the value.
  abbrev pub inside : Phase T → ℕ
  inside p = putter p + taker p

  inside_le : (p : Phase T) → inside p ≤ 1
  inside_le p = ground arith

  -- However calls of `try_put` and `take` interleave, when one thread is where it may access the value
  -- no other thread is, and no other thread has failed an assertion.
  pub run-Alone :
      (value : Option T) {t : Memory T} (i j : ℕ) (p q : Phase T)
      → Run (new value) t
      → get_elem? t.threads i ≡ some p
      → get_elem? t.threads j ≡ some q
      → i ≢ j
      → inside p ≡ 1
      → (inside q ≡ 0) × (q ≢ broken)
  run-Alone value {t} i j p q r at at' other one =
      let inv = run-Inv r (new-Inv value) in
      (
        omega (
          arith,
          one,
          inside_le q,
          held_sum_le t.mark,
          inv.putters,
          inv.takers,
          le-sum_by_two putter t.threads i j p q (ground (arith, other)) at at',
          le-sum_by_two taker t.threads i j p q (ground (arith, other)) at at',
          le-sum_by taker t.threads i p at,
          le-sum_by putter t.threads j q at',
          le-sum_by putter t.threads i p at,
          le-sum_by taker t.threads j q at',
        ),
        λ e. subst (Sound t.mark) e (inv.sound j q at'),
      )
