-- ===== src/Marker/Moves.antt =====
-- src/st/atomic_marker.rs: what the steps do to the word and to the threads that hold it.
use juggle.Prelude.{
  ℕ, ◌+◌, ◌≤◌, ◌≡◌, refl, ap, ◌∙◌, subst, ◌⊎◌, inl, inr, Bool, true, false, not, ◌&&◌, Option, some,
  get_elem?, set, ◌==◌, if◌then◌else◌, arith, sum_by, sum_by-set, le-sum_by, get_elem?-set,
  lt_of_get_elem?, Bool-cases,
}
use juggle.Marker.{
  Mark, idle, Given, Phase, put_start, put_write, put_release, put_take, put_swap, take_start,
  take_value, take_release, put_end, take_end, broken, Memory, Local, begin_put, end_put,
  begin_take, put_back,
}

abbrev pub held : Bool → ℕ
held b = if b then 1 else 0

held_le : (b : Bool) → held b ≤ 1
held_le b = ground arith

-- The word is marked, and not by a take during a put.
abbrev pub taking : Mark → Bool
taking m = m.marking && not m.putting

pub held_sum_le : (m : Mark) → held m.putting + held (taking m) ≤ 1
held_sum_le m = ground arith

module _ {T : Type 0} where
  -- 1 for a thread that is between the exchanges of `try_put`.
  abbrev pub putter : Phase T → ℕ
  putter (put_write v) = 1
  putter put_release = 1
  putter put_take = 1
  putter (put_swap v) = 1
  putter p = 0

  -- 1 for a thread that is between `fetch_or` and `fetch_and` of `take`.
  abbrev pub taker : Phase T → ℕ
  taker take_value = 1
  taker (take_release v) = 1
  taker p = 0

  abbrev pub Sound : Mark → Phase T → Type 0
  Sound m put_take = m.marking ≡ true
  Sound m (put_swap v) = m.marking ≡ true
  Sound m broken = ⊥
  Sound m p = Unit

  pub record Inv (s : Memory T) : Type 0 where
    pub putters : sum_by putter s.threads ≡ held s.mark.putting
    pub takers : sum_by taker s.threads ≡ held (taking s.mark)
    pub sound : (i : ℕ) (p : Phase T) → get_elem? s.threads i ≡ some p → Sound s.mark p

  Sound-quiet : (m m' : Mark) (p : Phase T) → Sound m p → putter p ≡ 0 → Sound m' p
  Sound-quiet m m' (put_start v) h e = tt
  Sound-quiet m m' (put_write v) h e = tt
  Sound-quiet m m' put_release h e = tt
  Sound-quiet m m' put_take h e = absurd (omega (arith, e))
  Sound-quiet m m' (put_swap v) h e = absurd (omega (arith, e))
  Sound-quiet m m' take_start h e = tt
  Sound-quiet m m' take_value h e = tt
  Sound-quiet m m' (take_release v) h e = tt
  Sound-quiet m m' (put_end r) h e = tt
  Sound-quiet m m' (take_end r) h e = tt
  Sound-quiet m m' broken h e = h

  Sound-kept :
      (m m' : Mark) (p : Phase T) → (m.marking ≡ true → m'.marking ≡ true) → Sound m p → Sound m' p
  Sound-kept m m' (put_start v) keep h = tt
  Sound-kept m m' (put_write v) keep h = tt
  Sound-kept m m' put_release keep h = tt
  Sound-kept m m' put_take keep h = keep h
  Sound-kept m m' (put_swap v) keep h = keep h
  Sound-kept m m' take_start keep h = tt
  Sound-kept m m' take_value keep h = tt
  Sound-kept m m' (take_release v) keep h = tt
  Sound-kept m m' (put_end r) keep h = tt
  Sound-kept m m' (take_end r) keep h = tt
  Sound-kept m m' broken keep h = h

  -- What a thread's step does to the word and to its own phase.
  abbrev pub Moves : Mark → Mark → Phase T → Phase T → Type 0
  Moves m m' p q =
      (putter q + held m.putting ≡ putter p + held m'.putting)
      × (taker q + held (taking m) ≡ taker p + held (taking m'))
      × Sound m' q
      × ((m.marking ≡ true → m'.marking ≡ true) ⊎ (m'.putting ≡ false))

  pub move-Inv :
      (s : Memory T) (i : ℕ) (p : Phase T) (l : Local T)
      → Inv s
      → get_elem? s.threads i ≡ some p
      → Moves s.mark l.mark p l.phase
      → Inv (put_back i s l)
  move-Inv s i p l inv at (a, b, own, other) = record {
    putters = putters';
    takers = omega (arith, sum_by-set taker s.threads i p l.phase at, inv.takers, b);
    sound = λ j q at'. elim (Bool-cases (i == j)) [
      | inl same ↦
          subst (Sound l.mark)
            (ground (
              arith,
              at',
              same,
              get_elem?-set s.threads i j l.phase,
              lt_of_get_elem? s.threads i at,
            ))
            own
      | inr ne ↦
          keep j q at'
            (inv.sound j q (ground (arith, at', ne, get_elem?-set s.threads i j l.phase))) other
    ];
  }
    where
      putters' : sum_by putter (set s.threads i l.phase) ≡ held l.mark.putting
      putters' = omega (arith, sum_by-set putter s.threads i p l.phase at, inv.putters, a)

      keep :
          (j : ℕ) (q : Phase T)
          → get_elem? (set s.threads i l.phase) j ≡ some q
          → Sound s.mark q
          → (s.mark.marking ≡ true → l.mark.marking ≡ true) ⊎ (l.mark.putting ≡ false)
          → Sound l.mark q
      keep j q at' h (inl stays) = Sound-kept s.mark l.mark q stays h
      keep j q at' h (inr none_puts) = Sound-quiet s.mark l.mark q h (
          omega (
            arith,
            le-sum_by putter (set s.threads i l.phase) j q at',
            putters' ∙ ap held none_puts,
          ))

  pub begin_put-Moves :
      (v : Given T) (x y : Bool)
      → Moves
          (record { putting = x; marking = y })
          (begin_put v x y).0
          (put_start v)
          (begin_put v x y).1
  begin_put-Moves v false false = (refl, refl, tt, inl (λ e. e))
  begin_put-Moves v false true = (refl, refl, tt, inl (λ e. e))
  begin_put-Moves v true false = (refl, refl, tt, inl (λ e. e))
  begin_put-Moves v true true = (refl, refl, tt, inl (λ e. e))

  pub put_swap-Moves :
      (v : Option T) (x y : Bool) (r : _)
      → x ≡ true
      → Moves (record { putting = x; marking = y }) idle (put_swap v) (put_end r)
  put_swap-Moves v false y r e = absurd (cc e)
  put_swap-Moves v true false r e = (refl, refl, tt, inr refl)
  put_swap-Moves v true true r e = (refl, refl, tt, inr refl)

  pub take_release-Moves :
      (v : Option T) (x y : Bool) (r : _)
      → (y && not x) ≡ true
      → Moves
          (record { putting = x; marking = y })
          (record { putting = x; marking = false })
          (take_release v)
          (take_end r)
  take_release-Moves v false true r e = (refl, refl, tt, inr refl)
  take_release-Moves v false false r e = absurd (cc e)
  take_release-Moves v true y r e = absurd (ground (arith, e))

module _ (T : Type 0) where
  pub end_put-Moves :
      (x y : Bool)
      → x ≡ true
      → Moves {T = T}
          (record { putting = x; marking = y })
          (end_put {T = T} x y).0
          put_release
          (end_put x y).1
  end_put-Moves false y e = absurd (cc e)
  end_put-Moves true false e = (refl, refl, tt, inr refl)
  end_put-Moves true true e = (refl, refl, refl, inl (λ e'. e'))

  pub begin_take-Moves :
      (x y : Bool)
      → Moves
          (record { putting = x; marking = y })
          (record { putting = x; marking = true })
          take_start
          (begin_take {T = T} x y)
  begin_take-Moves false false = (refl, refl, tt, inl (λ e. refl))
  begin_take-Moves false true = (refl, refl, tt, inl (λ e. refl))
  begin_take-Moves true false = (refl, refl, tt, inl (λ e. refl))
  begin_take-Moves true true = (refl, refl, tt, inl (λ e. refl))
