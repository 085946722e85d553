-- ===== src/AtomicCell/Order.antt =====
-- src/utils/cell.rs: the order in which calls take effect.
use juggle.Prelude.{
  ℕ, ◌+◌, ◌≡◌, refl, sym, ap, subst, true, false, Option, none, some, List, [], ◌∷◌, ◌++◌, arith,
}
use juggle.AtomicCell.{
  Op, swaps, applies, Answer, swapped, applied, panicked, Phase, starting, refused, reading,
  working, writing, releasing, returned, Memory, new, advance, call, step, effect, panics, Run,
  start, spawn, acts,
}
use juggle.AtomicCell.Exclusion.{perform, Fits, run-Inv, new-Inv}

module _ {T R : Type 0} where
  -- The calls run alone, in this order, from the content `a` to the content `b`, with these answers.
  abbrev pub Replays : T → List (Op T R × Answer T R) → T → Type 0
  Replays a [] b = a ≡ b
  Replays a (e ∷ log) b = ((perform e.0 a).0 ≡ e.1) × Replays (perform e.0 a).1 log b

  Replays-append :
      (a : T) (log more : List (Op T R × Answer T R)) (b c : T)
      → Replays a log b
      → Replays b more c
      → Replays a (log ++ more) c
  Replays-append a [] more b c h k = subst (λ x. Replays x more c) (sym h) k
  Replays-append a (e ∷ log) more b c h k =
      (h.0, Replays-append (perform e.0 a).1 log more b c h.1 k)

  effect-Replays :
      (s : Memory T R) (i : ℕ) (p : Phase T R)
      → Fits s.cell p
      → Replays s.cell (effect p) (step false i p s).cell
  unfolding advance
  effect-Replays s i (starting op) fit = refl
  effect-Replays s i (refused op) fit = refl
  effect-Replays s i (reading op) fit = refl
  effect-Replays s i (working (swaps value) first) fit = refl
  effect-Replays s i (working (applies func) first) fit = by_result (func first) (ap func (sym fit))
    where
      by_result :
          (o : Option (R × T))
          → func s.cell ≡ o
          → Replays s.cell (panics (applies func) (call (applies func) o)) s.cell
      by_result none e = rw e (refl, refl)
      by_result (some r) e = refl
  effect-Replays s i (writing op value answer) fit = (ap (λ r. r.0) fit, ap (λ r. r.1) fit)
  effect-Replays s i (releasing answer) fit = refl
  effect-Replays s i (returned answer) fit = refl

  -- However the calls of the threads on a cell interleave, when exchanges do not fail spuriously the
  -- calls that took effect give what they give one after the other, each alone, from the first
  -- content to the last; a function that panics changes nothing.
  pub run-Replays :
      (value : T) {log : List (Op T R × Answer T R)} {t : Memory T R}
      → Run false (new value) log t
      → Replays value log t.cell
  run-Replays value start = refl
  run-Replays value (spawn op r) = run-Replays value r
  run-Replays value (acts true i p allowed at r) = absurd (cc (allowed refl))
  run-Replays value (acts {log} {t} false i p allowed at r) =
      Replays-append value log (effect p) t.cell _ (run-Replays value r)
        (effect-Replays t i p ((run-Inv r (new-Inv value)).fits i p at))

  -- The weights of the values that the swaps were given, and of those that they gave back.
  abbrev pub given : (T → ℕ) → List (Op T R × Answer T R) → ℕ
  given w [] = 0
  given w ((swaps value, answer) ∷ log) = w value + given w log
  given w ((applies func, answer) ∷ log) = given w log

  abbrev pub got_back : (T → ℕ) → List (Op T R × Answer T R) → ℕ
  got_back w [] = 0
  got_back w ((op, swapped first) ∷ log) = w first + got_back w log
  got_back w ((op, applied r) ∷ log) = got_back w log
  got_back w ((op, panicked) ∷ log) = got_back w log

  -- Only swaps.
  abbrev pub AllSwaps : List (Op T R × Answer T R) → Type 0
  AllSwaps [] = Unit
  AllSwaps ((swaps value, answer) ∷ log) = AllSwaps log
  AllSwaps ((applies func, answer) ∷ log) = ⊥

  Replays-balance :
      (w : T → ℕ) (a : T) (log : List (Op T R × Answer T R)) (b : T)
      → AllSwaps log
      → Replays a log b
      → w a + given w log ≡ w b + got_back w log
  Replays-balance w a [] b all h = omega (arith, ap w h)
  Replays-balance w a ((swaps value, swapped first) ∷ log) b all h =
      omega (arith, same, Replays-balance w value log b all h.1)
    where
      same : w a ≡ w first
      same = cc (h.0)
  Replays-balance w a ((swaps value, applied r) ∷ log) b all h = absurd (cc (h.0))
  Replays-balance w a ((swaps value, panicked) ∷ log) b all h = absurd (cc (h.0))
  Replays-balance w a ((applies func, answer) ∷ log) b all h = elim all [ ]

  -- However swaps on a cell interleave, when exchanges do not fail spuriously each value that was
  -- given is given back once or is the content: for every weight of values, the first content and the
  -- given values weigh what the last content and the values given back do.
  run-balance :
      (w : T → ℕ) (value : T) {log : List (Op T R × Answer T R)} {t : Memory T R}
      → Run false (new value) log t
      → AllSwaps log
      → w value + given w log ≡ w t.cell + got_back w log
  run-balance w value r all = Replays-balance w value _ _ all (run-Replays value r)
