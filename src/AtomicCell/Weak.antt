-- ===== src/AtomicCell/Weak.antt =====
-- src/utils/cell.rs: a spurious failure of `compare_exchange_weak` yields `Err(false)`, which
-- `unwrap_or_else(identity)` takes for a success.
use juggle.Prelude.{refl, ◌≢◌, Bool, true, false, List, [], ◌∷◌}
use juggle.AtomicCell.{
  Op, swaps, Answer, swapped, Phase, starting, reading, working, writing, releasing, returned,
  Memory, new, advance, Run, start, spawn, acts,
}
use juggle.AtomicCell.Order.{Replays}

module _ {T R : Type 0} where
  -- Two threads, and steps of each with an exchange that fails spuriously.
  abbrev pub both : Bool → T → Phase T R → Phase T R → Memory T R
  both mark cell p q = record { mark = mark; cell = cell; threads = p ∷ q ∷ [] }

  abbrev pub doubled : T → T → T → List (Op T R × Answer T R)
  doubled value a b = (swaps a, swapped value) ∷ (swaps b, swapped value) ∷ []

  -- Two threads that swap `a` and `b` into a cell with another content than `a`, the exchange of the
  -- first failing spuriously, can both get that content back and leave `b` in the cell, so that no
  -- thread has got `a`; neither order of the two calls, each alone, gives these answers and this
  -- content.
  pub run-Doubled :
      (value a b : T)
      → a ≢ value
      → Run true
          (new value)
          (doubled value a b)
          (both false b (returned (swapped value)) (returned (swapped value)))
        × ¬ Replays value (doubled value a b) b
        × ¬ Replays value (doubled value b a) b
  unfolding advance
  run-Doubled value a b other = (
    (acts false 1 (releasing (swapped value)) (λ e. refl) refl
        (acts false 1 (writing (swaps b) b (swapped value)) (λ e. refl) refl
          (acts false 0 (releasing (swapped value)) (λ e. refl) refl
            (acts false 0 (writing (swaps a) a (swapped value)) (λ e. refl) refl
              (acts false 1 (working (swaps b) value) (λ e. refl) refl
                (acts false 0 (working (swaps a) value) (λ e. refl) refl
                  (acts false 1 (reading (swaps b)) (λ e. refl) refl
                    (acts false 0 (reading (swaps a)) (λ e. refl) refl
                      (acts false 1 (starting (swaps b)) (λ e. refl) refl
                        (acts true 0 (starting (swaps a)) (λ e. refl) refl
                          (spawn (swaps b) (spawn (swaps a) start)))))))))))),
    λ replays. other (cc (replays.1.0)),
    λ replays. other (cc (replays.1.0, replays.1.1)),
  )
