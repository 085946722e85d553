-- ===== src/AtomicCell/Tests.antt =====
-- Runs of threads on a cell.
use juggle.Prelude.{ℕ, zero, ◌+◌, ◌≡◌, refl, true, false, some, List, [], ◌∷◌, arith}
use juggle.AtomicCell.{
  Op, swaps, applies, Answer, swapped, applied, starting, refused, reading, working, writing,
  releasing, returned, Memory, new, advance, Run, start, spawn, acts,
}
use juggle.AtomicCell.Exclusion.{inside, run-Exclusive}
use juggle.AtomicCell.Order.{Replays, run-Replays}
use juggle.AtomicCell.Weak.{both, doubled, run-Doubled}

abbrev Log : Type 0
Log = List (Op ℕ ℕ × Answer ℕ ℕ)

abbrev three : ℕ
three = 3

abbrev fresh : Memory ℕ ℕ
fresh = new 1

-- The second thread finds the mark held by the first one.
abbrev halfway : Memory ℕ ℕ
halfway = record { mark = true; cell = 1; threads = working (swaps 2) 1 ∷ refused (swaps 3) ∷ [] }

halfway_run : Run false fresh [] halfway
unfolding advance
halfway_run =
    acts false 0 (reading (swaps 2)) (λ e. e) refl
      (acts false 1 (starting (swaps 3)) (λ e. e) refl
        (acts false 0 (starting (swaps 2)) (λ e. e) refl (spawn (swaps 3) (spawn (swaps 2) start))))

run-Exclusive_example : inside {R = ℕ} (refused (swaps three)) ≡ zero
run-Exclusive_example =
    run-Exclusive 1 0 1 (working (swaps 2) 1) (refused (swaps 3)) halfway_run refl refl
      (λ e. omega (arith, e)) refl

-- The first thread is done, and a third one adds 10 to the content.
abbrev log : Log
log = (swaps 2, swapped 1) ∷ (applies (λ v. some (v, v + 10)), applied 2) ∷ []

abbrev finished : Memory ℕ ℕ
finished = record {
  mark = true;
  cell = 12;
  threads = returned (swapped 1) ∷ refused (swaps 3) ∷ releasing (applied 2) ∷ [];
}

finished_run : Run false fresh log finished
unfolding advance
finished_run =
    acts false 2 (writing (applies (λ v. some (v, v + 10))) 12 (applied 2)) (λ e. e) refl
      (acts false 2 (working (applies (λ v. some (v, v + 10))) 2) (λ e. e) refl
        (acts false 2 (reading (applies (λ v. some (v, v + 10)))) (λ e. e) refl
          (acts false 2 (starting (applies (λ v. some (v, v + 10)))) (λ e. e) refl
            (spawn (applies (λ v. some (v, v + 10))) swap_run))))
  where
    swap_run :
        Run false fresh ((swaps 2, swapped 1) ∷ []) (record {
          mark = false;
          cell = 2;
          threads = returned (swapped 1) ∷ refused (swaps 3) ∷ [];
        })
    swap_run =
        acts false 0 (releasing (swapped 1)) (λ e. e) refl
          (acts false 0 (writing (swaps 2) 2 (swapped 1)) (λ e. e) refl
            (acts false 0 (working (swaps 2) 1) (λ e. e) refl halfway_run))

run-Replays_example : Replays 1 log 12
run-Replays_example = run-Replays 1 finished_run

-- Two swaps one after the other.
abbrev swaps_log : Log
swaps_log = (swaps 5, swapped 1) ∷ (swaps 6, swapped 5) ∷ []

abbrev after_swaps : Memory ℕ ℕ
after_swaps = record {
  mark = true;
  cell = 6;
  threads = returned (swapped 1) ∷ releasing (swapped 5) ∷ [];
}

swaps_run : Run false fresh swaps_log after_swaps
unfolding advance
swaps_run =
    acts false 1 (writing (swaps 6) 6 (swapped 5)) (λ e. e) refl
      (acts false 1 (working (swaps 6) 5) (λ e. e) refl
        (acts false 1 (reading (swaps 6)) (λ e. e) refl
          (acts false 1 (starting (swaps 6)) (λ e. e) refl
            (spawn (swaps 6) (
              acts false 0 (releasing (swapped 1)) (λ e. e) refl
                (acts false 0 (writing (swaps 5) 5 (swapped 1)) (λ e. e) refl
                  (acts false 0 (working (swaps 5) 1) (λ e. e) refl
                    (acts false 0 (reading (swaps 5)) (λ e. e) refl
                      (acts false 0 (starting (swaps 5)) (λ e. e) refl
                        (spawn (swaps 5) start))))))))))

run-Doubled_example :
    Run true fresh (doubled 1 2 3) (both false 3 (returned (swapped 1)) (returned (swapped 1)))
    × ¬ Replays {T = ℕ} {R = ℕ} 1 (doubled 1 2 3) 3
    × ¬ Replays {T = ℕ} {R = ℕ} 1 (doubled 1 3 2) 3
run-Doubled_example = run-Doubled 1 2 3 (λ e. omega (arith, e))
