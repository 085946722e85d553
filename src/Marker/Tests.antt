-- ===== src/Marker/Tests.antt =====
-- A put that a take meets in between.
use juggle.Prelude.{ℕ, ◌≡◌, ◌≢◌, refl, true, Option, none, some, [], ◌∷◌, arith}
use juggle.Marker.{
  idle, borrowed, Phase, put_start, put_write, put_release, put_take, put_swap, take_start, put_end,
  take_end, broken, taken_during_put, during_put, Memory, advance, new, Run, start, puts, takes,
  acts,
}
use juggle.Marker.Exclusion.{inside, run-Alone}
use juggle.Marker.Notice.{run-TakenDuringPut}

abbrev left_early : Phase ℕ
left_early = take_end during_put

abbrev fresh : Memory ℕ
fresh = new (some 1)

-- The take finds PUTTING before the put writes.
abbrev met : Memory ℕ
met = record {
  mark = record { putting = true; marking = true };
  value = some 1;
  dropped = [];
  threads = put_write (borrowed 2) ∷ take_end during_put ∷ [];
}

met_run : Run fresh met
unfolding advance
met_run =
    acts 1 take_start refl (acts 0 (put_start (borrowed 2)) refl (takes (puts (borrowed 2) start)))

run-Alone_example : (inside left_early ≡ 0) × (left_early ≢ broken)
run-Alone_example =
    run-Alone (some 1) 0 1 (put_write (borrowed 2)) (take_end during_put) met_run refl refl
      (λ e. omega (arith, e)) refl

-- The put then takes its value back; the one before it was dropped.
abbrev over : Memory ℕ
over = record {
  mark = idle;
  value = none;
  dropped = 1 ∷ [];
  threads = put_end (taken_during_put (some 2)) ∷ take_end during_put ∷ [];
}

over_run : Run met over
unfolding advance
over_run =
    acts 0 (put_swap (some 2)) refl
      (acts 0 put_take refl (acts 0 put_release refl (acts 0 (put_write (borrowed 2)) refl start)))

run-TakenDuringPut_example : (v : Option ℕ) × (taken_during_put (some 2) ≡ taken_during_put v)
run-TakenDuringPut_example =
    run-TakenDuringPut (some 1) 0 (put_write (borrowed 2)) (taken_during_put (some 2)) met_run refl
      refl refl over_run refl
