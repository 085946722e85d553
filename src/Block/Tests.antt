-- ===== src/Block/Tests.antt =====
-- Blocking on futures that yield; the world counts wakes and actions.
use juggle.Prelude.{ℕ, ◌+◌, ◌≡◌, refl, Bool, some, ltb, arith}
use juggle.Block.{none_yield, times, poll_yield, poll_times, poll_while, block_on}
use juggle.Block.Loops.{repeat, block_on-times}

-- The wakes and the actions.
abbrev World : Type 0
World = ℕ × ℕ

abbrev wake : World → World
wake w = (w.0 + 1, w.1)

abbrev action : World → World
action w = (w.0, w.1 + 1)

-- The test of `block_on`'s documentation: ten yields, ten actions.
block_on-times_example :
    block_on (poll_times wake) action 11 (times 10) (0, 0) ≡ some (tt, repeat wake action 10 (0, 0))
block_on-times_example = block_on-times wake action 11 10 (0, 0) (omega arith)

ten_yields : repeat wake action 10 (0, 0) ≡ (10, 10)
ten_yields = refl

-- The predicate holds three times.
abbrev below_three : World → Bool × World
below_three w = (ltb w.0 3, w)

while_below_three :
    block_on (λ s. poll_while wake below_three) action 5 tt (0, 0) ≡ some (tt, (3, 3))
unfolding block_on
while_below_three = refl

none_at_once : block_on (poll_yield wake) action 1 none_yield (0, 0) ≡ some (tt, (0, 0))
unfolding block_on
none_at_once = refl
