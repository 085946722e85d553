-- ===== src/Prelude/Range.antt =====
-- Sums over the numbers below a bound; with weights 0 and 1 they count.
use Prim.Native.Nat.{ℕ, zero, suc, ◌+◌, ◌≤◌, ◌<◌}
use mathlib.Core.Path.{◌≡◌, refl}
use mathlib.Core.Logic.{◌≢◌}
use native.Mathlib.Decide.{dec_lt}
use native.Mathlib.Omega.{arith}

unfoldable pub sum_below : ℕ → (ℕ → ℕ) → ℕ
sum_below zero w = 0
sum_below (suc n) w = sum_below n w + w n

pub sum_below-zero : (w : ℕ → ℕ) → sum_below 0 w ≡ 0
unfolding sum_below
sum_below-zero w = refl

pub sum_below-suc : (n : ℕ) (w : ℕ → ℕ) → sum_below (suc n) w ≡ sum_below n w + w n
unfolding sum_below
sum_below-suc n w = refl

pub sum_below-cong :
    (n : ℕ) (v w : ℕ → ℕ) → ((j : ℕ) → j < n → v j ≡ w j) → sum_below n v ≡ sum_below n w
unfolding sum_below
sum_below-cong zero v w h = refl
sum_below-cong (suc n) v w h =
    omega (arith, sum_below-cong n v w (λ j lt. h j (omega arith)), h n (omega arith))

-- Two weights that differ at one number.
pub sum_below-change :
    (n : ℕ) (v w : ℕ → ℕ) (i : ℕ)
    → i < n
    → ((j : ℕ) → j < n → j ≢ i → w j ≡ v j)
    → sum_below n w + v i ≡ sum_below n v + w i
unfolding sum_below
sum_below-change zero v w i lt h = absurd (omega arith)
sum_below-change (suc n) v w i lt h = elim (dec_lt i n) [
  | yes below ↦ omega (
    arith,
    sum_below-change n v w i below (λ j l. h j (omega arith)),
    h n (omega arith) (omega arith),
  )
  | no last ↦
      let e : i ≡ n = omega arith in
      rw e (omega (arith, sum_below-cong n w v (λ j l. h j (omega arith) (omega arith))))
]

-- A bound that grows by numbers of weight zero.
pub sum_below-grow :
    (n m : ℕ) (w : ℕ → ℕ) → ((j : ℕ) → n ≤ j → w j ≡ 0) → sum_below (n + m) w ≡ sum_below n w
unfolding sum_below
sum_below-grow n zero w h = let e : n + 0 ≡ n = omega arith in rw e
sum_below-grow n (suc m) w h =
    let e : n + suc m ≡ suc (n + m) = omega arith in
    rw e (omega (arith, sum_below-grow n m w h, h (n + m) (omega arith)))

pub sum_below_mono : (n : ℕ) (v w : ℕ → ℕ) → ((j : ℕ) → v j ≤ w j) → sum_below n v ≤ sum_below n w
unfolding sum_below
sum_below_mono zero v w h = omega arith
sum_below_mono (suc n) v w h = omega (arith, sum_below_mono n v w h, h n)

-- Equal sums of weights in order are equal at each number.
pub eq_of_sum_below :
    (n : ℕ) (v w : ℕ → ℕ)
    → ((j : ℕ) → v j ≤ w j)
    → sum_below n v ≡ sum_below n w
    → (k : ℕ) → k < n
    → v k ≡ w k
unfolding sum_below
eq_of_sum_below zero v w h e k lt = absurd (omega arith)
eq_of_sum_below (suc n) v w h e k lt = elim (dec_lt k n) [
  | yes below ↦ eq_of_sum_below n v w h (omega (arith, sum_below_mono n v w h, h n)) k below
  | no last ↦ let at : k ≡ n = omega arith in rw at (omega (arith, sum_below_mono n v w h, h n))
]

-- A smaller sum is smaller at some number.
pub lt_of_sum_below :
    (n : ℕ) (v w : ℕ → ℕ) → sum_below n v < sum_below n w → (k : ℕ) × (k < n) × (v k < w k)
unfolding sum_below
lt_of_sum_below zero v w h = absurd (omega arith)
lt_of_sum_below (suc n) v w h = elim (dec_lt (v n) (w n)) [
  | yes here ↦ (n, omega arith, here)
  | no not_here ↦ let (k, lt, less) = lt_of_sum_below n v w (omega arith) in (k, omega arith, less)
]

pub le-sum_below : (n : ℕ) (w : ℕ → ℕ) (k : ℕ) → k < n → w k ≤ sum_below n w
unfolding sum_below
le-sum_below zero w k lt = absurd (omega arith)
le-sum_below (suc n) w k lt = elim (dec_lt k n) [
  | yes below ↦ omega (arith, le-sum_below n w k below)
  | no last ↦ let at : k ≡ n = omega arith in rw at (omega arith)
]

pub pos_of_sum_below : (n : ℕ) (w : ℕ → ℕ) → 0 < sum_below n w → (k : ℕ) × (k < n) × (0 < w k)
unfolding sum_below
pos_of_sum_below zero w h = absurd (omega arith)
pos_of_sum_below (suc n) w h = elim (dec_lt 0 (w n)) [
  | yes here ↦ (n, omega arith, here)
  | no not_here ↦ let (k, lt, pos) = pos_of_sum_below n w (omega arith) in (k, omega arith, pos)
]

pub sum_below-one : (n : ℕ) → sum_below n (λ j. 1) ≡ n
unfolding sum_below
sum_below-one zero = refl
sum_below-one (suc n) = omega (arith, sum_below-one n)

pub sum_below-eq_zero : (n : ℕ) (w : ℕ → ℕ) → ((j : ℕ) → w j ≡ 0) → sum_below n w ≡ 0
unfolding sum_below
sum_below-eq_zero zero w h = refl
sum_below-eq_zero (suc n) w h = omega (arith, sum_below-eq_zero n w h, h n)
