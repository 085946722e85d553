-- ===== src/Prelude/Without.antt =====
-- Lists without the element at a place.
use Prim.Native.Nat.{ℕ, zero, suc, ◌+◌, ◌<◌}
use mathlib.Core.Path.{◌≡◌}
use mathlib.Core.List.{List, [], ◌∷◌}
use mathlib.Core.Option.{some}
use native.Mathlib.Omega.{arith}
use juggle.Prelude.Lists.{length, get_elem?, sum_by}

module _ {ℓ} {A : Type ℓ} where
  abbrev pub without_at : ℕ → List A → List A
  without_at i [] = []
  without_at zero (x ∷ xs) = xs
  without_at (suc i) (x ∷ xs) = x ∷ without_at i xs

  pub length-without_at :
      (xs : List A) (i : ℕ) → i < length xs → length xs ≡ length (without_at i xs) + 1
  length-without_at [] i h = absurd (omega (arith, h))
  length-without_at (x ∷ xs) zero h = omega arith
  length-without_at (x ∷ xs) (suc i) h = omega (arith, length-without_at xs i (omega (arith, h)))

  pub get_elem?-without_at :
      (xs : List A) (i j : ℕ) (x : A)
      → get_elem? (without_at i xs) j ≡ some x
      → (k : ℕ) × (get_elem? xs k ≡ some x)
  get_elem?-without_at [] i j x e = (j, e)
  get_elem?-without_at (y ∷ xs) zero j x e = (suc j, e)
  get_elem?-without_at (y ∷ xs) (suc i) zero x e = (zero, e)
  get_elem?-without_at (y ∷ xs) (suc i) (suc j) x e =
      let (k, e') = get_elem?-without_at xs i j x e in (suc k, e')

  pub sum_by-without_at :
      (w : A → ℕ) (xs : List A) (i : ℕ) (x : A)
      → get_elem? xs i ≡ some x
      → sum_by w xs ≡ sum_by w (without_at i xs) + w x
  sum_by-without_at w [] i x e = cc
  sum_by-without_at w (y ∷ xs) zero x e = ground (arith, e)
  sum_by-without_at w (y ∷ xs) (suc i) x e = omega (arith, sum_by-without_at w xs i x e)
