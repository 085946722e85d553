-- ===== src/Registry/Tests.antt =====
-- A registry of numbers in a debug build, and the theorem on it.
use juggle.Prelude.{
  ℕ, ◌-◌, ◌^◌, ◌≡◌, refl, some, [], ◌∷◌, Outcome, ok, panic, remove_borrowed, insert_in_iteration,
}
use juggle.Slab.{init_chunk}
use juggle.Slab
use juggle.Registry
use juggle.Registry.Flags.{
  Flagged, new, get, drop_borrow, iter, drop_iter, insert, remove, guard_retain, retain,
}
use juggle.Registry.Borrows.{Run, start, borrowed, iterating, inserted, IsGuarded}
use juggle.Registry.Guarded.{run-IsGuarded}

abbrev usize_max : ℕ
usize_max = 2 ^ 64 - 1

abbrev after : {A : Type 0} → Flagged ℕ → Outcome (A × Flagged ℕ) → Flagged ℕ
after g (ok (a, g')) = g'
after g (panic p) = g

abbrev one : Flagged ℕ
one = after new (insert usize_max 30 new)

abbrev lent : Flagged ℕ
lent = after one (get usize_max 0 one)

abbrev viewed : Flagged ℕ
viewed = after lent (iter usize_max lent)

-- To compute with a registry, unfold this.
evaluates : Unit {0}
unfolding insert get iter drop_borrow drop_iter remove guard_retain retain Registry.insert
    Registry.remove Slab.insert Slab.remove init_chunk Slab.iter Slab.iter_from Slab.iter_chunk
evaluates = tt

refusals :
    (remove usize_max 0 lent ≡ panic remove_borrowed)
    × (insert usize_max 31 viewed ≡ panic insert_in_iteration)
unfolding evaluates
refusals = (refl, refl)

viewed-Run : Run ℕ usize_max refl viewed ((0, 30) ∷ []) (((0, 30) ∷ []) ∷ [])
unfolding evaluates
viewed-Run = iterating ((0, 30) ∷ []) (borrowed 0 30 (inserted 30 (some 0) start refl) refl) refl

run-IsGuarded_example : IsGuarded ℕ usize_max refl viewed ((0, 30) ∷ []) (((0, 30) ∷ []) ∷ [])
run-IsGuarded_example = run-IsGuarded ℕ usize_max refl viewed-Run
