-- ===== src/Wakers/Owned.antt =====
-- src/utils/mod.rs: the owners of the allocations in every sequence of operations.
use juggle.Prelude.{
  ℕ, ◌+◌, ◌<◌, ◌≤◌, ◌≡◌, refl, ap, ◌∙◌, subst, Bool, true, false, Option, none, some, ◌∷◌,
  get_elem?, sum_by, le-sum_by, without_at, sum_by-without_at, arith, ok,
}
use juggle.Wakers.{
  Unowned, Waker, unowned, dynamic, Memory, new_arc, drop_old, Owners, Op, make_arc, share_arc,
  give_up_arc, to_waker, borrowed_clone, borrowed_wake, make_func, make_unowned, clone, wake,
  wake_by_ref, drop, step, func,
}
use juggle.Wakers.Counts.{
  strong_of, is_at, refers, FreedOnce, Changes, IsAlive, unchanged, clone_arc-Changes,
  drop_arc-Changes, new_arc-Changes, waker_clone-Changes, waker_drop-Changes,
  waker_wake_by_ref-Changes, waker_wake-Changes,
}

abbrev pub refers_inner : ℕ → Option Waker → ℕ
refers_inner j none = 0
refers_inner j (some w) = refers j w

-- The `Arc`s and the wakers that own the allocation.
abbrev pub owned : ℕ → Owners → ℕ
owned j s = sum_by (is_at j) s.arcs + (sum_by (refers j) s.wakers + refers_inner j s.inner)

pub record IsCounted (s : Owners) : Type 0 where
  pub counts : (j : ℕ) → strong_of j s.memory ≡ owned j s
  pub once : FreedOnce s.memory

-- A step that changes the counts as it changes the owners.
pub settle :
    (s t : Owners) (more less : ℕ → ℕ)
    → IsCounted s
    → Changes more less s.memory t.memory
    → ((j : ℕ) → owned j t + less j ≡ owned j s + more j)
    → IsCounted t
settle s t more less inv did same = record {
  counts = λ j. omega (arith, inv.counts j, did.counts j, same j);
  once = did.once inv.once;
}

abbrev pub Steps : Op → Owners → Type 0
Steps op s = (t : Owners) × (step op s ≡ ok t) × IsCounted t

module _ (s : Owners) (inv : IsCounted s) where
  arc-alive : (i a : ℕ) → get_elem? s.arcs i ≡ some a → 0 < strong_of a s.memory
  arc-alive i a e =
      let one : is_at a a ≡ 1 = ground arith in
      omega (arith, one, le-sum_by (is_at a) s.arcs i a e, inv.counts a)

  pub waker-IsAlive : (i : ℕ) (w : Waker) → get_elem? s.wakers i ≡ some w → IsAlive w s.memory
  waker-IsAlive i w e a at =
      let one : refers a w ≡ 1 = ap (refers a) at ∙ ground arith in
      omega (arith, one, le-sum_by (refers a) s.wakers i w e, inv.counts a)

  pub inner-IsAlive : (w : Waker) → s.inner ≡ some w → IsAlive w s.memory
  inner-IsAlive w e a at =
      let one : refers a w ≡ 1 = ap (refers a) at ∙ ground arith in
      let there : refers_inner a s.inner ≡ refers a w = ap (refers_inner a) e in
      omega (arith, one, there, inv.counts a)

  -- The operations on an `Arc` at a place.
  pub arc_Steps :
      (i a : ℕ)
      → get_elem? s.arcs i ≡ some a
      → Steps (share_arc i) s
        × Steps (give_up_arc i) s
        × Steps (to_waker i) s
        × Steps (borrowed_clone i) s
        × Steps (borrowed_wake i) s
  unfolding step
  arc_Steps i a e =
      let up = arc-alive i a e in
      let live : IsAlive (dynamic a) s.memory =
        λ b at. subst (λ c. 0 < strong_of c s.memory) (dynamic_injective at) up in
      let (h, did, change) = clone_arc-Changes a s.memory up in
      let (h', did', change') = drop_arc-Changes a s.memory up in
      let (h'', did'', change'') = waker_clone-Changes (dynamic a) s.memory live in
      let (h3, did3, same3, same3') = waker_wake_by_ref-Changes (dynamic a) s.memory live in
      (
        (
          _,
          rw (e, step) (rw did refl),
          settle s (record s { memory = h; arcs = a ∷ s.arcs }) _ _ inv change (λ j. omega arith),
        ),
        (
          _,
          rw (e, step) (rw did' refl),
          settle s (record s { memory = h'; arcs = without_at i s.arcs }) _ _ inv change'
              (λ j. omega (arith, sum_by-without_at (is_at j) s.arcs i a e)),
        ),
        (
          _,
          rw (e, step) refl,
          settle s (record s { arcs = without_at i s.arcs; wakers = dynamic a ∷ s.wakers }) _ _ inv
              (unchanged s.memory s.memory refl refl)
              (λ j. omega (arith, sum_by-without_at (is_at j) s.arcs i a e)),
        ),
        (
          _,
          rw (e, step) (rw did'' refl),
          settle s (record s { memory = h''; wakers = dynamic a ∷ s.wakers }) _ _ inv change''
              (λ j. omega arith),
        ),
        (
          _,
          rw (e, step) (rw did3 refl),
          settle s (record s { memory = h3 }) _ _ inv (unchanged s.memory h3 same3 same3')
              (λ j. omega arith),
        ),
      )
    where
      dynamic_injective : {b c : ℕ} → dynamic b ≡ dynamic c → b ≡ c
      dynamic_injective q = cc

  -- The operations on a waker at a place, but for those of the registry.
  pub waker_Steps :
      (i : ℕ) (w : Waker)
      → get_elem? s.wakers i ≡ some w
      → Steps (clone i) s × Steps (wake i) s × Steps (wake_by_ref i) s × Steps (drop i) s
  unfolding step
  waker_Steps i w e =
      let live = waker-IsAlive i w e in
      let (h, did, change) = waker_clone-Changes w s.memory live in
      let (h', did', change') = waker_wake-Changes w s.memory live in
      let (h'', did'', same, same') = waker_wake_by_ref-Changes w s.memory live in
      let (h3, did3, change3) = waker_drop-Changes w s.memory live in
      (
        (
          _,
          rw (e, step) (rw did refl),
          settle s (record s { memory = h; wakers = w ∷ s.wakers }) _ _ inv change
              (λ j. omega arith),
        ),
        (
          _,
          rw (e, step) (rw did' refl),
          settle s (record s { memory = h'; wakers = without_at i s.wakers }) _ _ inv change'
              (λ j. omega (arith, sum_by-without_at (refers j) s.wakers i w e)),
        ),
        (
          _,
          rw (e, step) (rw did'' refl),
          settle s (record s { memory = h'' }) _ _ inv (unchanged s.memory h'' same same')
              (λ j. omega arith),
        ),
        (
          _,
          rw (e, step) (rw did3 refl),
          settle s (record s { memory = h3; wakers = without_at i s.wakers }) _ _ inv change3
              (λ j. omega (arith, sum_by-without_at (refers j) s.wakers i w e)),
        ),
      )

  pub make_Steps :
      (wide : Bool) (f : ℕ) (k : Unowned)
      → Steps make_arc s × Steps (make_func wide f) s × Steps (make_unowned k) s
  unfolding step
  make_Steps wide f k = (
    (
      _,
      refl,
      settle s (record s { memory = (new_arc s.memory).1; arcs = (new_arc s.memory).0 ∷ s.arcs }) _
          _ inv (new_arc-Changes s.memory) (λ j. omega arith),
    ),
    by_width wide,
    (
      _,
      refl,
      settle s (record s { wakers = unowned k ∷ s.wakers }) _ _ inv
          (unchanged s.memory s.memory refl refl) (λ j. omega arith),
    ),
  )
    where
      by_width : (b : Bool) → Steps (make_func b f) s
      by_width true = (
        _,
        refl,
        settle s
            (record s {
              memory = (new_arc s.memory).1;
              wakers = dynamic (new_arc s.memory).0 ∷ s.wakers;
            })
            _ _ inv (new_arc-Changes s.memory) (λ j. omega arith),
      )
      by_width false = (
        _,
        refl,
        settle s (record s { wakers = unowned (func f) ∷ s.wakers }) _ _ inv
            (unchanged s.memory s.memory refl refl) (λ j. omega arith),
      )

  -- The old waker of the registry drops.
  pub drop_old-Changes :
      (o : Option Waker)
      → s.inner ≡ o
      → (h : Memory) → ((j : ℕ) → strong_of j s.memory ≤ strong_of j h)
      → (h' : Memory) × (drop_old o h ≡ ok h') × Changes (λ j. 0) (λ j. refers_inner j o) h h'
  drop_old-Changes none e h le = (h, refl, unchanged h h refl refl)
  drop_old-Changes (some w) e h le =
      waker_drop-Changes w h (λ a at. omega (arith, le a, inner-IsAlive w e a at))
