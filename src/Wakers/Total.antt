-- ===== src/Wakers/Total.antt =====
-- src/utils/mod.rs: `AtomicWakerRegistry` among the owners, and every sequence of operations.
use juggle.Prelude.{
  ℕ, ◌≡◌, refl, ap, false, Option-cases, inl, inr, Option, none, some, List, [], ◌∷◌, get_elem?,
  arith, ok, ◌>>=◌,
}
use juggle.Wakers.{
  Waker, register, clear, notify, notify_wake, Owners, Op, make_arc, share_arc, give_up_arc,
  to_waker, borrowed_clone, borrowed_wake, make_func, make_unowned, clone, wake, wake_by_ref, drop,
  registers, clears, notifies, step, run, nothing, noop,
}
use juggle.Wakers.Counts.{waker_clone-Changes, waker_wake-Changes}
use juggle.Wakers.Owned.{
  refers_inner, IsCounted, settle, Steps, waker-IsAlive, inner-IsAlive, arc_Steps, waker_Steps,
  make_Steps, drop_old-Changes,
}

module _ (s : Owners) (inv : IsCounted s) where
  registers_Steps : (i : ℕ) (w : Waker) → get_elem? s.wakers i ≡ some w → Steps (registers i) s
  unfolding step register
  registers_Steps i w e =
      let (h, did, change) = waker_clone-Changes w s.memory (waker-IsAlive s inv i w e) in
      let (h', did', change') =
        drop_old-Changes s inv s.inner refl h (λ j. omega (arith, change.counts j)) in
      (
        record s { memory = h'; inner = some w },
        rw (e, step) (rw (did, register) (rw did' refl)),
        record {
          counts = λ j. omega (arith, inv.counts j, change.counts j, change'.counts j);
          once = change'.once (change.once inv.once);
        },
      )

  clears_Steps : Steps clears s
  unfolding step clear
  clears_Steps =
      let (h, did, change) = drop_old-Changes s inv s.inner refl s.memory (λ j. omega arith) in
      (
        _,
        rw (did, step, clear) refl,
        settle s (record s { memory = h; inner = none }) _ _ inv change (λ j. omega arith),
      )

  notifies_Steps : Steps notifies s
  unfolding step notify_wake
  notifies_Steps = by_inner s.inner refl
    where
      by_inner :
          (o : Option Waker)
          → s.inner ≡ o
          → (t : Owners) × ((notify o s >>= λ r. ok r.1) ≡ ok t) × IsCounted t
      by_inner none e = (s, refl, inv)
      by_inner (some w) e =
          let (h, did, change) = waker_wake-Changes w s.memory (inner-IsAlive s inv w e) in
          (
            record s { memory = h; inner = none },
            rw did refl,
            settle s (record s { memory = h; inner = none }) _ _ inv change
                (λ j. omega (arith, ap (refers_inner j) e)),
          )

  -- What is out of range is no call.
  on_arc :
      (i : ℕ) (op : Op)
      → (get_elem? s.arcs i ≡ none → step op s ≡ ok s)
      → ((a : ℕ) → get_elem? s.arcs i ≡ some a → Steps op s)
      → Steps op s
  on_arc i op skip does = elim (Option-cases (get_elem? s.arcs i)) [
    | inl e ↦ (s, skip e, inv)
    | inr (a, e) ↦ does a e
  ]

  on_waker :
      (i : ℕ) (op : Op)
      → (get_elem? s.wakers i ≡ none → step op s ≡ ok s)
      → ((w : Waker) → get_elem? s.wakers i ≡ some w → Steps op s)
      → Steps op s
  on_waker i op skip does = elim (Option-cases (get_elem? s.wakers i)) [
    | inl e ↦ (s, skip e, inv)
    | inr (w, e) ↦ does w e
  ]

  step_Steps : (op : Op) → Steps op s
  unfolding step
  step_Steps make_arc = (make_Steps s inv false 0 noop).0
  step_Steps (make_func wide f) = (make_Steps s inv wide f noop).1
  step_Steps (make_unowned k) = (make_Steps s inv false 0 k).2
  step_Steps (share_arc i) =
      on_arc i (share_arc i) (λ e. rw (e, step) refl) (λ a e. (arc_Steps s inv i a e).0)
  step_Steps (give_up_arc i) =
      on_arc i (give_up_arc i) (λ e. rw (e, step) refl) (λ a e. (arc_Steps s inv i a e).1)
  step_Steps (to_waker i) =
      on_arc i (to_waker i) (λ e. rw (e, step) refl) (λ a e. (arc_Steps s inv i a e).2)
  step_Steps (borrowed_clone i) =
      on_arc i (borrowed_clone i) (λ e. rw (e, step) refl) (λ a e. (arc_Steps s inv i a e).3)
  step_Steps (borrowed_wake i) =
      on_arc i (borrowed_wake i) (λ e. rw (e, step) refl) (λ a e. (arc_Steps s inv i a e).4)
  step_Steps (clone i) =
      on_waker i (clone i) (λ e. rw (e, step) refl) (λ w e. (waker_Steps s inv i w e).0)
  step_Steps (wake i) =
      on_waker i (wake i) (λ e. rw (e, step) refl) (λ w e. (waker_Steps s inv i w e).1)
  step_Steps (wake_by_ref i) =
      on_waker i (wake_by_ref i) (λ e. rw (e, step) refl) (λ w e. (waker_Steps s inv i w e).2)
  step_Steps (drop i) =
      on_waker i (drop i) (λ e. rw (e, step) refl) (λ w e. (waker_Steps s inv i w e).3)
  step_Steps (registers i) =
      on_waker i (registers i) (λ e. rw (e, step) refl) (λ w e. registers_Steps i w e)
  step_Steps clears = clears_Steps
  step_Steps notifies = notifies_Steps

run_from :
    (ops : List Op) (s : Owners) → IsCounted s → (t : Owners) × (run ops s ≡ ok t) × IsCounted t
unfolding run
run_from [] s inv = (s, refl, inv)
run_from (op ∷ ops) s inv =
    let (t, did, inv') = step_Steps s inv op in
    let (u, did', inv'') = run_from ops t inv' in (u, rw (did, run) did', inv'')

-- From nothing, no sequence of operations uses an allocation after it was freed. At its end each
-- strong count is the number of the `Arc`s and wakers that own the allocation, the one in the
-- registry with them, and exactly the allocations without an owner were freed, each once.
pub run-IsCounted : (ops : List Op) → (t : Owners) × (run ops nothing ≡ ok t) × IsCounted t
run-IsCounted ops =
    run_from ops nothing (record { counts = λ j. omega arith; once = λ j. ground arith })
