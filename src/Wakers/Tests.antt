-- ===== src/Wakers/Tests.antt =====
-- A run of wakers, and the theorem on it.
use juggle.Prelude.{ℕ, ◌≡◌, refl, List, [], ◌∷◌, Outcome, ok, panic}
use juggle.Wakers.{
  Waker, dynamic, Owners, Op, make_arc, to_waker, drop, registers, notifies, run, step, nothing,
  register, notify_wake, clone_arc, drop_arc, waker_clone, waker_drop, waker_wake,
  waker_wake_by_ref,
}
use juggle.Wakers.Owned.{IsCounted}
use juggle.Wakers.Total.{run-IsCounted}

-- A waker is made, registered, dropped, and woken through the registry.
abbrev ops : List Op
ops = make_arc ∷ to_waker 0 ∷ registers 0 ∷ drop 0 ∷ notifies ∷ []

abbrev freed_of : Outcome Owners → List ℕ
freed_of (ok t) = t.memory.freed
freed_of (panic p) = []

abbrev woken_of : Outcome Owners → List Waker
woken_of (ok t) = t.memory.woken
woken_of (panic p) = []

freed_at_the_end :
    (freed_of (run ops nothing) ≡ 0 ∷ []) × (woken_of (run ops nothing) ≡ dynamic 0 ∷ [])
unfolding run step register notify_wake clone_arc drop_arc waker_clone waker_drop waker_wake
    waker_wake_by_ref
freed_at_the_end = (refl, refl)

run-IsCounted_example : (t : Owners) × (run ops nothing ≡ ok t) × IsCounted t
run-IsCounted_example = run-IsCounted ops
