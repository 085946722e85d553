-- ===== src/Static/Careful.antt =====
-- src/st/algorithm.rs and src/st/handle.rs: code that calls `get_id_by_index` as it should be called.
use Prim.Native.String.{String}
use juggle.Prelude.{
  some, get_elem?, length-set, ◌<◌, ◌≡◌, ap, ◌∙◌, ℕ, refl, Bool, true, ltb, Option, none, length,
  if◌then◌else◌, arith, Outcome, ok, panic, ◌>>=◌,
}
use juggle.StaticTask.{StaticFuture, StaticAct, set_reason, set_runnable}
use juggle.Static.{
  StaticAlgorithm, resume, suspend, restart, cancel, guarded, is_valid, wake, run, notify_wake,
  change, get_name, get_by_name, get_current_name, get_id_by_index,
}
use juggle.Static.Inv.{change_lem, Inv, Post}
use juggle.Static.Calls.{
  Call, stay, move, Called, Call-Inv, Called-guarded, resume_Call, suspend_Call, restart_Call,
  cancel_Call,
}
use juggle.Static.Run.{wake_Inv, run-Post}

-- Code that calls `get_id_by_index` only on handles of generation `g` and with indices below `n`.
abbrev pub Careful : {A : Type 0} → ℕ → ℕ → StaticAct A → Type 0
Careful g n (StaticAct.returns a) = Unit {0}
Careful g n (StaticAct.is_valid gen k) = (b : Bool) → Careful g n (k b)
Careful g n (StaticAct.cancel gen key k) = (b : Bool) → Careful g n (k b)
Careful g n (StaticAct.suspend gen key k) = (b : Bool) → Careful g n (k b)
Careful g n (StaticAct.resume gen key k) = (b : Bool) → Careful g n (k b)
Careful g n (StaticAct.restart gen key k) = (b : Bool) → Careful g n (k b)
Careful g n (StaticAct.current gen k) = (o : Option ℕ) → Careful g n (k o)
Careful g n (StaticAct.get_current_name gen k) = (o : Option String) → Careful g n (k o)
Careful g n (StaticAct.get_name gen key k) = (o : Option String) → Careful g n (k o)
Careful g n (StaticAct.get_by_name gen name k) = (o : Option ℕ) → Careful g n (k o)
Careful g n (StaticAct.registered_count gen k) = (m : ℕ) → Careful g n (k m)
Careful g n (StaticAct.get_id_by_index gen index k) =
    (gen ≡ g) × (index < n) × ((key : ℕ) → Careful g n (k key))
Careful g n (StaticAct.wake key k) = Careful g n k

-- Code that does not panic.
abbrev pub Returns : {A : Type 0} → Outcome A → Type 0
Returns (panic p) = ⊥
Returns (ok a) = Unit {0}

module _ {F : Type 0} where
  -- The generation and the number of tasks, which no call changes.
  abbrev Sized : ℕ → ℕ → StaticAlgorithm F → Type 0
  Sized g n s = (s.current_generation ≡ g) × (length s.registry ≡ n)

  Call-Sized :
      (held : Option ℕ) (leak g n : ℕ) (s : StaticAlgorithm F) {t : StaticAlgorithm F}
      → Call held leak s t
      → Sized g n s
      → Sized g n t
  Call-Sized held leak g n s stay size = size
  Call-Sized held leak g n s (move key task val l m u e le grows balance) size =
      (size.0, length-set s.registry key (set_reason val task) ∙ size.1)

  wake-Sized : (g n key : ℕ) (s : StaticAlgorithm F) → Sized g n s → Sized g n (wake key s)
  wake-Sized g n key s size = by_task (get_elem? (notify_wake s).registry key) refl
    where
      same : (notify_wake s).registry ≡ s.registry
      same = ground arith

      by_task :
          (o : Option (StaticFuture F))
          → get_elem? (notify_wake s).registry key ≡ o
          → Sized g n (wake key s)
      by_task none e = rw (e, change) (ground (arith, size), ap length same ∙ size.1)
      by_task (some task) e =
          rw (change_lem (set_runnable true) key (notify_wake s) task e)
            (ground (arith, size), length-set _ key _ ∙ ap length same ∙ size.1)

  bind_Returns :
      {A : Type 0} (held : Option ℕ) (leak g n : ℕ) (s : StaticAlgorithm F)
      (m : Outcome (Bool × StaticAlgorithm F))
      (f : Bool × StaticAlgorithm F → Outcome (A × StaticAlgorithm F))
      → Inv held leak s
      → Sized g n s
      → Called held leak s m
      → ((b : Bool) (l : ℕ) (t : StaticAlgorithm F)
          → Inv held l t
          → Sized g n t
          → Returns (f (b, t)))
      → Returns (m >>= f)
  bind_Returns held leak g n s (panic p) f inv size called next = absurd called
  bind_Returns held leak g n s (ok (b, t)) f inv size called next =
      let (l, le, inv') = Call-Inv held leak s called inv in
      next b l t inv' (Call-Sized held leak g n s called size)

  index-Returns :
      {A : Type 0} (g n index : ℕ) (s : StaticAlgorithm F) (f : ℕ → Outcome (A × StaticAlgorithm F))
      → Sized g n s
      → index < n
      → Returns (f index)
      → Returns (get_id_by_index g index s >>= f)
  unfolding get_id_by_index
  index-Returns g n index s f size below next =
      let valid : is_valid s g ≡ true = ground (arith, size) in
      let inside : ltb index (length s.registry) ≡ true = ground (arith, size, below) in
      rw (valid, inside) next

  run-Returns :
      {A : Type 0} (held : Option ℕ) (leak g n : ℕ) (act : StaticAct A) (s : StaticAlgorithm F)
      → Inv held leak s
      → Sized g n s
      → Careful g n act
      → Returns (run act s)
  unfolding run
  run-Returns held leak g n (StaticAct.returns a) s inv size care = tt
  run-Returns held leak g n (StaticAct.is_valid gen k) s inv size care =
      run-Returns held leak g n (k (is_valid s gen)) s inv size (care _)
  run-Returns held leak g n (StaticAct.cancel gen key k) s inv size care =
      bind_Returns held leak g n s (guarded gen (cancel key) s) _ inv size
        (Called-guarded held leak gen s (cancel key) (cancel_Call held leak key s inv))
        (λ b l t inv' size'. run-Returns held l g n (k b) t inv' size' (care b))
  run-Returns held leak g n (StaticAct.suspend gen key k) s inv size care =
      bind_Returns held leak g n s (guarded gen (λ t. ok (suspend key t)) s) _ inv size
        (Called-guarded held leak gen s (λ t. ok (suspend key t))
          (suspend_Call held leak key s inv))
        (λ b l t inv' size'. run-Returns held l g n (k b) t inv' size' (care b))
  run-Returns held leak g n (StaticAct.resume gen key k) s inv size care =
      bind_Returns held leak g n s (guarded gen (resume key) s) _ inv size
        (Called-guarded held leak gen s (resume key) (resume_Call held leak key s inv))
        (λ b l t inv' size'. run-Returns held l g n (k b) t inv' size' (care b))
  run-Returns held leak g n (StaticAct.restart gen key k) s inv size care =
      bind_Returns held leak g n s (guarded gen (restart key) s) _ inv size
        (Called-guarded held leak gen s (restart key) (restart_Call held leak key s inv))
        (λ b l t inv' size'. run-Returns held l g n (k b) t inv' size' (care b))
  run-Returns held leak g n (StaticAct.current gen k) s inv size care =
      run-Returns held leak g n (k (if is_valid s gen then s.current else none)) s inv size (care _)
  run-Returns held leak g n (StaticAct.get_current_name gen k) s inv size care =
      run-Returns held leak g n (k (if is_valid s gen then get_current_name s else none)) s inv size
        (care _)
  run-Returns held leak g n (StaticAct.get_name gen key k) s inv size care =
      run-Returns held leak g n (k (if is_valid s gen then get_name s key else none)) s inv size
        (care _)
  run-Returns held leak g n (StaticAct.get_by_name gen name k) s inv size care =
      run-Returns held leak g n (k (if is_valid s gen then get_by_name s name else none)) s inv size
        (care _)
  run-Returns held leak g n (StaticAct.registered_count gen k) s inv size care =
      run-Returns held leak g n (k (if is_valid s gen then length s.registry else 0)) s inv size
        (care _)
  run-Returns held leak g n (StaticAct.get_id_by_index gen index k) s inv size (same, below, care) =
      rw same (
        index-Returns g n index s _ size below
          (run-Returns held leak g n (k index) s inv size (care index)))
  run-Returns held leak g n (StaticAct.wake key k) s inv size care =
      run-Returns held leak g n k (wake key s) (wake_Inv held leak key s inv)
        (wake-Sized g n key s size) care

  -- The code of a static task, from a state with the invariant, whatever calls it makes on handles,
  -- valid or not: if it panics then with a panic of get_id_by_index, and if it returns then the
  -- invariant holds again, and the count of suspended tasks exceeds the true one by no less than
  -- before. Code that calls get_id_by_index only on valid handles and with indices of tasks does
  -- return.
  pub run-Careful :
      {A : Type 0} (held : Option ℕ) (leak : ℕ) (act : StaticAct A) (s : StaticAlgorithm F)
      → Inv held leak s
      → Post held leak (run act s)
        × (Careful s.current_generation (length s.registry) act → Returns (run act s))
  run-Careful held leak act s inv = (
    run-Post held leak act s inv,
    λ care.
        run-Returns held leak s.current_generation (length s.registry) act s inv (refl, refl) care,
  )
