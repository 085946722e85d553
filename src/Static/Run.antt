-- ===== src/Static/Run.antt =====
-- src/st/algorithm.rs: the calls that a task makes on handles in a poll.
use juggle.Prelude.{
  ℕ, ◌≤◌, refl, inl, inr, Bool, true, ltb, Bool-cases, Option, none, length, if◌then◌else◌, arith,
  Outcome, ok, panic, ◌>>=◌,
}
use juggle.StaticTask.{StaticAct, set_runnable}
use juggle.Static.{
  StaticAlgorithm, resume, suspend, restart, cancel, guarded, is_valid, wake, run, notify_wake,
  get_name, get_by_name, get_current_name, get_id_by_index,
}
use juggle.Static.Inv.{Inv, Post, Inv-frame, change_Inv}
use juggle.Static.Calls.{
  Called, Call-Inv, Called-guarded, resume_Call, suspend_Call, restart_Call, cancel_Call,
}

module _ {F : Type 0} where
  pub Post-mono :
      {A : Type 0} (held : Option ℕ) (m n : ℕ) (r : Outcome (A × StaticAlgorithm F))
      → m ≤ n
      → Post held n r
      → Post held m r
  Post-mono held m n (panic p) le post = post
  Post-mono held m n (ok (a, s)) le (l, le', inv) = (l, omega arith, inv)

  bind_Post :
      {A : Type 0} (held : Option ℕ) (leak : ℕ) (s : StaticAlgorithm F)
      (m : Outcome (Bool × StaticAlgorithm F))
      (f : Bool × StaticAlgorithm F → Outcome (A × StaticAlgorithm F))
      → Inv held leak s
      → Called held leak s m
      → ((b : Bool) (l : ℕ) (t : StaticAlgorithm F) → Inv held l t → Post held l (f (b, t)))
      → Post held leak (m >>= f)
  bind_Post held leak s (panic p) f inv called next = absurd called
  bind_Post held leak s (ok (b, t)) f inv called next =
      let (l, le, inv') = Call-Inv held leak s called inv in
      Post-mono held leak l (f (b, t)) le (next b l t inv')

  pub wake_Inv :
      (held : Option ℕ) (leak key : ℕ) (s : StaticAlgorithm F)
      → Inv held leak s
      → Inv held leak (wake key s)
  wake_Inv held leak key s inv =
      change_Inv held leak (set_runnable true) key (notify_wake s) (λ t. refl) (λ t. refl)
        (Inv-frame held leak s (notify_wake s) (ground arith) (ground arith) inv)

  index_ByIndex :
      {A : Type 0} (held : Option ℕ) (leak gen index : ℕ) (s : StaticAlgorithm F)
      (f : ℕ → Outcome (A × StaticAlgorithm F))
      → ((key : ℕ) → Post held leak (f key))
      → Post held leak (get_id_by_index gen index s >>= f)
  unfolding get_id_by_index
  index_ByIndex held leak gen index s f next = elim (Bool-cases (is_valid s gen)) [
    | inr stale ↦ rw stale (inl refl)
    | inl valid ↦ elim (Bool-cases (ltb index (length s.registry))) [
      | inl below ↦ rw (valid, below) (next index)
      | inr above ↦ rw (valid, above) (inr refl)
    ]
  ]

  -- The code of a task keeps the invariant, or `get_id_by_index` panics.
  pub run-Post :
      {A : Type 0} (held : Option ℕ) (leak : ℕ) (act : StaticAct A) (s : StaticAlgorithm F)
      → Inv held leak s
      → Post held leak (run act s)
  unfolding run
  run-Post held leak (StaticAct.returns a) s inv = (leak, omega arith, inv)
  run-Post held leak (StaticAct.is_valid gen k) s inv =
      run-Post held leak (k (is_valid s gen)) s inv
  run-Post held leak (StaticAct.cancel gen key k) s inv =
      bind_Post held leak s (guarded gen (cancel key) s) _ inv
        (Called-guarded held leak gen s (cancel key) (cancel_Call held leak key s inv))
        (λ b l t inv'. run-Post held l (k b) t inv')
  run-Post held leak (StaticAct.suspend gen key k) s inv =
      bind_Post held leak s (guarded gen (λ t. ok (suspend key t)) s) _ inv
        (Called-guarded held leak gen s (λ t. ok (suspend key t))
          (suspend_Call held leak key s inv))
        (λ b l t inv'. run-Post held l (k b) t inv')
  run-Post held leak (StaticAct.resume gen key k) s inv =
      bind_Post held leak s (guarded gen (resume key) s) _ inv
        (Called-guarded held leak gen s (resume key) (resume_Call held leak key s inv))
        (λ b l t inv'. run-Post held l (k b) t inv')
  run-Post held leak (StaticAct.restart gen key k) s inv =
      bind_Post held leak s (guarded gen (restart key) s) _ inv
        (Called-guarded held leak gen s (restart key) (restart_Call held leak key s inv))
        (λ b l t inv'. run-Post held l (k b) t inv')
  run-Post held leak (StaticAct.current gen k) s inv =
      run-Post held leak (k (if is_valid s gen then s.current else none)) s inv
  run-Post held leak (StaticAct.get_current_name gen k) s inv =
      run-Post held leak (k (if is_valid s gen then get_current_name s else none)) s inv
  run-Post held leak (StaticAct.get_name gen key k) s inv =
      run-Post held leak (k (if is_valid s gen then get_name s key else none)) s inv
  run-Post held leak (StaticAct.get_by_name gen name k) s inv =
      run-Post held leak (k (if is_valid s gen then get_by_name s name else none)) s inv
  run-Post held leak (StaticAct.get_id_by_index gen index k) s inv =
      index_ByIndex held leak gen index s _ (λ key. run-Post held leak (k key) s inv)
  run-Post held leak (StaticAct.registered_count gen k) s inv =
      run-Post held leak (k (if is_valid s gen then length s.registry else 0)) s inv
  run-Post held leak (StaticAct.wake key k) s inv =
      run-Post held leak k (wake key s) (wake_Inv held leak key s inv)
