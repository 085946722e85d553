-- ===== src/Static/Calls.antt =====
-- src/st/algorithm.rs and src/st/handle.rs: what each call of a handle does to the counts.
use juggle.Prelude.{
  ℕ, suc, ◌+◌, ◌≤◌, ◌≡◌, refl, inl, inr, Bool, true, Option, some, get_elem?, set, arith, Outcome,
  ok, panic, Option-cases, Bool-cases,
}
use juggle.StaticTask.{StopReason, StaticFuture, set_reason}
use juggle.Static.{
  StaticAlgorithm, dec_suspended, resume, resume_at, suspend, suspend_at, restart, restart_at,
  cancel, cancel_at, inc_unfinished, guarded, is_valid,
}
use juggle.Static.Inv.{
  susp, susp_reason, Inv, Grown, Inv-frame, reason_Inv, counted_suc, change_lem,
}

module _ {F : Type 0} where
  -- The state after a new reason for the task at `key`.
  abbrev pub put : ℕ → StaticFuture F → StopReason → ℕ → ℕ → StaticAlgorithm F → StaticAlgorithm F
  put key task val n u s = record s {
    registry = set s.registry key (set_reason val task);
    suspended_count = n;
    unfinished_count = u;
  }

  -- Each call of a handle either changes nothing, or gives the task at its key another reason, with
  -- the count of suspended tasks changed to match or left too high.
  pub data Call (held : Option ℕ) (leak : ℕ) (s : StaticAlgorithm F)
      : StaticAlgorithm F → Type 0 where
    stay : Call held leak s s
    move :
        (key : ℕ) (task : StaticFuture F) (val : StopReason) (l n u : ℕ)
        → get_elem? s.registry key ≡ some task
        → leak ≤ l
        → s.unfinished_count ≤ u
        → n + susp task + leak ≡ s.suspended_count + susp_reason val + l
        → Call held leak s (put key task val n u s)

  abbrev pub Called : Option ℕ → ℕ → StaticAlgorithm F → Outcome (Bool × StaticAlgorithm F) → Type 0
  Called held leak s (panic p) = ⊥
  Called held leak s (ok (b, t)) = Call held leak s t

  -- The calls that lower the count.
  module _ (key n : ℕ) (s : StaticAlgorithm F) (task : StaticFuture F)
      (e : get_elem? s.registry key ≡ some task) (c : s.suspended_count ≡ suc n) where
    resume_lem :
        resume_at key StopReason.suspended s
        ≡ ok (true, put key task StopReason.none n s.unfinished_count s)
    unfolding dec_suspended
    resume_lem = ground (arith, e, c)

    restart_lem :
        restart_at key StopReason.suspended s
        ≡ ok (true, put key task StopReason.restart n s.unfinished_count s)
    unfolding dec_suspended
    restart_lem = ground (arith, e, c)

    cancel_lem :
        cancel_at key StopReason.suspended s
        ≡ ok (true, put key task StopReason.cancelled n s.unfinished_count s)
    unfolding dec_suspended
    cancel_lem = ground (arith, e, c)

  pub resume_Call :
      (held : Option ℕ) (leak key : ℕ) (s : StaticAlgorithm F)
      → Inv held leak s
      → Called held leak s (resume key s)
  unfolding resume
  resume_Call held leak key s inv = elim (Option-cases (get_elem? s.registry key)) [
    | inl e ↦ rw (e, resume) stay
    | inr (task, e) ↦ rw (e, resume) (by_reason task e task.stop_reason refl)
  ]
    where
      by_reason :
          (task : StaticFuture F)
          → get_elem? s.registry key ≡ some task
          → (o : StopReason) → task.stop_reason ≡ o
          → Called held leak s (resume_at key o s)
      by_reason task e StopReason.suspended was =
          let (n, c) = counted_suc held leak s key task inv e (ground arith) in
          rw (resume_lem key n s task e c) (
            move key task StopReason.none leak n s.unfinished_count e (omega arith) (omega arith)
              (ground (arith, c, was)))
      by_reason task e _ was = stay

  pub suspend_Call :
      (held : Option ℕ) (leak key : ℕ) (s : StaticAlgorithm F)
      → Inv held leak s
      → Call held leak s (suspend key s).1
  unfolding suspend
  suspend_Call held leak key s inv = elim (Option-cases (get_elem? s.registry key)) [
    | inl e ↦ rw (e, suspend) stay
    | inr (task, e) ↦ rw (e, suspend) (by_reason task e task.stop_reason refl)
  ]
    where
      by_reason :
          (task : StaticFuture F)
          → get_elem? s.registry key ≡ some task
          → (o : StopReason) → task.stop_reason ≡ o
          → Call held leak s (suspend_at key o s).1
      by_reason task e StopReason.none was =
          rw (change_lem (set_reason StopReason.suspended) key s task e) (
            move key task StopReason.suspended (leak) (s.suspended_count + 1) (s.unfinished_count) e
              (omega arith) (omega arith) (ground (arith, was)))
      by_reason task e StopReason.restart was =
          rw (change_lem (set_reason StopReason.restart_suspended) key s task e) (
            move key task StopReason.restart_suspended (leak) (s.suspended_count + 1)
              (s.unfinished_count) e (omega arith) (omega arith) (ground (arith, was)))
      by_reason task e _ was = stay

  pub restart_Call :
      (held : Option ℕ) (leak key : ℕ) (s : StaticAlgorithm F)
      → Inv held leak s
      → Called held leak s (restart key s)
  unfolding restart
  restart_Call held leak key s inv = elim (Option-cases (get_elem? s.registry key)) [
    | inl e ↦ rw (e, restart) stay
    | inr (task, e) ↦ rw (e, restart) (by_reason task e task.stop_reason refl)
  ]
    where
      by_reason :
          (task : StaticFuture F)
          → get_elem? s.registry key ≡ some task
          → (o : StopReason) → task.stop_reason ≡ o
          → Called held leak s (restart_at key o s)
      by_reason task e StopReason.suspended was =
          let (n, c) = counted_suc held leak s key task inv e (ground arith) in
          rw (restart_lem key n s task e c) (
            move key task StopReason.restart leak n s.unfinished_count e (omega arith) (omega arith)
              (ground (arith, c, was)))
      by_reason task e StopReason.restart_suspended was =
          let (n, c) = counted_suc held leak s key task inv e (ground arith) in
          rw (restart_lem key n s task e c) (
            move key task StopReason.restart leak n s.unfinished_count e (omega arith) (omega arith)
              (ground (arith, c, was)))
      by_reason task e StopReason.cancelled was =
          rw (change_lem (set_reason StopReason.restart) key (inc_unfinished s) task e) (
            move key task StopReason.restart (leak) (s.suspended_count) (s.unfinished_count + 1) e
              (omega arith) (omega arith) (ground (arith, was)))
      by_reason task e StopReason.finished was =
          rw (change_lem (set_reason StopReason.restart) key (inc_unfinished s) task e) (
            move key task StopReason.restart (leak) (s.suspended_count) (s.unfinished_count + 1) e
              (omega arith) (omega arith) (ground (arith, was)))
      by_reason task e StopReason.restart was = stay
      by_reason task e StopReason.none was =
          rw (change_lem (set_reason StopReason.restart) key s task e) (
            move key task StopReason.restart (leak) (s.suspended_count) (s.unfinished_count) e
              (omega arith) (omega arith) (ground (arith, was)))

  pub cancel_Call :
      (held : Option ℕ) (leak key : ℕ) (s : StaticAlgorithm F)
      → Inv held leak s
      → Called held leak s (cancel key s)
  unfolding cancel
  cancel_Call held leak key s inv = elim (Option-cases (get_elem? s.registry key)) [
    | inl e ↦ rw (e, cancel) stay
    | inr (task, e) ↦ rw (e, cancel) (by_reason task e task.stop_reason refl)
  ]
    where
      by_reason :
          (task : StaticFuture F)
          → get_elem? s.registry key ≡ some task
          → (o : StopReason) → task.stop_reason ≡ o
          → Called held leak s (cancel_at key o s)
      by_reason task e StopReason.suspended was =
          let (n, c) = counted_suc held leak s key task inv e (ground arith) in
          rw (cancel_lem key n s task e c) (
            move key task StopReason.cancelled leak n s.unfinished_count e (omega arith)
              (omega arith) (ground (arith, c, was)))
      by_reason task e StopReason.cancelled was = stay
      by_reason task e StopReason.restart_suspended was =
          rw (change_lem (set_reason StopReason.cancelled) key s task e) (
            move key task StopReason.cancelled (leak + 1) (s.suspended_count) (s.unfinished_count) e
              (omega arith) (omega arith) (ground (arith, was)))
      by_reason task e StopReason.finished was =
          rw (change_lem (set_reason StopReason.cancelled) key s task e) (
            move key task StopReason.cancelled (leak) (s.suspended_count) (s.unfinished_count) e
              (omega arith) (omega arith) (ground (arith, was)))
      by_reason task e StopReason.restart was =
          rw (change_lem (set_reason StopReason.cancelled) key s task e) (
            move key task StopReason.cancelled (leak) (s.suspended_count) (s.unfinished_count) e
              (omega arith) (omega arith) (ground (arith, was)))
      by_reason task e StopReason.none was =
          rw (change_lem (set_reason StopReason.cancelled) key s task e) (
            move key task StopReason.cancelled (leak) (s.suspended_count) (s.unfinished_count) e
              (omega arith) (omega arith) (ground (arith, was)))

  pub Call-Inv :
      (held : Option ℕ) (leak : ℕ) (s : StaticAlgorithm F) {t : StaticAlgorithm F}
      → Call held leak s t
      → Inv held leak s
      → Grown held leak t
  Call-Inv held leak s stay inv = (leak, omega arith, inv)
  Call-Inv held leak s (move key task val l n u e le grows balance) inv = (
    l,
    le,
    Inv-frame held l
        (record s { registry = set s.registry key (set_reason val task); suspended_count = n }) _
        refl refl (reason_Inv held leak s key task val l n inv e balance),
  )

  -- A handle of another wheel's life makes no call.
  pub Called-guarded :
      (held : Option ℕ) (leak generation : ℕ) (s : StaticAlgorithm F)
      (f : StaticAlgorithm F → Outcome (Bool × StaticAlgorithm F))
      → Called held leak s (f s)
      → Called held leak s (guarded generation f s)
  Called-guarded held leak generation s f called = elim (Bool-cases (is_valid s generation)) [
    | inl valid ↦ rw valid called
    | inr stale ↦ rw stale stay
  ]
