-- ===== src/Scheduler/Budget.antt =====
-- src/dy/unordered_algorithm.rs: what the calls of a poll add to the polls that are left.
use juggle.Prelude.{
  ℕ, zero, suc, ◌+◌, ◌-◌, ◌<◌, ◌≤◌, ◌≡◌, refl, ap, inl, inr, Bool, true, false, Option, none, some,
  arith, Outcome, ok, panic, ◌>>=◌, Option-cases, Bool-cases,
}
use juggle.Task.{StopReason, SpawnParams, State, DynamicFuture, new_future, Act}
use juggle.TaskRegistry.{TaskRegistry, InsertPost}
use juggle.TaskRegistry.Totals.{total, total-modify, total-insert}
use juggle.Scheduler.{
  Sched, is_suspended, with_reason, set_stop_reason, dec_suspended, lower, register, spawn, resume,
  resume_task, suspend, suspend_task, cancel, cancel_task, get_state, run, wake,
}
use juggle.Scheduler.Inv.{Inv, Post, spawn_Inv, resume_Inv, suspend_Inv, cancel_Inv, wake_Inv}

module _ {F : Type 0} (weight : F → ℕ) where
  -- The user's code of a poll with `n` to spend: each future that it spawns costs its weight and one,
  -- and a future that it leaves pending weighs less than what remains.
  abbrev pub Affords : ℕ → Act F → Type 0
  Affords n Act.ready = Unit {0}
  Affords n (Act.pending future) = weight future < n
  Affords n (Act.spawn future params k) =
      (1 + weight future ≤ n) × ((o : Option ℕ) → Affords (n - (1 + weight future)) (k o))
  Affords n (Act.cancel key k) = (b : Bool) → Affords n (k b)
  Affords n (Act.suspend key k) = (b : Bool) → Affords n (k b)
  Affords n (Act.resume key k) = (b : Bool) → Affords n (k b)
  Affords n (Act.get_state key k) = (o : State) → Affords n (k o)
  Affords n (Act.current k) = (o : Option ℕ) → Affords n (k o)
  Affords n (Act.registered_count k) = (m : ℕ) → Affords n (k m)
  Affords n (Act.wake flags k) = Affords n k

  abbrev pub weight_unless : Bool → F → ℕ
  weight_unless true future = 0
  weight_unless false future = 1 + weight future

  -- A task costs its future's weight and one; the future that is being polled spends its own.
  abbrev pub cost : Option (DynamicFuture F) → ℕ
  cost none = 0
  cost (some task) = weight_unless task.polling task.future

  module _ (reg : TaskRegistry (DynamicFuture F)) where
    open reg use {R, get, insert, remove, count, capacity, modify}

    abbrev pub left_in : Sched R → ℕ
    left_in s = total reg cost s.registry

    -- What a call leaves is no more than `b`.
    abbrev Budget : {A : Type 0} → ℕ → Outcome (A × Sched R) → Type 0
    Budget b (panic p) = Unit {0}
    Budget b (ok (a, t)) = left_in t ≤ b

    reason-Budget :
        (key : ℕ) (task : DynamicFuture F) (val : StopReason) (s : Sched R)
        → reg.Inv s.registry
        → get s.registry key ≡ some task
        → left_in (set_stop_reason reg key val s) ≡ left_in s
    reason-Budget key task val s valid e =
        omega (arith, total-modify reg cost refl (with_reason val) key s.registry task valid e)

    release-Budget :
        (key : ℕ) (task : DynamicFuture F) (val : StopReason) (s : Sched R)
        → reg.Inv s.registry
        → get s.registry key ≡ some task
        → Budget {A = Bool}
            (left_in s)
            (dec_suspended (set_stop_reason reg key val s) >>= λ s'. ok (true, s'))
    unfolding dec_suspended lower
    release-Budget key task val s valid e = by_count s.suspended_count
      where
        by_count :
            (n : ℕ)
            → Budget {A = Bool}
                (left_in s)
                (lower n (set_stop_reason reg key val s) >>= λ s'. ok (true, s'))
        by_count zero = tt
        by_count (suc n) = omega (arith, reason-Budget key task val s valid e)

    resume-Budget :
        (key : ℕ) (s : Sched R) → reg.Inv s.registry → Budget (left_in s) (resume reg key s)
    unfolding resume
    resume-Budget key s valid = elim (Option-cases (get s.registry key)) [
      | inl e ↦ rw (e, resume) (omega arith)
      | inr (task, e) ↦ rw (e, resume) (by_reason task e task.stop_reason)
    ]
      where
        by_reason :
            (task : DynamicFuture F)
            → get s.registry key ≡ some task
            → (o : StopReason) → Budget (left_in s) (resume_task reg key o s)
        by_reason task e StopReason.suspended = release-Budget key task StopReason.none s valid e
        by_reason task e StopReason.none = omega arith
        by_reason task e StopReason.cancelled = omega arith

    suspend-Budget :
        (key : ℕ) (s : Sched R) → reg.Inv s.registry → left_in (suspend reg key s).1 ≤ left_in s
    unfolding suspend
    suspend-Budget key s valid = elim (Option-cases (get s.registry key)) [
      | inl e ↦ rw (e, suspend) (omega arith)
      | inr (task, e) ↦ rw (e, suspend) (by_reason task e task.stop_reason)
    ]
      where
        by_reason :
            (task : DynamicFuture F)
            → get s.registry key ≡ some task
            → (o : StopReason) → left_in (suspend_task reg key o s).1 ≤ left_in s
        by_reason task e StopReason.none =
            omega (arith, reason-Budget key task StopReason.suspended s valid e)
        by_reason task e StopReason.suspended = omega arith
        by_reason task e StopReason.cancelled = omega arith

    cancel-Budget :
        (key : ℕ) (s : Sched R) → reg.Inv s.registry → Budget (left_in s) (cancel reg key s)
    unfolding cancel
    cancel-Budget key s valid = elim (Option-cases (get s.registry key)) [
      | inl e ↦ rw (e, cancel) (omega arith)
      | inr (task, e) ↦ rw (e, cancel) (by_reason task e task.stop_reason)
    ]
      where
        by_reason :
            (task : DynamicFuture F)
            → get s.registry key ≡ some task
            → (o : StopReason) → Budget (left_in s) (cancel_task reg key o s)
        by_reason task e StopReason.suspended =
            release-Budget key task StopReason.cancelled s valid e
        by_reason task e StopReason.none =
            omega (arith, reason-Budget key task StopReason.cancelled s valid e)
        by_reason task e StopReason.cancelled = omega arith

    register-Budget :
        (dynamic : DynamicFuture F) (s : Sched R)
        → reg.Inv s.registry
        → Budget (left_in s + cost (some dynamic)) (register reg dynamic s)
    unfolding register
    register-Budget dynamic s valid =
        by_result (insert dynamic s.registry) refl (reg.insert_lem dynamic s.registry valid)
      where
        by_result :
            (r : Outcome (Option ℕ × R))
            → insert dynamic s.registry ≡ r
            → InsertPost get capacity reg.Inv dynamic s.registry r
            → Budget (left_in s + cost (some dynamic)) (register reg dynamic s)
        by_result (panic p) e post = rw (e, register) tt
        by_result (ok (none, r')) e same =
            rw (e, same, register)
              (elim (Bool-cases (is_suspended dynamic.stop_reason)) [
                | inl b ↦ rw b (omega arith)
                | inr b ↦ rw b (omega arith)
              ])
        by_result (ok (some key, r')) e (did, valid') =
            let grown = total-insert reg cost refl dynamic s.registry key r' valid valid' did in
            rw (e, register)
              (elim (Bool-cases (is_suspended dynamic.stop_reason)) [
                | inl b ↦ rw b (omega (arith, grown))
                | inr b ↦ rw b (omega (arith, grown))
              ])

    spawn-Budget :
        (future : F) (params : SpawnParams) (s : Sched R)
        → reg.Inv s.registry
        → Budget (left_in s + (1 + weight future)) (spawn reg future params s)
    unfolding spawn
    spawn-Budget future params s valid =
        register-Budget (new_future future s.next_flags params) _ valid

    -- What the user's code leaves, with the future that is pending.
    abbrev pub kept : Option F → ℕ
    kept none = 0
    kept (some future) = 1 + weight future

    abbrev pub Spent : ℕ → Outcome (Option F × Sched R) → Type 0
    Spent b (panic p) = Unit {0}
    Spent b (ok (left, t)) = left_in t + kept left ≤ b

    Spent-mono : (m n : ℕ) (r : Outcome (Option F × Sched R)) → m ≤ n → Spent m r → Spent n r
    Spent-mono m n (panic p) le post = tt
    Spent-mono m n (ok (left, t)) le post = omega arith

    bind_Spent :
        {A : Type 0} (held : Option ℕ) (leak b n c : ℕ) (m : Outcome (A × Sched R))
        (f : A × Sched R → Outcome (Option F × Sched R))
        → Post reg held leak m
        → Budget b m
        → b + n ≤ c
        → ((a : A) (t : Sched R) → Inv reg held leak t → Spent (left_in t + n) (f (a, t)))
        → Spent c (m >>= f)
    bind_Spent held leak b n c (panic p) f post fits le next = tt
    bind_Spent held leak b n c (ok (a, t)) f post fits le next =
        Spent-mono (left_in t + n) c (f (a, t)) (omega arith) (next a t post)

    pub run-Spent :
        (held : Option ℕ) (leak n : ℕ) (act : Act F) (s : Sched R)
        → Inv reg held leak s
        → Affords n act
        → Spent (left_in s + n) (run reg act s)
    unfolding run
    run-Spent held leak n Act.ready s inv can = omega arith
    run-Spent held leak n (Act.pending future) s inv can = omega arith
    run-Spent held leak n (Act.spawn future params k) s inv can =
        bind_Spent held leak (left_in s + (1 + weight future)) (n - (1 + weight future)) _
          (spawn reg future params s) _ (spawn_Inv reg held leak future params s inv)
          (spawn-Budget future params s inv.valid) (omega (arith, can.0))
          (λ a t inv'. run-Spent held leak (n - (1 + weight future)) (k a) t inv' (can.1 a))
    run-Spent held leak n (Act.cancel key k) s inv can =
        bind_Spent held leak (left_in s) n _ (cancel reg key s) _
          (cancel_Inv reg held leak key s inv) (cancel-Budget key s inv.valid) (omega arith)
          (λ a t inv'. run-Spent held leak n (k a) t inv' (can a))
    run-Spent held leak n (Act.suspend key k) s inv can =
        Spent-mono _ _ _ (omega (arith, suspend-Budget key s inv.valid)) (
          run-Spent held leak n (k (suspend reg key s).0) (suspend reg key s).1
            (suspend_Inv reg held leak key s inv) (can (suspend reg key s).0))
    run-Spent held leak n (Act.resume key k) s inv can =
        bind_Spent held leak (left_in s) n _ (resume reg key s) _
          (resume_Inv reg held leak key s inv) (resume-Budget key s inv.valid) (omega arith)
          (λ a t inv'. run-Spent held leak n (k a) t inv' (can a))
    run-Spent held leak n (Act.get_state key k) s inv can =
        run-Spent held leak n (k (get_state reg s key)) s inv (can (get_state reg s key))
    run-Spent held leak n (Act.current k) s inv can =
        run-Spent held leak n (k s.current) s inv (can s.current)
    run-Spent held leak n (Act.registered_count k) s inv can =
        run-Spent held leak n (k (count s.registry)) s inv (can (count s.registry))
    run-Spent held leak n (Act.wake flags k) s inv can =
        let same : (wake flags s).registry ≡ s.registry = ground arith in
        Spent-mono _ _ _ (omega (arith, ap (total reg cost) same))
          (run-Spent held leak n k (wake flags s) (wake_Inv reg held leak flags s inv) can)
