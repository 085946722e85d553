-- ===== src/Scheduler/Beat.antt =====
-- src/dy/unordered_algorithm.rs: `beat_once` and `poll_internal` keep the invariant, and the internal
-- errors of the scheduler never show.
use juggle.Prelude.{
  ℕ, zero, suc, ◌+◌, ◌≤◌, ◌≡◌, refl, ◌∙◌, inl, inr, Bool, true, false, ◌||◌, Option, none, some,
  if◌then◌else◌, arith, Outcome, ok, panic, ◌>>=◌, is_some, Option-cases, Bool-cases,
}
use juggle.Task.{StopReason, DynamicFuture, Act}
use juggle.TaskRegistry.{TaskRegistry, IsRegistryPanic}
use juggle.Scheduler.{
  Sched, start_poll, end_poll, remove_task, run, poll_local, poll_task, visit, visit_task,
  beat_from, beat_once,
}
use juggle.Scheduler.Inv.{
  susp, suspended_total-modify, suspended_total-remove, Inv, Inv-frame, Post, run_Inv,
}

module _ {F : Type 0} (reg : TaskRegistry (DynamicFuture F)) where
  open reg use {R, get, insert, remove, count, capacity, modify}

  -- The poll of the task at `key` begins.
  pub start_Inv :
      (leak : ℕ) (s : Sched R) (key : ℕ) (task : DynamicFuture F)
      → Inv reg none leak s
      → get s.registry key ≡ some task
      → Inv reg (some key) leak (record s { registry = modify start_poll key s.registry })
  start_Inv leak s key task inv e = record {
    valid = reg.modify-Inv start_poll key s.registry inv.valid;
    counted =
        omega (
          arith,
          inv.counted,
          suspended_total-modify reg start_poll key s.registry task inv.valid e,
        );
    polls = λ k t e' p.
        ground (arith, reg.get-modify start_poll key s.registry k inv.valid, e', p, inv.polls k t);
    holds = λ k h. (
      start_poll task,
      reg.get-modify start_poll key s.registry k inv.valid ∙ ground (arith, e, h),
    );
  }

  same_susp :
      (left : Option F) (task : DynamicFuture F)
      → susp (some (end_poll left task)) ≡ susp (some task)
  same_susp none task = refl
  same_susp (some future) task = refl

  stops : (left : Option F) (task : DynamicFuture F) → (end_poll left task).polling ≡ false
  stops none task = refl
  stops (some future) task = refl

  -- And ends.
  end_Inv :
      (leak : ℕ) (s : Sched R) (key : ℕ) (left : Option F)
      → Inv reg (some key) leak s
      → Inv reg none leak (record s { registry = modify (end_poll left) key s.registry })
  end_Inv leak s key left inv =
      let (task, e) = inv.holds key refl in
      record {
        valid = reg.modify-Inv (end_poll left) key s.registry inv.valid;
        counted = omega (
          arith,
          inv.counted,
          same_susp left task,
          suspended_total-modify reg (end_poll left) key s.registry task inv.valid e,
        );
        polls = λ k t e' p. ground (
          arith,
          reg.get-modify (end_poll left) key s.registry k inv.valid,
          e,
          e',
          p,
          stops left task,
          inv.polls k t,
        );
        holds = λ k h. absurd (ground arith);
      }

  -- Removing a task that is there; a task that is suspended then leaks one count.
  pub remove_Inv :
      (leak : ℕ) (s : Sched R) (key : ℕ) (task : DynamicFuture F)
      → Inv reg none leak s
      → get s.registry key ≡ some task
      → (r : R) × (remove_task reg key s ≡ ok (record s { registry = r }))
        × Inv reg none (leak + susp (some task)) (record s { registry = r })
  unfolding remove_task
  remove_Inv leak s key task inv e = (
    (remove key s.registry).1,
    ground (arith, reg.remove-present key s.registry inv.valid, e),
    record {
      valid = reg.remove-Inv key s.registry inv.valid;
      counted =
          omega (arith, inv.counted, suspended_total-remove reg key s.registry task inv.valid e);
      polls = λ k t e' p.
          ground (arith, reg.get-remove key s.registry k inv.valid, e', p, inv.polls k t);
      holds = λ k h. absurd (ground arith);
    },
  )

  -- As `Post`, where the count may leak.
  abbrev pub Grows : {A : Type 0} → ℕ → Outcome (A × Sched R) → Type 0
  Grows leak (panic p) = IsRegistryPanic p
  Grows leak (ok (a, s)) = (leak' : ℕ) × (leak ≤ leak') × Inv reg none leak' s

  bind_Grows :
      {A B : Type 0} (leak : ℕ) (m : Outcome (A × Sched R))
      (f : A × Sched R → Outcome (B × Sched R))
      → Grows leak m
      → ((a : A) (s : Sched R) (l : ℕ) → leak ≤ l → Inv reg none l s → Grows leak (f (a, s)))
      → Grows leak (m >>= f)
  bind_Grows leak (panic p) f post next = post
  bind_Grows leak (ok (a, s)) f (l, le, inv) next = next a s l le inv

  Grows-mono : {A : Type 0} (m n : ℕ) (r : Outcome (A × Sched R)) → m ≤ n → Grows n r → Grows m r
  Grows-mono m n (panic p) le post = post
  Grows-mono m n (ok (a, s)) le (l, le', inv) = (l, omega arith, inv)

  -- After a poll the task is still registered.
  abbrev pub Polled : {A : Type 0} → ℕ → ℕ → Outcome (A × Sched R) → Type 0
  Polled key leak (panic p) = IsRegistryPanic p
  Polled key leak (ok (a, s)) =
      Inv reg none leak s × (task : DynamicFuture F) × (get s.registry key ≡ some task)

  module _ (behaviour : F → ℕ → Act F) where
    pub poll_local_Inv :
        (leak : ℕ) (key : ℕ) (task : DynamicFuture F) (s : Sched R)
        → Inv reg none leak s
        → get s.registry key ≡ some task
        → Polled key leak (poll_local reg behaviour key task s)
    unfolding poll_local
    poll_local_Inv leak key task s inv e = elim (Bool-cases task.polling) [
      | inl busy ↦ absurd (cc (inv.polls key task e busy))
      | inr idle ↦ rw idle (
          ended (run reg (behaviour task.future task.flags) _) (
            run_Inv reg (some key) leak (behaviour task.future task.flags) _
              (Inv-frame reg (some key) leak _ _ refl refl (start_Inv leak s key task inv e))))
    ]
      where
        ended :
            (r : Outcome (Option F × Sched R))
            → Post reg (some key) leak r
            → Polled key leak (
                r >>= λ r. ok (
                  if is_some r.0 then false else true,
                  record r.1 { registry = modify (end_poll r.0) key r.1.registry },
                ))
        ended (panic p) post = post
        ended (ok (left, t)) inv' =
            let (held, here) = inv'.holds key refl in
            (
              end_Inv leak t key left inv',
              end_poll left held,
              reg.get-modify (end_poll left) key t.registry key inv'.valid ∙ ground (arith, here),
            )

    poll_task_Inv :
        (leak : ℕ) (key : ℕ) (task : DynamicFuture F) (s : Sched R)
        → Inv reg none leak s
        → get s.registry key ≡ some task
        → Grows leak (poll_task reg behaviour key task s)
    unfolding poll_task
    poll_task_Inv leak key task s inv e =
        after (poll_local reg behaviour key task (record s { current = some key }))
          (poll_local_Inv leak key task _ (Inv-frame reg none leak s _ refl refl inv) e)
      where
        after :
            (r : Outcome (Bool × Sched R))
            → Polled key leak r
            → Grows leak (
                r >>= λ r.
                let s' = record r.1 { current = none } in
                if r.0 then (remove_task reg key s' >>= λ s''. ok (true, s'')) else ok (true, s'))
        after (panic p) post = post
        after (ok (false, t)) (inv', held, here) =
            (leak, omega arith, Inv-frame reg none leak t _ refl refl inv')
        after (ok (true, t)) (inv', held, here) =
            let (r, gone, inv'') =
              remove_Inv leak (record t { current = none }) key held
                (Inv-frame reg none leak t _ refl refl inv') here in
            rw gone (leak + susp (some held), omega arith, inv'')

    pub visit_Inv :
        (leak : ℕ) (key : ℕ) (s : Sched R)
        → Inv reg none leak s
        → Grows leak (visit reg behaviour key s)
    unfolding visit
    visit_Inv leak key s inv = elim (Option-cases (get s.registry key)) [
      | inl e ↦ rw (e, visit) (leak, omega arith, inv)
      | inr (task, e) ↦ rw (e, visit) (by_reason task e task.stop_reason refl)
    ]
      where
        by_reason :
            (task : DynamicFuture F)
            → get s.registry key ≡ some task
            → (o : StopReason) → task.stop_reason ≡ o
            → Grows leak (visit_task reg behaviour key task o s)
        by_reason task e StopReason.suspended was = (leak, omega arith, inv)
        by_reason task e StopReason.cancelled was =
            let (r, gone, inv') = remove_Inv leak s key task inv e in
            rw gone (leak + susp (some task), omega arith, inv')
        by_reason task e StopReason.none was = elim (Bool-cases (s.runnable task.flags)) [
          | inl runs ↦ rw runs (poll_task_Inv leak key task s inv e)
          | inr waits ↦ rw waits (leak, omega arith, inv)
        ]

    beat_from_Inv :
        (leak left key : ℕ) (any_poll : Bool) (s : Sched R)
        → Inv reg none leak s
        → Grows leak (beat_from reg behaviour left key any_poll s)
    unfolding beat_from
    beat_from_Inv leak zero key any_poll s inv = (leak, omega arith, inv)
    beat_from_Inv leak (suc left) key any_poll s inv =
        bind_Grows leak (visit reg behaviour key s) _ (visit_Inv leak key s inv)
          (λ polled t l le inv'.
            Grows-mono leak l (beat_from reg behaviour left (suc key) (any_poll || polled) t) le
              (beat_from_Inv l left (suc key) (any_poll || polled) t inv'))

    -- A beat ends in a state with the invariant, or panics inside the registry: no task is looked up
    -- in vain, no poll is recursive, and the count of suspended tasks does not underflow.
    pub beat_once_Inv :
        (leak : ℕ) (s : Sched R) → Inv reg none leak s → Grows leak (beat_once reg behaviour s)
    unfolding beat_once
    beat_once_Inv leak s inv = beat_from_Inv leak (capacity s.registry) 0 false s inv
