-- ===== src/Scheduler/Inv.antt =====
-- src/dy/unordered_algorithm.rs: the scheduler's invariant, and that every call of the user's code on
-- the handle keeps it.
use juggle.Prelude.{
  ℕ, zero, suc, ◌+◌, ◌≡◌, refl, ap, ◌∙◌, inl, inr, true, false, Option, none, some, arith, Outcome,
  ok, panic, ◌>>=◌, to_nat, Option-cases, Bool-cases, ℕ_discrete,
}
use juggle.Prelude.Range.{sum_below, sum_below-eq_zero}
use juggle.Task.{StopReason, SpawnParams, DynamicFuture, new_future, Act}
use juggle.TaskRegistry.{TaskRegistry, IsInserted, InsertPost, IsRegistryPanic}
use juggle.TaskRegistry.Totals.{total, total_lem, total-modify, total-remove, total-insert}
use juggle.Scheduler.{
  Sched, is_suspended, with_reason, dec_suspended, lower, wake, set_stop_reason, register, spawn,
  resume, resume_task, suspend, suspend_task, cancel, cancel_task, run, get_state, new,
}

-- 1 for a suspended task.
abbrev pub susp : {F : Type 0} → Option (DynamicFuture F) → ℕ
susp none = 0
susp (some task) = to_nat (is_suspended task.stop_reason)

module _ {F : Type 0} (reg : TaskRegistry (DynamicFuture F)) where
  open reg use {R, get, insert, remove, count, capacity, modify}

  pub suspended_total : R → ℕ
  suspended_total r = total reg susp r

  pub suspended_total_lem :
      (r : R) → suspended_total r ≡ sum_below (capacity r) (λ k. susp (get r k))
  unfolding suspended_total
  suspended_total_lem r = total_lem reg susp r

  pub suspended_total-modify :
      (f : DynamicFuture F → DynamicFuture F) (key : ℕ) (r : R) (task : DynamicFuture F)
      → reg.Inv r
      → get r key ≡ some task
      → suspended_total (modify f key r) + susp (some task)
        ≡ suspended_total r + susp (some (f task))
  unfolding suspended_total
  suspended_total-modify = total-modify reg susp refl

  pub suspended_total-remove :
      (key : ℕ) (r : R) (task : DynamicFuture F)
      → reg.Inv r
      → get r key ≡ some task
      → suspended_total (remove key r).1 + susp (some task) ≡ suspended_total r
  unfolding suspended_total
  suspended_total-remove = total-remove reg susp refl

  -- `held` is the key of the task that is being polled, and `leak` the amount by which
  -- `suspended_count` exceeds the number of suspended tasks.
  pub record Inv (held : Option ℕ) (leak : ℕ) (s : Sched R) : Type 0 where
    pub valid : reg.Inv s.registry
    pub counted : suspended_total s.registry + leak ≡ s.suspended_count
    pub polls :
        (key : ℕ) (task : DynamicFuture F)
        → get s.registry key ≡ some task
        → task.polling ≡ true
        → held ≡ some key
    pub holds :
        (key : ℕ) → held ≡ some key → (task : DynamicFuture F) × (get s.registry key ≡ some task)

  -- A step either panics inside the registry or ends in a state with the invariant.
  abbrev pub Post : {A : Type 0} → Option ℕ → ℕ → Outcome (A × Sched R) → Type 0
  Post held leak (panic p) = IsRegistryPanic p
  Post held leak (ok (a, s)) = Inv held leak s

  -- The invariant speaks of the registry and the count alone.
  pub Inv-frame :
      (held : Option ℕ) (leak : ℕ) (s t : Sched R)
      → t.registry ≡ s.registry
      → t.suspended_count ≡ s.suspended_count
      → Inv held leak s
      → Inv held leak t
  Inv-frame held leak s t e e' inv = record {
    valid = rw e inv.valid;
    counted = rw (e, e') inv.counted;
    polls = rw e inv.polls;
    holds = rw e inv.holds;
  }

  -- A change of a task that leaves its `polling` flag, with the count changed to match.
  modify_Inv :
      (held : Option ℕ) (leak : ℕ) (s : Sched R) (key : ℕ) (task : DynamicFuture F)
      (f : DynamicFuture F → DynamicFuture F) (n : ℕ)
      → Inv held leak s
      → get s.registry key ≡ some task
      → ((t : DynamicFuture F) → (f t).polling ≡ t.polling)
      → n + susp (some task) ≡ s.suspended_count + susp (some (f task))
      → Inv held leak (record s { registry = modify f key s.registry; suspended_count = n })
  unfolding suspended_total
  modify_Inv held leak s key task f n inv e same balance = record {
    valid = reg.modify-Inv f key s.registry inv.valid;
    counted =
        omega (
          arith,
          balance,
          inv.counted,
          total-modify reg susp refl f key s.registry task inv.valid e,
        );
    polls = λ k t e' p. ground (
      arith,
      reg.get-modify f key s.registry k inv.valid,
      e,
      e',
      p,
      same task,
      inv.polls k t,
      inv.polls key task,
    );
    holds = λ k h.
        let (t, e') = inv.holds k h in
        elim (ℕ_discrete key k) [
          | yes at ↦ (f task, reg.get-modify f key s.registry k inv.valid ∙ ground (arith, e, at))
          | no away ↦ (t, reg.get-modify f key s.registry k inv.valid ∙ ground (arith, e', away))
        ];
  }

  insert_Inv :
      (held : Option ℕ) (leak : ℕ) (dynamic : DynamicFuture F) (s : Sched R) (key : ℕ) (r' : R)
      (n : ℕ)
      → n ≡ s.suspended_count + susp (some dynamic)
      → dynamic.polling ≡ false
      → Inv held leak s
      → IsInserted get capacity dynamic s.registry key r'
      → reg.Inv r'
      → Inv held leak (record s { registry = r'; suspended_count = n })
  unfolding suspended_total
  insert_Inv held leak dynamic s key r' n size idle inv did valid' = record {
    valid = valid';
    counted = omega (
      arith,
      size,
      inv.counted,
      total-insert reg susp refl dynamic s.registry key r' inv.valid valid' did,
    );
    polls = λ k t e p. ground (arith, did.stored k, idle, e, p, inv.polls k t);
    holds = λ k h. let (t, e) = inv.holds k h in (t, did.stored k ∙ ground (arith, e, did.fresh));
  }

  register_Inv :
      (held : Option ℕ) (leak : ℕ) (dynamic : DynamicFuture F) (s : Sched R)
      → dynamic.polling ≡ false
      → Inv held leak s
      → Post held leak (register reg dynamic s)
  unfolding register
  register_Inv held leak dynamic s idle inv =
      by_result (insert dynamic s.registry) refl (reg.insert_lem dynamic s.registry inv.valid)
    where
      by_result :
          (r : Outcome (Option ℕ × R))
          → insert dynamic s.registry ≡ r
          → InsertPost get capacity reg.Inv dynamic s.registry r
          → Post held leak (register reg dynamic s)
      by_result (panic p) e post = rw (e, register) post
      by_result (ok (none, r')) e same =
          rw (e, same, register)
            (elim (Bool-cases (is_suspended dynamic.stop_reason)) [
              | inl b ↦ rw b inv
              | inr b ↦ rw b inv
            ])
      by_result (ok (some key, r')) e (did, valid') =
          rw (e, register)
            (elim (Bool-cases (is_suspended dynamic.stop_reason)) [
              | inl b ↦
                  rw b (
                    insert_Inv held leak dynamic s key r' _ (ground (arith, b)) idle inv did valid')
              | inr b ↦
                  rw b (
                    insert_Inv held leak dynamic s key r' _ (ground (arith, b)) idle inv did valid')
            ])

  pub spawn_Inv :
      (held : Option ℕ) (leak : ℕ) (future : F) (params : SpawnParams) (s : Sched R)
      → Inv held leak s
      → Post held leak (spawn reg future params s)
  unfolding spawn
  spawn_Inv held leak future params s inv =
      register_Inv held leak (new_future future s.next_flags params) _ refl
        (Inv-frame held leak s _ refl refl inv)

  -- Taking a task out of suspension never makes the count underflow.
  release_Inv :
      (held : Option ℕ) (leak : ℕ) (key : ℕ) (task : DynamicFuture F) (val : StopReason)
      (s : Sched R)
      → Inv held leak s
      → get s.registry key ≡ some task
      → task.stop_reason ≡ StopReason.suspended
      → is_suspended val ≡ false
      → Post held leak (dec_suspended (set_stop_reason reg key val s) >>= λ s'. ok (true, s'))
  unfolding dec_suspended suspended_total
  release_Inv held leak key task val s inv e was will = by_count s.suspended_count refl
    where
      was_one : susp (some task) ≡ 1
      was_one = ground (arith, was)

      will_none : susp (some (with_reason val task)) ≡ 0
      will_none = ground (arith, will)

      by_count :
          (n : ℕ)
          → s.suspended_count ≡ n
          → Post held leak (lower n (set_stop_reason reg key val s) >>= λ s'. ok (true, s'))
      by_count zero z = absurd (
          omega (
            arith,
            z,
            was_one,
            will_none,
            inv.counted,
            total-modify reg susp refl (with_reason val) key s.registry task inv.valid e,
          ))
      by_count (suc n) z =
          modify_Inv held leak s key task (with_reason val) n inv e (λ t. refl)
            (omega (arith, z, was_one, will_none))

  pub resume_Inv :
      (held : Option ℕ) (leak : ℕ) (key : ℕ) (s : Sched R)
      → Inv held leak s
      → Post held leak (resume reg key s)
  unfolding resume
  resume_Inv held leak key s inv = elim (Option-cases (get s.registry key)) [
    | inl e ↦ rw (e, resume) inv
    | inr (task, e) ↦ rw (e, resume) (by_reason task e task.stop_reason refl)
  ]
    where
      by_reason :
          (task : DynamicFuture F)
          → get s.registry key ≡ some task
          → (o : StopReason) → task.stop_reason ≡ o
          → Post held leak (resume_task reg key o s)
      by_reason task e StopReason.suspended was =
          release_Inv held leak key task StopReason.none s inv e was refl
      by_reason task e StopReason.none was = inv
      by_reason task e StopReason.cancelled was = inv

  pub suspend_Inv :
      (held : Option ℕ) (leak : ℕ) (key : ℕ) (s : Sched R)
      → Inv held leak s
      → Inv held leak (suspend reg key s).1
  unfolding suspend
  suspend_Inv held leak key s inv = elim (Option-cases (get s.registry key)) [
    | inl e ↦ rw (e, suspend) inv
    | inr (task, e) ↦ rw (e, suspend) (by_reason task e task.stop_reason refl)
  ]
    where
      by_reason :
          (task : DynamicFuture F)
          → get s.registry key ≡ some task
          → (o : StopReason) → task.stop_reason ≡ o
          → Inv held leak (suspend_task reg key o s).1
      by_reason task e StopReason.none was =
          modify_Inv held leak s key task (with_reason StopReason.suspended) (s.suspended_count + 1)
            inv e (λ t. refl) (ground (arith, was))
      by_reason task e StopReason.suspended was = inv
      by_reason task e StopReason.cancelled was = inv

  pub cancel_Inv :
      (held : Option ℕ) (leak : ℕ) (key : ℕ) (s : Sched R)
      → Inv held leak s
      → Post held leak (cancel reg key s)
  unfolding cancel
  cancel_Inv held leak key s inv = elim (Option-cases (get s.registry key)) [
    | inl e ↦ rw (e, cancel) inv
    | inr (task, e) ↦ rw (e, cancel) (by_reason task e task.stop_reason refl)
  ]
    where
      by_reason :
          (task : DynamicFuture F)
          → get s.registry key ≡ some task
          → (o : StopReason) → task.stop_reason ≡ o
          → Post held leak (cancel_task reg key o s)
      by_reason task e StopReason.suspended was =
          release_Inv held leak key task StopReason.cancelled s inv e was refl
      by_reason task e StopReason.none was =
          modify_Inv held leak s key task (with_reason StopReason.cancelled) s.suspended_count inv e
            (λ t. refl) (ground (arith, was))
      by_reason task e StopReason.cancelled was = inv

  bind_Post :
      {A B : Type 0} (held : Option ℕ) (leak : ℕ) (m : Outcome (A × Sched R))
      (f : A × Sched R → Outcome (B × Sched R))
      → Post held leak m
      → ((a : A) (s : Sched R) → Inv held leak s → Post held leak (f (a, s)))
      → Post held leak (m >>= f)
  bind_Post held leak (panic p) f post next = post
  bind_Post held leak (ok (a, s)) f post next = next a s post

  pub wake_Inv :
      (held : Option ℕ) (leak : ℕ) (flags : ℕ) (s : Sched R)
      → Inv held leak s
      → Inv held leak (wake flags s)
  wake_Inv held leak flags s inv =
      Inv-frame held leak s (wake flags s) (ground arith) (ground arith) inv

  -- The user's code of a poll, whatever it calls, keeps the invariant, and makes no panic but those
  -- of the registry.
  pub run_Inv :
      (held : Option ℕ) (leak : ℕ) (act : Act F) (s : Sched R)
      → Inv held leak s
      → Post held leak (run reg act s)
  unfolding run
  run_Inv held leak Act.ready s inv = inv
  run_Inv held leak (Act.pending future) s inv = inv
  run_Inv held leak (Act.spawn future params k) s inv =
      bind_Post held leak (spawn reg future params s) _ (spawn_Inv held leak future params s inv)
        (λ a t inv'. run_Inv held leak (k a) t inv')
  run_Inv held leak (Act.cancel key k) s inv =
      bind_Post held leak (cancel reg key s) _ (cancel_Inv held leak key s inv)
        (λ a t inv'. run_Inv held leak (k a) t inv')
  run_Inv held leak (Act.suspend key k) s inv =
      run_Inv held leak (k (suspend reg key s).0) (suspend reg key s).1
        (suspend_Inv held leak key s inv)
  run_Inv held leak (Act.resume key k) s inv =
      bind_Post held leak (resume reg key s) _ (resume_Inv held leak key s inv)
        (λ a t inv'. run_Inv held leak (k a) t inv')
  run_Inv held leak (Act.get_state key k) s inv = run_Inv held leak (k (get_state reg s key)) s inv
  run_Inv held leak (Act.current k) s inv = run_Inv held leak (k s.current) s inv
  run_Inv held leak (Act.registered_count k) s inv = run_Inv held leak (k (count s.registry)) s inv
  run_Inv held leak (Act.wake flags k) s inv =
      run_Inv held leak k (wake flags s) (wake_Inv held leak flags s inv)

  -- A new wheel has the invariant.
  pub new_Inv : (r : R) → reg.Inv r → ((key : ℕ) → get r key ≡ none) → Inv none 0 (new reg r)
  new_Inv r valid empty = record {
    valid = valid;
    counted = omega (
      arith,
      suspended_total_lem r,
      sum_below-eq_zero (capacity r) (λ k. susp (get r k)) (λ j. ap susp (empty j)),
    );
    polls = λ k t e p. absurd (ground (arith, empty k, e));
    holds = λ k h. absurd (ground (arith, h));
  }

  -- The leak is what the count exceeds the number of suspended tasks by.
  pub Inv-leak :
      (held : Option ℕ) (leak n : ℕ) (s : Sched R)
      → Inv held leak s
      → suspended_total s.registry + n ≡ s.suspended_count
      → Inv held n s
  Inv-leak held leak n s inv exact = record {
    valid = inv.valid;
    counted = exact;
    polls = inv.polls;
    holds = inv.holds;
  }
