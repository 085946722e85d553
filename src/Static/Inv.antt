-- ===== src/Static/Inv.antt =====
-- src/st/algorithm.rs: the invariant of the count of suspended tasks.
use juggle.Prelude.{
  ℕ, suc, ◌+◌, ◌-◌, ◌≤◌, ◌≡◌, ◌⊎◌, refl, ◌∙◌, inl, inr, true, Option, some, get_elem?, set,
  get_elem?-set, lt_of_get_elem?, sum_by, sum_by-set, le-sum_by, arith, Panic, Outcome, ok, panic,
  invalid_handle, index_out_of_bounds, Option-cases, ℕ_discrete,
}
use juggle.StaticTask.{StopReason, StaticFuture, set_reason}
use juggle.Static.{StaticAlgorithm, change}

-- 1 for a task that `suspended_count` counts.
abbrev pub susp_reason : StopReason → ℕ
susp_reason StopReason.suspended = 1
susp_reason StopReason.restart_suspended = 1
susp_reason _ = 0

abbrev pub susp : {F : Type 0} → StaticFuture F → ℕ
susp task = susp_reason task.stop_reason

-- The panics of `get_id_by_index`.
abbrev pub ByIndex : Panic → Type 0
ByIndex p = (p ≡ invalid_handle) ⊎ (p ≡ index_out_of_bounds)

module _ {F : Type 0} where
  -- `held` is the key of the task that is being polled, and `leak` the amount by which
  -- `suspended_count` exceeds the number of suspended tasks.
  pub record Inv (held : Option ℕ) (leak : ℕ) (s : StaticAlgorithm F) : Type 0 where
    pub counted : sum_by susp s.registry + leak ≡ s.suspended_count
    pub polls :
        (key : ℕ) (task : StaticFuture F)
        → get_elem? s.registry key ≡ some task
        → task.polling ≡ true
        → held ≡ some key
    pub holds :
        (key : ℕ)
        → held ≡ some key
        → (task : StaticFuture F) × (get_elem? s.registry key ≡ some task)

  -- The invariant, with a count that exceeds by `leak` or more.
  abbrev pub Grown : Option ℕ → ℕ → StaticAlgorithm F → Type 0
  Grown held leak s = (l : ℕ) × (leak ≤ l) × Inv held l s

  -- User code that returns, in a state with the invariant, or that misuses `get_id_by_index`.
  abbrev pub Post : {A : Type 0} → Option ℕ → ℕ → Outcome (A × StaticAlgorithm F) → Type 0
  Post held leak (panic p) = ByIndex p
  Post held leak (ok (a, s)) = Grown held leak s

  pub Inv-frame :
      (held : Option ℕ) (leak : ℕ) (s t : StaticAlgorithm F)
      → t.registry ≡ s.registry
      → t.suspended_count ≡ s.suspended_count
      → Inv held leak s
      → Inv held leak t
  Inv-frame held leak s t e e' inv = record {
    counted = rw (e, e') inv.counted;
    polls = rw e inv.polls;
    holds = rw e inv.holds;
  }

  -- A write of a task that leaves its `polling` flag, with the count changed to match.
  pub set_Inv :
      (held : Option ℕ) (leak : ℕ) (s : StaticAlgorithm F) (key : ℕ) (task new : StaticFuture F)
      (l n : ℕ)
      → Inv held leak s
      → get_elem? s.registry key ≡ some task
      → new.polling ≡ task.polling
      → n + susp task + leak ≡ s.suspended_count + susp new + l
      → Inv held l (record s { registry = set s.registry key new; suspended_count = n })
  set_Inv held leak s key task new l n inv e same balance = record {
    counted = omega (arith, balance, inv.counted, sum_by-set susp s.registry key task new e);
    polls = λ k t e' p. ground (
      arith,
      get_elem?-set s.registry key k new,
      e,
      e',
      p,
      same,
      inv.polls k t,
      inv.polls key task,
    );
    holds = λ k h.
        let (t, e') = inv.holds k h in
        elim (ℕ_discrete key k) [
          | yes at ↦ (
            new,
            get_elem?-set s.registry key k new
                ∙ ground (arith, at, lt_of_get_elem? s.registry key e),
          )
          | no away ↦ (t, get_elem?-set s.registry key k new ∙ ground (arith, e', away))
        ];
  }

  -- A new reason for the task at `key`, with the count as it becomes.
  pub reason_Inv :
      (held : Option ℕ) (leak : ℕ) (s : StaticAlgorithm F) (key : ℕ) (task : StaticFuture F)
      (val : StopReason) (l n : ℕ)
      → Inv held leak s
      → get_elem? s.registry key ≡ some task
      → n + susp task + leak ≡ s.suspended_count + susp_reason val + l
      → Inv held l
          (record s { registry = set s.registry key (set_reason val task); suspended_count = n })
  reason_Inv held leak s key task val l n inv e balance =
      set_Inv held leak s key task (set_reason val task) l n inv e refl balance

  -- The count is not 0 while a task is suspended.
  pub counted_suc :
      (held : Option ℕ) (leak : ℕ) (s : StaticAlgorithm F) (key : ℕ) (task : StaticFuture F)
      → Inv held leak s
      → get_elem? s.registry key ≡ some task
      → susp task ≡ 1
      → (n : ℕ) × (s.suspended_count ≡ suc n)
  counted_suc held leak s key task inv e one =
      (s.suspended_count - 1, omega (arith, inv.counted, le-sum_by susp s.registry key task e))

  pub change_lem :
      (f : StaticFuture F → StaticFuture F) (key : ℕ) (s : StaticAlgorithm F)
      (task : StaticFuture F)
      → get_elem? s.registry key ≡ some task
      → change f key s ≡ record s { registry = set s.registry key (f task) }
  change_lem f key s task e = rw (e, change)

  pub change_Inv :
      (held : Option ℕ) (leak : ℕ) (f : StaticFuture F → StaticFuture F) (key : ℕ)
      (s : StaticAlgorithm F)
      → ((t : StaticFuture F) → susp (f t) ≡ susp t)
      → ((t : StaticFuture F) → (f t).polling ≡ t.polling)
      → Inv held leak s
      → Inv held leak (change f key s)
  change_Inv held leak f key s same same' inv = elim (Option-cases (get_elem? s.registry key)) [
    | inl e ↦ rw (e, change) inv
    | inr (task, e) ↦ rw (change_lem f key s task e) (
        set_Inv held leak s key task (f task) leak s.suspended_count inv e (same' task)
          (omega (arith, same task)))
  ]
