-- ===== src/Queued/Retained.antt =====
-- src/dy/algorithm.rs: the `retain` of the registry at the end of a scan.
use juggle.Prelude.{
  ℕ, ◌+◌, ◌≡◌, refl, sym, ap, ◌∙◌, Bool, not, Bool-cases, inl, inr, Option, none, some, arith,
}
use juggle.Prelude.Range.{sum_below, sum_below-cong}
use juggle.Task.{StopReason, DynamicFuture}
use juggle.TaskRegistry.{TaskRegistry}
use juggle.Slab.Retain.{retained_value}
use juggle.Scheduler.{Sched}
use juggle.Scheduler.Inv.{Inv, susp, suspended_total, suspended_total_lem}
use juggle.Queued.{is_cancelled}

module _ {F : Type 0} (reg : TaskRegistry (DynamicFuture F)) where
  open reg use {R, get, capacity}

  -- The laws of the registry's `retain`.
  pub record RetainLaws (retain : (ℕ → DynamicFuture F → Bool) → R → R) : Type 0 where
    pub get-retain :
        (func : ℕ → DynamicFuture F → Bool) (r : R) (j : ℕ)
        → reg.Inv r
        → get (retain func r) j ≡ retained_value func j (get r j)
    pub capacity-retain :
        (func : ℕ → DynamicFuture F → Bool) (r : R)
        → reg.Inv r
        → capacity (retain func r) ≡ capacity r
    pub retain-Inv :
        (func : ℕ → DynamicFuture F → Bool) (r : R) → reg.Inv r → reg.Inv (retain func r)

  module _ (retain : (ℕ → DynamicFuture F → Bool) → R → R) (laws : RetainLaws retain) where
    abbrev not_cancelled : ℕ → DynamicFuture F → Bool
    not_cancelled key v = not (is_cancelled v.stop_reason)

    susp-retained :
        (j : ℕ) (o : Option (DynamicFuture F)) → susp (retained_value not_cancelled j o) ≡ susp o
    susp-retained j none = refl
    susp-retained j (some task) = by_reason task.stop_reason refl
      where
        by_reason :
            (o : StopReason)
            → task.stop_reason ≡ o
            → susp (retained_value not_cancelled j (some task)) ≡ susp (some task)
        by_reason StopReason.none was = ground (arith, was)
        by_reason StopReason.suspended was = ground (arith, was)
        by_reason StopReason.cancelled was = ground (arith, was)

    retained-some :
        (j : ℕ) (o : Option (DynamicFuture F)) (task : DynamicFuture F)
        → retained_value not_cancelled j o ≡ some task
        → o ≡ some task
    retained-some j none task e = e
    retained-some j (some t) task e = elim (Bool-cases (not_cancelled j t)) [
      | inl keeps ↦ rw keeps at e
      | inr drops ↦ absurd (cc (rw drops at e))
    ]

    pub retain_Inv :
        (leak : ℕ) (s : Sched R)
        → Inv reg none leak s
        → Inv reg none leak (record s { registry = retain not_cancelled s.registry })
    retain_Inv leak s inv = record {
      valid = laws.retain-Inv not_cancelled s.registry inv.valid;
      counted = ap (λ n. n + leak) same ∙ inv.counted;
      polls = λ key task e p.
          inv.polls key task
            (retained-some key (get s.registry key) task
              (sym (laws.get-retain not_cancelled s.registry key inv.valid) ∙ e))
            p;
      holds = λ key h. absurd (cc h);
    }
      where
        same :
            suspended_total reg (retain not_cancelled s.registry) ≡ suspended_total reg s.registry
        same =
            suspended_total_lem reg (retain not_cancelled s.registry)
            ∙ ap (λ n. sum_below n (λ k. susp (get (retain not_cancelled s.registry) k)))
                (laws.capacity-retain not_cancelled s.registry inv.valid)
            ∙ sum_below-cong (capacity s.registry) _ _ (λ j lt.
              ap susp (laws.get-retain not_cancelled s.registry j inv.valid)
              ∙ susp-retained j (get s.registry j))
            ∙ sym (suspended_total_lem reg s.registry)
