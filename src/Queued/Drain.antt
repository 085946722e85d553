-- ===== src/Queued/Drain.antt =====
-- src/dy/algorithm.rs: `drain_runnable` on deferred tasks that are registered.
use juggle.Prelude.{
  ℕ, ◌≤◌, ◌≡◌, ◌↔◌, refl, sym, ap, Bool, false, not, Bool-cases, inl, inr, List, [], ◌∷◌, ◌++◌, ok,
  ◌==◌, arith, length,
}
use juggle.Task.{DynamicFuture}
use juggle.TaskRegistry.{TaskRegistry}
use juggle.Queued.{SchedulerAlgorithm, from_queue, to_queue, set_from}
use juggle.Queued.Beat.{drain_runnable}
use juggle.Queued.Sweep.{filter, AllDistinct, AllIn, stays, runs, IsSwept, drain-IsSwept}

module _ {F : Type 0} (reg : TaskRegistry (DynamicFuture F)) where
  open reg use {R, get, remove, capacity}

  length-filter :
      (test : ℕ → Bool) (keys : List ℕ)
      → (length (filter test keys) ≤ length keys)
        × (length keys ≡ length (filter test keys) → filter test keys ≡ keys)
  length-filter test [] = (omega arith, λ e. refl)
  length-filter test (key ∷ keys) =
      let (le, whole) = length-filter test keys in
      elim (Bool-cases (test key)) [
        | inl keep ↦ rw keep (omega (arith, le), λ e. ap (λ l. key ∷ l) (whole (omega (arith, e))))
        | inr not_kept ↦ rw not_kept (omega (arith, le), λ e. absurd (omega (arith, e, le)))
      ]

  pub from_queue-set_from :
      (queue : List ℕ) (q : SchedulerAlgorithm R) → from_queue (set_from queue q) ≡ queue
  from_queue-set_from queue q = elim (Bool-cases q.which_buffer) [
    | inl e ↦ rw e refl
    | inr e ↦ rw e refl
  ]

  to_queue-set_from :
      (queue : List ℕ) (q : SchedulerAlgorithm R) → to_queue (set_from queue q) ≡ to_queue q
  to_queue-set_from queue q = elim (Bool-cases q.which_buffer) [
    | inl e ↦ rw e refl
    | inr e ↦ rw e refl
  ]

  -- The state `t`, and whether a key left, after `drain_runnable` of `q`.
  pub record IsDrained (q : SchedulerAlgorithm R) (left : Bool) (t : SchedulerAlgorithm R)
      : Type 0 where
    pub waiting : t.deferred ≡ filter (stays reg q.ctrl.runnable q.ctrl.registry) q.deferred
    pub queued :
        from_queue t ≡ from_queue q ++ filter (runs reg q.ctrl.runnable q.ctrl.registry) q.deferred
    pub other_queue : to_queue t ≡ to_queue q
    pub swept : IsSwept reg q.deferred q.ctrl.registry t.ctrl.registry
    pub answer : (left ≡ false) ↔ (t.deferred ≡ q.deferred)

  -- When the deferred keys are registered and none stands twice, `drain_runnable` never panics: it
  -- keeps the waiting tasks in their order, puts the runnable ones at the end of the queue in their
  -- order, drops the suspended ones from the list, and removes exactly the cancelled ones from the
  -- registry; it answers whether any key left the list.
  pub drain_runnable-IsDrained :
      (q : SchedulerAlgorithm R)
      → reg.Inv q.ctrl.registry
      → AllIn reg q.ctrl.registry q.deferred
      → AllDistinct q.deferred
      → (left : Bool) × (t : SchedulerAlgorithm R) × (drain_runnable reg q ≡ ok (left, t))
        × IsDrained q left t
  unfolding drain_runnable
  drain_runnable-IsDrained q inv all apart =
      let (r', e, did) =
        drain-IsSwept reg q.ctrl.runnable q.deferred (from_queue q) q.ctrl.registry inv all apart in
      (
        not (length q.deferred == length kept),
        after r',
        rw (e, drain_runnable) refl,
        record {
          waiting = refl;
          queued = from_queue-set_from _ (emptied r');
          other_queue = to_queue-set_from _ (emptied r');
          swept = did;
          answer = by_length (length-filter test q.deferred).1;
        },
      )
    where
      test : ℕ → Bool
      test = stays reg q.ctrl.runnable q.ctrl.registry

      kept : List ℕ
      kept = filter test q.deferred

      emptied : R → SchedulerAlgorithm R
      emptied r' = record q { deferred = kept; ctrl = record q.ctrl { registry = r' } }

      after : R → SchedulerAlgorithm R
      after r' =
          set_from (from_queue q ++ filter (runs reg q.ctrl.runnable q.ctrl.registry) q.deferred)
            (emptied r')

      by_length :
          (length q.deferred ≡ length kept → kept ≡ q.deferred)
          → (not (length q.deferred == length kept) ≡ false) ↔ (kept ≡ q.deferred)
      by_length whole = (
        (λ e. whole (ground (arith, e))),
        (λ e.
            let same : length q.deferred ≡ length kept = ap length (sym e) in ground (arith, same)),
      )
