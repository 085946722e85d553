-- ===== src/Queued/Scan.antt =====
-- src/dy/algorithm.rs: the scan of the registry at the end of `rotate_once`, and the deferred tasks.
use juggle.Prelude.{
  ℕ, ◌≡◌, refl, ap, ◌∙◌, Bool, true, false, not, Bool-cases, Option-cases, inl, inr, none, some,
  List, [], ◌∷◌, ok, panic, ◌>>=◌, >>=-eq_ok, ok-injective, unwrap_none, arith, subst, ℕ_discrete,
  sym,
}
use juggle.Task.{StopReason, DynamicFuture}
use juggle.TaskRegistry.{TaskRegistry}
use juggle.Slab.Retain.{retained_value}
use juggle.Queued.{
  SchedulerAlgorithm, contains, is_cancelled, push_back, from_queue, to_queue, set_to, on_ctrl,
}
use juggle.Queued.Beat.{drain_elem, drain, drain_runnable, retain_queue, scan}
use juggle.Queued.Sweep.{ends}

module _ {F : Type 0} (reg : TaskRegistry (DynamicFuture F)) where
  open reg use {R, get}

  -- A registered element that is not cancelled leaves the registry.
  drain_elem-live :
      (flags : ℕ → Bool) (elem : ℕ) (to : List ℕ) (r : R) (task : DynamicFuture F)
      → get r elem ≡ some task
      → is_cancelled task.stop_reason ≡ false
      → (b : Bool) × (to' : List ℕ) × (drain_elem reg flags elem to r ≡ ok (b, to', r))
  drain_elem-live flags elem to r task e live = by_reason task.stop_reason refl
    where
      by_reason :
          (o : StopReason)
          → task.stop_reason ≡ o
          → (b : Bool) × (to' : List ℕ) × (drain_elem reg flags elem to r ≡ ok (b, to', r))
      by_reason StopReason.suspended was = (false, to, rw (e, drain_elem) (rw was refl))
      by_reason StopReason.cancelled was = absurd (ground (arith, was, live))
      by_reason StopReason.none was = elim (Bool-cases (flags task.flags)) [
        | inl on ↦ (false, push_back elem to, rw (e, drain_elem) (rw was (rw on refl)))
        | inr off ↦ (true, to, rw (e, drain_elem) (rw was (rw off refl)))
      ]

  -- Without cancelled tasks an element that has none makes the closure panic.
  drain-missing :
      (flags : ℕ → Bool) (from to : List ℕ) (r : R) (key : ℕ)
      → ((j : ℕ) → ends reg r j ≡ false)
      → get r key ≡ none
      → contains key from ≡ true
      → drain reg flags from to r ≡ panic unwrap_none
  unfolding drain
  drain-missing flags [] to r key live gone mem = cc
  drain-missing flags (elem ∷ from) to r key live gone mem = elim (Option-cases (get r elem)) [
    | inl e ↦ rw (e, drain_elem) refl
    | inr (task, e) ↦
        let (b, to', did) = drain_elem-live flags elem to r task e (ground (arith, e, live elem)) in
        let later : contains key from ≡ true = elim (ℕ_discrete elem key) [
          | yes at ↦ absurd (cc (e, ap (get r) at, gone))
          | no away ↦ ground (arith, away, mem)
        ] in
        rw did (rw (drain-missing flags from to' r key live gone later) refl)
  ]

  module _ (retain : (ℕ → DynamicFuture F → Bool) → R → R)
      (retain_lem : (func : ℕ → DynamicFuture F → Bool) (r : R) (j : ℕ)
        → reg.Inv r
        → get (retain func r) j ≡ retained_value func j (get r j)) where
    -- In a valid registry, when a scan is asked for and does not panic itself, and a cancelled task is
    -- in the list of deferred ones, the scan removes it from the registry and not from the list: the
    -- next `drain_runnable` panics.
    pub drain_runnable-scan :
        (q t : SchedulerAlgorithm R) (key : ℕ)
        → reg.Inv q.ctrl.registry
        → q.scan_registry ≡ true
        → ends reg q.ctrl.registry key ≡ true
        → contains key q.deferred ≡ true
        → scan reg retain q ≡ ok t
        → drain_runnable reg t ≡ panic unwrap_none
    unfolding drain_runnable scan
    drain_runnable-scan q t key inv asked ended mem e =
        by_queue (>>=-eq_ok (retain_queue reg retain q.ctrl.registry (to_queue q)) _ started)
      where
        swept : List ℕ → SchedulerAlgorithm R
        swept kept =
            on_ctrl
              (λ s. record s {
                registry = retain (λ key v. not (is_cancelled v.stop_reason)) s.registry;
              })
              (set_to kept (record q { scan_registry = false }))

        started :
            (retain_queue reg retain q.ctrl.registry (to_queue q) >>= λ kept. ok (swept kept))
            ≡ ok t
        started = sym opened ∙ e
          where
            opened :
                scan reg retain q
                ≡ (retain_queue reg retain q.ctrl.registry (to_queue q) >>= λ kept. ok (swept kept))
            opened = rw (asked, scan) refl

        not_cancelled : ℕ → DynamicFuture F → Bool
        not_cancelled k v = not (is_cancelled v.stop_reason)

        rest : R
        rest = retain not_cancelled q.ctrl.registry

        live : (j : ℕ) → ends reg rest j ≡ false
        live j = elim (Option-cases (get q.ctrl.registry j)) [
          | inl no_task ↦ ground (arith, retain_lem not_cancelled q.ctrl.registry j inv, no_task)
          | inr (task, there) ↦ elim (Bool-cases (is_cancelled task.stop_reason)) [
            | inl yes_ended ↦
                ground (arith, retain_lem not_cancelled q.ctrl.registry j inv, there, yes_ended)
            | inr not_ended ↦
                ground (arith, retain_lem not_cancelled q.ctrl.registry j inv, there, not_ended)
          ]
        ]

        gone : get rest key ≡ none
        gone = elim (Option-cases (get q.ctrl.registry key)) [
          | inl no_task ↦ absurd (ground (arith, no_task, ended))
          | inr (task, there) ↦
              ground (arith, retain_lem not_cancelled q.ctrl.registry key inv, there, ended)
        ]

        by_queue :
            (kept : List ℕ) × (retain_queue reg retain q.ctrl.registry (to_queue q) ≡ ok kept)
              × (ok (swept kept) ≡ ok t)
            → drain_runnable reg t ≡ panic unwrap_none
        by_queue (kept, did, same) =
            subst (λ u. drain_runnable reg u ≡ panic unwrap_none) (ok-injective same)
              (rw
                (
                  drain-missing q.ctrl.runnable q.deferred (from_queue (swept kept)) rest key live
                      gone mem,
                  drain_runnable,
                )
                refl)
