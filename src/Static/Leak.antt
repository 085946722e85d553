-- ===== src/Static/Leak.antt =====
-- src/st/algorithm.rs: a task that is suspended while it is to be restarted.
use juggle.Prelude.{
  Option, ℕ, ◌+◌, ◌≡◌, refl, ap, ◌∙◌, Bool, true, false, some, get_elem?, set, get_elem?-set_self,
  set-set, sum_by, sum_by-set, arith, ok,
}
use juggle.Task.{State}
use juggle.StaticTask.{StopReason, StaticFuture, StaticAct, reset, clear_task, set_reason}
use juggle.Static.{StaticAlgorithm, suspend, get_state, inc_suspended}
use juggle.Static.Beat.{visit_task, visit}
use juggle.Static.Inv.{susp}
use juggle.Static.Safe.{restart_task_lem}

module _ {F : Type 0} (initial : ℕ → StaticAct F) (behaviour : F → ℕ → StaticAct (Option F)) where
  -- The states after the suspension and after the round.
  abbrev suspended_state : ℕ → StaticFuture F → StaticAlgorithm F → StaticAlgorithm F
  suspended_state key task s =
      inc_suspended
        (record s { registry = set s.registry key (set_reason StopReason.restart_suspended task) })

  abbrev restarted_state : ℕ → StaticFuture F → StaticAlgorithm F → StaticAlgorithm F
  restarted_state key task s =
      inc_suspended
        (record s { registry = set s.registry key (reset false (clear_task true task)) })

  suspend_lem :
      (key : ℕ) (task : StaticFuture F) (s : StaticAlgorithm F)
      → get_elem? s.registry key ≡ some task
      → task.stop_reason ≡ StopReason.restart
      → suspend key s ≡ (true, suspended_state key task s)
  unfolding suspend
  suspend_lem key task s e was = ground (arith, e, was)

  visit_restart_suspended :
      (key : ℕ) (task : StaticFuture F) (s : StaticAlgorithm F)
      → get_elem? s.registry key ≡ some task
      → task.stop_reason ≡ StopReason.restart_suspended
      → task.polling ≡ false
      → visit initial behaviour key s
        ≡ ok
            (false, record s { registry = set s.registry key (reset false (clear_task true task)) })
  unfolding visit visit_task
  visit_restart_suspended key task s e was idle =
      rw (e, visit)
        (rw (was, visit_task)
          (rw (restart_task_lem initial behaviour StopReason.suspended key task s e idle)))

  -- A suspension of a task that is to be restarted answers true and counts the task as suspended,
  -- but the next round restarts the task without a poll and leaves it runnable, while the count of
  -- suspended tasks stays one higher.
  pub suspend-visit :
      (key : ℕ) (task : StaticFuture F) (s : StaticAlgorithm F)
      → get_elem? s.registry key ≡ some task
      → task.stop_reason ≡ StopReason.restart
      → task.polling ≡ false
      → (t : StaticAlgorithm F) × ((suspend key s).0 ≡ true)
        × (visit initial behaviour key (suspend key s).1 ≡ ok (false, t))
        × (get_state t key ≡ State.runnable)
        × (t.suspended_count ≡ s.suspended_count + 1)
        × (sum_by susp t.registry ≡ sum_by susp s.registry)
  suspend-visit key task s e was idle =
      let done = suspend_lem key task s e was in
      let here =
        get_elem?-set_self s.registry key task (set_reason StopReason.restart_suspended task) e in
      (
        restarted_state key task s,
        ap (λ p. p.0) done,
        ap (λ (p : Bool × StaticAlgorithm F). visit initial behaviour key p.1) done
            ∙ visit_restart_suspended key (set_reason StopReason.restart_suspended task)
                (suspended_state key task s) here refl idle
            ∙ ap (λ r. ok (false, record (suspended_state key task s) { registry = r }))
                (set-set s.registry key _ _),
        ground
            (arith, get_elem?-set_self s.registry key task (reset false (clear_task true task)) e),
        refl,
        ground (
          arith,
          was,
          sum_by-set susp s.registry key task (reset false (clear_task true task)) e,
        ),
      )
