-- ===== src/Static/Safe.antt =====
-- src/st/algorithm.rs: `beat_once` keeps the invariant, and can only panic where it counts off a
-- task.
use juggle.Prelude.{
  ℕ, ◌≡◌, ◌⊎◌, ap, ◌∙◌, Bool, true, false, Option, none, some, get_elem?, set, get_elem?-set_self,
  set-set, Outcome, ok, panic, subtract_overflow,
}
use juggle.StaticTask.{StopReason, StaticFuture, StaticAct, reset, set_reason, clear_task}
use juggle.Static.{StaticAlgorithm, change}
use juggle.Static.Beat.{clear, restart_task}
use juggle.Static.Inv.{ByIndex, Inv, Grown, change_lem}

module _ {F : Type 0} where
  -- A step of the beat: a state with the invariant, or the panic of a count that falls below 0 or of
  -- user code that misuses `get_id_by_index`.
  abbrev pub Safe : {A : Type 0} → ℕ → Outcome (A × StaticAlgorithm F) → Type 0
  Safe leak (panic p) = (p ≡ subtract_overflow) ⊎ ByIndex p
  Safe leak (ok (a, s)) = Grown none leak s

  module _ (initial : ℕ → StaticAct F) (behaviour : F → ℕ → StaticAct (Option F)) where
    pub clear_lem :
        (to_uninit : Bool) (key : ℕ) (task : StaticFuture F) (s : StaticAlgorithm F)
        → task.polling ≡ false
        → clear to_uninit key task s ≡ ok (change (clear_task to_uninit) key s)
    unfolding clear
    clear_lem to_uninit key task s idle = rw idle

    -- The state in which a restart leaves the task at `key`.
    pub restart_task_lem :
        (val : StopReason) (key : ℕ) (task : StaticFuture F) (s : StaticAlgorithm F)
        → get_elem? s.registry key ≡ some task
        → task.polling ≡ false
        → restart_task initial behaviour val key task s
          ≡ ok (record s { registry = set s.registry key (reset false (clear_task true task)) })
    unfolding restart_task
    restart_task_lem val key task s e idle = rw (clear_lem true key task _ idle) (
        ap ok (
          ap (λ t. change (reset false) key (change (clear_task true) key t))
            (change_lem _ key s task e)
          ∙ ap (change (reset false) key) (change_lem _ key _ (set_reason val task) at)
          ∙ change_lem _ key _ (clear_task true (set_reason val task)) at'
          ∙ ap (λ r. record s { registry = r }) (set-set _ key _ _ ∙ set-set _ key _ _)))
      where
        at : get_elem? (set s.registry key (set_reason val task)) key ≡ some (set_reason val task)
        at = get_elem?-set_self s.registry key task _ e

        at' :
            get_elem?
              (set
                (set s.registry key (set_reason val task))
                key
                (clear_task true (set_reason val task)))
              key
            ≡ some (clear_task true (set_reason val task))
        at' = get_elem?-set_self _ key _ _ at
