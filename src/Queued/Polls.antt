-- ===== src/Queued/Polls.antt =====
-- src/dy/algorithm.rs: what a whole `poll_internal` keeps.
use juggle.Prelude.{
  ℕ, ◌+◌, ◌≤◌, ◌≡◌, refl, sym, ap, ◌∙◌, subst, Bool, true, false, not, ◌&&◌, Bool-cases,
  Option-cases, inl, inr, Option, none, some, List, [], ◌∷◌, length, ◌==◌, Outcome, ok, panic,
  ◌>>=◌, arith, if◌then◌else◌, is_some, ok-injective,
}
use juggle.Task.{StopReason, DynamicFuture}
use juggle.TaskRegistry.{TaskRegistry, IsRegistryPanic}
use juggle.Scheduler.{Sched, register_waker, clear_waker, remove_task}
use juggle.Scheduler.Inv.{Inv, Inv-frame, susp}
use juggle.Scheduler.Beat.{remove_Inv}
use juggle.Queued.{
  SchedulerAlgorithm, wait, continue, from_queue, to_queue, set_from, is_empty, on_ctrl,
}
use juggle.Queued.Beat.{Drained, drain_task, drain_elem, drain, drain_runnable, process_tasks}
use juggle.Queued.Rounds.{Valid}

module _ {F : Type 0} (reg : TaskRegistry (DynamicFuture F)) where
  open reg use {R, get, remove, capacity}

  -- As `Keeps`, for a call with an answer, which may be out of fuel.
  abbrev pub Answers : {X : Type 0} → ℕ → Outcome (X × SchedulerAlgorithm R) → Type 0
  Answers leak (panic p) = IsRegistryPanic p
  Answers leak (ok (x, q)) = Valid reg leak q

  abbrev pub Polls : {X : Type 0} → ℕ → Outcome (Option (X × SchedulerAlgorithm R)) → Type 0
  Polls leak (panic p) = IsRegistryPanic p
  Polls leak (ok none) = Unit {0}
  Polls leak (ok (some (x, q))) = Valid reg leak q

  module _ (flags : ℕ → Bool) (s : Sched R) where
    abbrev InvAt : ℕ → R → Type 0
    InvAt leak r = Inv reg none leak (record s { registry = r })

    abbrev Drains : {X : Type 0} → ℕ → Outcome (X × List ℕ × R) → Type 0
    Drains leak (panic p) = IsRegistryPanic p
    Drains leak (ok (x, to, r)) = (leak' : ℕ) × (leak ≤ leak') × InvAt leak' r

    removed :
        (leak key : ℕ) (r : R) (task : DynamicFuture F)
        → InvAt leak r
        → get r key ≡ some task
        → (is_some (remove key r).0 ≡ true) × InvAt (leak + susp (some task)) (remove key r).1
    unfolding remove_task
    removed leak key r task inv at =
        let (r', e, inv') = remove_Inv reg leak (record s { registry = r }) key task inv at in
        let did : is_some (remove key r).0 ≡ true =
          ground (arith, reg.remove-present key r inv.valid, at) in
        let gone : remove_task reg key (record s { registry = r })
            ≡ ok (record s { registry = (remove key r).1 }) =
          rw (did, remove_task) refl in
        let same : (remove key r).1 ≡ r' = ap (λ t. t.registry) (ok-injective (sym gone ∙ e)) in
        (did, subst (InvAt (leak + susp (some task))) (sym same) inv')

    drain_elem-Drains :
        (leak elem : ℕ) (to : List ℕ) (r : R)
        → InvAt leak r
        → Drains leak (drain_elem reg flags elem to r)
    drain_elem-Drains leak elem to r inv = elim (Option-cases (get r elem)) [
      | inl e ↦ rw (e, drain_elem) (ground arith, ground arith, ground arith)
      | inr (task, e) ↦ rw (e, drain_elem) (by_reason task e task.stop_reason)
    ]
      where
        by_reason :
            (task : DynamicFuture F)
            → get r elem ≡ some task
            → (o : StopReason) → Drains leak (drain_task reg elem o (flags task.flags) to r)
        by_reason task e StopReason.suspended = (leak, omega arith, inv)
        by_reason task e StopReason.cancelled =
            let (did, inv') = removed leak elem r task inv e in
            rw did (leak + susp (some task), omega arith, inv')
        by_reason task e StopReason.none = elim (Bool-cases (flags task.flags)) [
          | inl on ↦ rw on (leak, omega arith, inv)
          | inr off ↦ rw off (leak, omega arith, inv)
        ]

    drain-Drains :
        (leak : ℕ) (from to : List ℕ) (r : R)
        → InvAt leak r
        → Drains leak (drain reg flags from to r)
    unfolding drain
    drain-Drains leak [] to r inv = (leak, omega arith, inv)
    drain-Drains leak (elem ∷ from) to r inv =
        first (drain_elem reg flags elem to r) (drain_elem-Drains leak elem to r inv)
          (λ l to' r' inv'. drain-Drains l from to' r' inv')
      where
        second :
            (l : ℕ) (b : Bool) (o : Outcome (List ℕ × List ℕ × R))
            → leak ≤ l
            → Drains l o
            → Drains leak (o >>= λ e. ok (if b then elem ∷ e.0 else e.0, e.1, e.2))
        second l b (panic p) le post = post
        second l b (ok (kept, to', r')) le (l', le', inv') = (l', omega arith, inv')

        first :
            (o : Outcome (Drained reg))
            → Drains leak o
            → ((l : ℕ) (to' : List ℕ) (r' : R)
                → InvAt l r'
                → Drains l (drain reg flags from to' r'))
            → Drains leak (
                o >>= λ d. drain reg flags from d.1 d.2 >>= λ e.
                ok (if d.0 then elem ∷ e.0 else e.0, e.1, e.2))
        first (panic p) post rest = post
        first (ok (b, to', r')) (l, le, inv') rest =
            second l b (drain reg flags from to' r') le (rest l to' r' inv')

  Answers-mono :
      {X : Type 0} (m n : ℕ) (o : Outcome (X × SchedulerAlgorithm R))
      → m ≤ n
      → Answers n o
      → Answers m o
  Answers-mono m n (panic p) le post = post
  Answers-mono m n (ok (x, q)) le (l, le', inv) = (l, omega arith, inv)

  drain_runnable-Answers :
      (leak : ℕ) (q : SchedulerAlgorithm R)
      → Inv reg none leak q.ctrl
      → Answers leak (drain_runnable reg q)
  unfolding drain_runnable
  drain_runnable-Answers leak q inv =
      drained (drain reg q.ctrl.runnable q.deferred (from_queue q) q.ctrl.registry)
        (drain-Drains q.ctrl.runnable q.ctrl leak q.deferred (from_queue q) q.ctrl.registry inv)
    where
      drained :
          (o : Outcome (List ℕ × List ℕ × R))
          → Drains q.ctrl.runnable q.ctrl leak o
          → Answers leak (
              o >>= λ e. ok (
                not (length q.deferred == length e.0),
                set_from e.1 (record q { deferred = e.0; ctrl = record q.ctrl { registry = e.2 } }),
              ))
      drained (panic p) post = post
      drained (ok (kept, to', r')) post = post

  pub process_tasks-Answers :
      (leak waker : ℕ) (q : SchedulerAlgorithm R)
      → Inv reg none leak q.ctrl
      → Answers leak (process_tasks reg waker q)
  unfolding process_tasks
  process_tasks-Answers leak waker q inv = elim (Bool-cases (is_empty q.deferred)) [
    | inl e ↦ rw (e, process_tasks) (leak, omega arith, inv)
    | inr e ↦
        rw (e, process_tasks) (first (drain_runnable reg q) (drain_runnable-Answers leak q inv))
  ]
    where
      second :
          (l : ℕ) (o : Outcome (Bool × SchedulerAlgorithm R))
          → leak ≤ l
          → Answers l o
          → Answers leak
              (o >>= λ e. ok (if e.0 then (continue, on_ctrl clear_waker e.1) else (wait, e.1)))
      second l (panic p) le post = post
      second l (ok (true, t)) le (l', le', inv') =
          (l', omega arith, Inv-frame reg none l' t.ctrl _ refl refl inv')
      second l (ok (false, t)) le (l', le', inv') = (l', omega arith, inv')

      first :
          (o : Outcome (Bool × SchedulerAlgorithm R))
          → Answers leak o
          → Answers leak (
              o >>= λ d.
              if not d.0 && (is_empty (from_queue d.1) && is_empty (to_queue d.1))
              then (drain_runnable reg (on_ctrl (register_waker waker) d.1) >>= λ e.
                  ok (if e.0 then (continue, on_ctrl clear_waker e.1) else (wait, e.1)))
              else ok (continue, d.1))
      first (panic p) post = post
      first (ok (b, t)) (l, le, inv') =
          elim (Bool-cases (not b && (is_empty (from_queue t) && is_empty (to_queue t)))) [
            | inl e ↦ rw e (
                second l _ le (
                  drain_runnable-Answers l (on_ctrl (register_waker waker) t)
                    (Inv-frame reg none l t.ctrl _ refl refl inv')))
            | inr e ↦ rw e (l, le, inv')
          ]
