-- ===== src/Scheduler/Progress.antt =====
-- src/dy/unordered_algorithm.rs: the loop of `poll_internal` ends when the user's futures do.
use juggle.Prelude.{
  ℕ, zero, suc, ◌+◌, ◌<◌, ◌≤◌, ◌≡◌, refl, inl, inr, Bool, true, false, ◌||◌, Option, none, some,
  if◌then◌else◌, arith, Outcome, ok, panic, ◌>>=◌, is_some, Option-cases, Bool-cases,
}
use juggle.Task.{StopReason, DynamicFuture, Act}
use juggle.TaskRegistry.{TaskRegistry, IsRegistryPanic}
use juggle.TaskRegistry.Totals.{total-modify, total-remove}
use juggle.Scheduler.{
  Sched, Poll, start_poll, end_poll, remove_task, run, poll_local, poll_task, visit, visit_task,
  beat_from, beat_once, register_waker, clear_waker, finish, poll_loop, poll_internal,
}
use juggle.Scheduler.Inv.{Inv, Inv-frame, Post, run_Inv}
use juggle.Scheduler.Beat.{start_Inv, poll_local_Inv, visit_Inv, beat_once_Inv, Grows, Polled}
use juggle.Scheduler.Budget.{Affords, cost, left_in, Spent, run-Spent}

module _ {F : Type 0} (weight : F → ℕ) (reg : TaskRegistry (DynamicFuture F))
    (behaviour : F → ℕ → Act F)
    (affords : (future : F) (flags : ℕ)
      → Affords weight (weight future) (behaviour future flags)) where
  open reg use {R, get, insert, remove, count, capacity, modify}

  -- A step that leaves no more than it found, and less if it polled a task.
  abbrev Falls : Sched R → Outcome (Bool × Sched R) → Type 0
  Falls s (panic p) = Unit {0}
  Falls s (ok (polled, t)) =
      (left_in weight reg t ≤ left_in weight reg s)
      × (polled ≡ true → left_in weight reg t < left_in weight reg s)

  -- After a poll: a future that is ready still has its cost, until it is removed.
  abbrev Paid : ℕ → ℕ → Outcome (Bool × Sched R) → Type 0
  Paid key b (panic p) = Unit {0}
  Paid key b (ok (false, t)) = left_in weight reg t < b
  Paid key b (ok (true, t)) =
      (task : DynamicFuture F) × (get t.registry key ≡ some task)
      × (left_in weight reg t < b + cost weight (some task))

  poll_local-Paid :
      (leak key : ℕ) (task : DynamicFuture F) (s : Sched R)
      → Inv reg none leak s
      → get s.registry key ≡ some task
      → Paid key (left_in weight reg s) (poll_local reg behaviour key task s)
  unfolding poll_local
  poll_local-Paid leak key task s inv e = elim (Bool-cases task.polling) [
    | inl busy ↦ absurd (cc (inv.polls key task e busy))
    | inr idle ↦ rw idle (
        let inv' =
          Inv-frame reg (some key) leak _
            (record s { registry = modify start_poll key s.registry; runnable = _ }) refl refl
            (start_Inv reg leak s key task inv e) in
        ended idle (run reg (behaviour task.future task.flags) _)
          (run_Inv reg (some key) leak (behaviour task.future task.flags) _ inv')
          (run-Spent weight reg (some key) leak (weight task.future)
            (behaviour task.future task.flags) _ inv' (affords task.future task.flags)))
  ]
    where
      ended :
          task.polling ≡ false
          → (r : Outcome (Option F × Sched R)) → Post reg (some key) leak r
          → Spent weight reg
              (left_in weight reg (record s { registry = modify start_poll key s.registry })
                + weight task.future)
              r
          → Paid key (left_in weight reg s) (
              r >>= λ r. ok (
                if is_some r.0 then false else true,
                record r.1 { registry = modify (end_poll r.0) key r.1.registry },
              ))
      ended idle (panic p) post spent = tt
      ended idle (ok (some future, t)) inv' spent =
          let (held, here) = inv'.holds key refl in
          ground (
            arith,
            spent,
            idle,
            total-modify reg (cost weight) refl start_poll key s.registry task inv.valid e,
            total-modify reg (cost weight) refl (end_poll (some future)) key t.registry held
                inv'.valid here,
          )
      ended idle (ok (none, t)) inv' spent =
          let (held, here) = inv'.holds key refl in
          (
            end_poll none held,
            ground (arith, reg.get-modify (end_poll none) key t.registry key inv'.valid, here),
            ground (
              arith,
              spent,
              idle,
              total-modify reg (cost weight) refl start_poll key s.registry task inv.valid e,
              total-modify reg (cost weight) refl (end_poll none) key t.registry held inv'.valid
                  here,
            ),
          )

  remove_task-Paid :
      (key : ℕ) (task : DynamicFuture F) (s : Sched R)
      → reg.Inv s.registry
      → get s.registry key ≡ some task
      → (r : R) × (remove_task reg key s ≡ ok (record s { registry = r }))
        × (left_in weight reg (record s { registry = r }) + cost weight (some task)
            ≡ left_in weight reg s)
  unfolding remove_task
  remove_task-Paid key task s valid e = (
    (remove key s.registry).1,
    ground (arith, reg.remove-present key s.registry valid, e),
    total-remove reg (cost weight) refl key s.registry task valid e,
  )

  poll_task-Falls :
      (leak key : ℕ) (task : DynamicFuture F) (s : Sched R)
      → Inv reg none leak s
      → get s.registry key ≡ some task
      → Falls s (poll_task reg behaviour key task s)
  unfolding poll_task
  poll_task-Falls leak key task s inv e =
      let at = record s { current = some key } in
      let inv' = Inv-frame reg none leak s at refl refl inv in
      after (poll_local reg behaviour key task at)
        (poll_local_Inv reg behaviour leak key task at inv' e)
        (poll_local-Paid leak key task at inv' e)
    where
      after :
          (r : Outcome (Bool × Sched R))
          → Polled reg key leak r
          → Paid key (left_in weight reg s) r
          → Falls s (
              r >>= λ r.
              let s' = record r.1 { current = none } in
              if r.0 then (remove_task reg key s' >>= λ s''. ok (true, s'')) else ok (true, s'))
      after (panic p) post paid = tt
      after (ok (false, t)) post paid = (omega (arith, paid), λ q. paid)
      after (ok (true, t)) (inv', held, e') (task', here, paid) =
          let (r, gone, less) =
            remove_task-Paid key task' (record t { current = none }) inv'.valid here in
          rw gone (omega (arith, paid, less), λ q. omega (arith, paid, less))

  visit-Falls :
      (leak key : ℕ) (s : Sched R) → Inv reg none leak s → Falls s (visit reg behaviour key s)
  unfolding visit
  visit-Falls leak key s inv = elim (Option-cases (get s.registry key)) [
    | inl e ↦ rw (e, visit) (still refl)
    | inr (task, e) ↦ rw (e, visit) (by_reason task e task.stop_reason)
  ]
    where
      still : {t : Sched R} → t ≡ s → Falls s (ok (false, s))
      still e = (omega arith, λ q. absurd (cc q))

      by_reason :
          (task : DynamicFuture F)
          → get s.registry key ≡ some task
          → (o : StopReason) → Falls s (visit_task reg behaviour key task o s)
      by_reason task e StopReason.suspended = still refl
      by_reason task e StopReason.cancelled =
          let (r, gone, less) = remove_task-Paid key task s inv.valid e in
          rw gone (omega (arith, less), λ q. absurd (cc q))
      by_reason task e StopReason.none = elim (Bool-cases (s.runnable task.flags)) [
        | inl runs ↦ rw runs (poll_task-Falls leak key task s inv e)
        | inr waits ↦ rw waits (still refl)
      ]

  -- As `Falls`, of a beat in which a task was polled before if `any_poll`.
  abbrev FallsFrom : Bool → Sched R → Outcome (Bool × Sched R) → Type 0
  FallsFrom any_poll s (panic p) = Unit {0}
  FallsFrom any_poll s (ok (polled, t)) =
      (left_in weight reg t ≤ left_in weight reg s)
      × (polled ≡ true → any_poll ≡ false → left_in weight reg t < left_in weight reg s)

  beat_from-Falls :
      (leak left key : ℕ) (any_poll : Bool) (s : Sched R)
      → Inv reg none leak s
      → FallsFrom any_poll s (beat_from reg behaviour left key any_poll s)
  unfolding beat_from
  beat_from-Falls leak zero key any_poll s inv = (omega arith, λ q q'. absurd (cc (q, q')))
  beat_from-Falls leak (suc left) key any_poll s inv =
      after (visit reg behaviour key s) (visit_Inv reg behaviour leak key s inv)
        (visit-Falls leak key s inv) (λ l t b inv'. beat_from-Falls l left (suc key) b t inv')
    where
      joined :
          (polled : Bool) (t : Sched R) (o : Outcome (Bool × Sched R))
          → Falls s (ok (polled, t))
          → FallsFrom (any_poll || polled) t o
          → FallsFrom any_poll s o
      joined polled t (panic p) one rest = tt
      joined true t (ok (b, u)) one rest =
          (omega (arith, one.0, rest.0), λ q q'. omega (arith, one.1 refl, rest.0))
      joined false t (ok (b, u)) one rest = (
        omega (arith, one.0, rest.0),
        λ q q'. omega (arith, one.0, rest.1 q (ground (arith, q'))),
      )

      after :
          (r : Outcome (Bool × Sched R))
          → Grows reg leak r
          → Falls s r
          → ((l : ℕ) (t : Sched R) (b : Bool)
              → Inv reg none l t
              → FallsFrom b t (beat_from reg behaviour left (suc key) b t))
          → FallsFrom any_poll s
              (r >>= λ r. beat_from reg behaviour left (suc key) (any_poll || r.0) r.1)
      after (panic p) post falls again = tt
      after (ok (polled, t)) (l, le, inv') falls again =
          joined polled t _ falls (again l t (any_poll || polled) inv')

  beat_once-Falls :
      (leak : ℕ) (s : Sched R) → Inv reg none leak s → Falls s (beat_once reg behaviour s)
  unfolding beat_once
  beat_once-Falls leak s inv =
      whole (beat_once reg behaviour s) (beat_from-Falls leak (capacity s.registry) 0 false s inv)
    where
      whole : (r : Outcome (Bool × Sched R)) → FallsFrom false s r → Falls s r
      whole (panic p) falls = tt
      whole (ok (b, t)) falls = (falls.0, λ q. falls.1 q refl)

  -- The end of a call, or a panic inside the registry.
  abbrev pub Ends : ℕ → Outcome (Option (Poll × Sched R)) → Type 0
  Ends leak (panic p) = IsRegistryPanic p
  Ends leak (ok none) = ⊥
  Ends leak (ok (some (p, t))) = (l : ℕ) × (leak ≤ l) × Inv reg none l t

  Ends-mono : (m n : ℕ) (o : Outcome (Option (Poll × Sched R))) → m ≤ n → Ends n o → Ends m o
  Ends-mono m n (panic p) le post = post
  Ends-mono m n (ok none) le post = post
  Ends-mono m n (ok (some (p, t))) le (l, le', inv) = (l, omega arith, inv)

  finish-Ends :
      (leak : ℕ) (s : Sched R) → Inv reg none leak s → Ends leak (ok (some (finish reg s)))
  finish-Ends leak s inv =
      (leak, omega arith, Inv-frame reg none leak s _ (ground arith) (ground arith) inv)

  poll_loop-Ends :
      (leak fuel w : ℕ) (s : Sched R)
      → Inv reg none leak s
      → left_in weight reg s < fuel
      → Ends leak (poll_loop reg behaviour fuel w s)
  unfolding poll_loop
  poll_loop-Ends leak zero w s inv less = absurd (omega arith)
  poll_loop-Ends leak (suc fuel) w s inv less =
      first (beat_once reg behaviour s) (beat_once_Inv reg behaviour leak s inv)
        (beat_once-Falls leak s inv) (λ l t inv' less'. poll_loop-Ends l fuel w t inv' less')
    where
      Again : Type 0
      Again =
          (l : ℕ) (t : Sched R)
          → Inv reg none l t
          → left_in weight reg t < fuel
          → Ends l (poll_loop reg behaviour fuel w t)

      second :
          (l : ℕ) (u : Sched R)
          → left_in weight reg u ≤ fuel
          → (r : Outcome (Bool × Sched R)) → Grows reg l r
          → Falls u r
          → Again
          → Ends l (
              r >>= λ q. elim q.0 [
                | true ↦ poll_loop reg behaviour fuel w (clear_waker q.1)
                | false ↦ ok (some (finish reg q.1))
              ])
      second l u room (panic p) post falls again = post
      second l u room (ok (true, t)) (l', le, inv') falls again = Ends-mono l l' _ le (
          again l' (clear_waker t) (Inv-frame reg none l' t _ refl refl inv')
            (omega (arith, falls.1 refl)))
      second l u room (ok (false, t)) (l', le, inv') falls again =
          Ends-mono l l' (ok (some (finish reg t))) le (finish-Ends l' t inv')

      first :
          (r : Outcome (Bool × Sched R))
          → Grows reg leak r
          → Falls s r
          → Again
          → Ends leak (
              r >>= λ r. elim r.0 [
                | true ↦ poll_loop reg behaviour fuel w r.1
                | false ↦ beat_once reg behaviour (register_waker w r.1) >>= λ q. elim q.0 [
                  | true ↦ poll_loop reg behaviour fuel w (clear_waker q.1)
                  | false ↦ ok (some (finish reg q.1))
                ]
              ])
      first (panic p) post falls again = post
      first (ok (true, t)) (l, le, inv') falls again =
          Ends-mono leak l _ le (again l t inv' (omega (arith, falls.1 refl)))
      first (ok (false, t)) (l, le, inv') falls again =
          let u = register_waker w t in
          let inv'' = Inv-frame reg none l t u refl refl inv' in
          Ends-mono leak l _ le (
            second l u (omega (arith, falls.0)) (beat_once reg behaviour u)
              (beat_once_Inv reg behaviour l u inv'') (beat_once-Falls l u inv'') again)

  -- When each poll of a future, with the futures that it spawns, uses up some of the future's weight,
  -- then poll_internal, from a state with the invariant and with fuel for more rounds than the tasks
  -- and the weights of their futures add up to, ends: it returns in a state with the invariant, or it
  -- panics inside the registry.
  pub poll_internal-Ends :
      (leak fuel w : ℕ) (s : Sched R)
      → Inv reg none leak s
      → left_in weight reg s < fuel
      → Ends leak (poll_internal reg behaviour fuel w s)
  unfolding poll_internal
  poll_internal-Ends leak fuel w s inv less =
      poll_loop-Ends leak fuel w (clear_waker s) (Inv-frame reg none leak s _ refl refl inv) less
