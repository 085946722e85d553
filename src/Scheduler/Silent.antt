-- ===== src/Scheduler/Silent.antt =====
-- src/dy/unordered_algorithm.rs: a beat that polls nothing. It only drops cancelled tasks, and leaves
-- tasks that are suspended or wait for their waker.
use juggle.Prelude.{
  ℕ, zero, suc, ◌+◌, ◌<◌, ◌≤◌, ◌≡◌, ◌≢◌, refl, sym, ap, ◌∙◌, subst, ◌⊎◌, inl, inr, Bool, true,
  false, ◌||◌, none, some, if◌then◌else◌, arith, Outcome, ok, panic, ◌>>=◌, is_some, Option-cases,
  Bool-cases, dec_lt, >>=-eq_ok,
}
use juggle.Task.{StopReason, DynamicFuture, Act}
use juggle.TaskRegistry.{TaskRegistry}
use juggle.Scheduler.{
  Sched, remove_task, poll_local, poll_task, visit, visit_task, beat_from, beat_once,
}

-- Not pollable in the state of the flags.
abbrev pub IsQuiet : {F : Type 0} → (ℕ → Bool) → DynamicFuture F → Type 0
IsQuiet flags task =
    (task.stop_reason ≡ StopReason.suspended)
    ⊎ ((task.stop_reason ≡ StopReason.none) × (flags task.flags ≡ false))

module _ {F : Type 0} (reg : TaskRegistry (DynamicFuture F)) where
  open reg use {R, get, insert, remove, count, capacity, modify}

  -- From `s` to `t` the keys from `key` on, `left` of them, came to rest, and all else is unchanged.
  pub record IsSilent (key left : ℕ) (s t : Sched R) : Type 0 where
    pub quiet :
        (j : ℕ)
        → key ≤ j
        → j < key + left
        → (task : DynamicFuture F) → get t.registry j ≡ some task
        → IsQuiet t.runnable task
    pub same_below : (j : ℕ) → j < key → get t.registry j ≡ get s.registry j
    pub same_above : (j : ℕ) → key + left ≤ j → get t.registry j ≡ get s.registry j
    pub frame : t ≡ record s { registry = t.registry }
    pub size : capacity t.registry ≡ capacity s.registry
    pub valid : reg.Inv t.registry

  stays :
      (key : ℕ) (s t : Sched R)
      → reg.Inv s.registry
      → ((task : DynamicFuture F) → get s.registry key ≡ some task → IsQuiet s.runnable task)
      → s ≡ t
      → IsSilent key 1 s t
  stays key s t valid rest e =
      subst (λ u. IsSilent key 1 s u) e
        (record {
          quiet = λ j l u. let at : j ≡ key = omega arith in rw at rest;
          same_below = λ j l. refl;
          same_above = λ j l. refl;
          frame = refl;
          size = refl;
          valid = valid;
        })

  dropped :
      (key : ℕ) (s : Sched R)
      → reg.Inv s.registry
      → IsSilent key 1 s (record s { registry = (remove key s.registry).1 })
  dropped key s valid = record {
    quiet = λ j l u task h. absurd (ground (arith, reg.get-remove key s.registry j valid, h));
    same_below = λ j l. reg.get-remove key s.registry j valid ∙ ground arith;
    same_above = λ j l. reg.get-remove key s.registry j valid ∙ ground arith;
    frame = refl;
    size = reg.capacity-remove key s.registry valid;
    valid = reg.remove-Inv key s.registry valid;
  }

  joins :
      (key left : ℕ) (s u t : Sched R)
      → IsSilent key 1 s u
      → IsSilent (suc key) left u t
      → IsSilent key (suc left) s t
  joins key left s u t one rest = record {
    quiet = λ j l h task e. elim (dec_lt key j) [
      | yes later ↦ rest.quiet j (omega arith) (omega arith) task e
      | no now ↦
          rw (ap (λ (x : Sched R). x.runnable) rest.frame)
            (one.quiet j l (omega arith) task (sym (rest.same_below j (omega arith)) ∙ e))
    ];
    same_below = λ j l. rest.same_below j (omega arith) ∙ one.same_below j l;
    same_above = λ j l. rest.same_above j (omega arith) ∙ one.same_above j (omega arith);
    frame = rest.frame ∙ ap (λ (x : Sched R). record x { registry = t.registry }) one.frame;
    size = rest.size ∙ one.size;
    valid = rest.valid;
  }

  module _ (behaviour : F → ℕ → Act F) where
    -- A poll is always reported.
    poll_task-true :
        (key : ℕ) (task : DynamicFuture F) (s t : Sched R)
        → poll_task reg behaviour key task s ≢ ok (false, t)
    unfolding poll_task
    poll_task-true key task s t = after (poll_local reg behaviour key task _)
      where
        removed :
            (r : Outcome (Sched R))
            → let end : Outcome (Bool × Sched R) = (r >>= λ s''. ok (true, s'')) in
              end ≢ ok (false, t)
        removed (panic p) e = cc
        removed (ok u) e = cc

        after :
            (r : Outcome (Bool × Sched R))
            → let end : Outcome (Bool × Sched R) =
                (r >>= λ r.
                let s' = record r.1 { current = none } in
                if r.0
                then (remove_task reg key s' >>= λ s''. ok (true, s''))
                else ok (true, s')) in
              end ≢ ok (false, t)
        after (panic p) e = cc
        after (ok (false, u)) e = cc
        after (ok (true, u)) e = removed _ e

    visit-IsSilent :
        (key : ℕ) (s t : Sched R)
        → reg.Inv s.registry
        → visit reg behaviour key s ≡ ok (false, t)
        → IsSilent key 1 s t
    unfolding visit remove_task
    visit-IsSilent key s t valid e = elim (Option-cases (get s.registry key)) [
      | inl miss ↦
          stays key s t valid (λ task h. absurd (ground (arith, miss, h))) (ground (arith, miss, e))
      | inr (task, here) ↦ by_reason task here task.stop_reason refl (rw (here, visit) at e)
    ]
      where
        by_reason :
            (task : DynamicFuture F)
            → get s.registry key ≡ some task
            → (o : StopReason) → task.stop_reason ≡ o
            → visit_task reg behaviour key task o s ≡ ok (false, t)
            → IsSilent key 1 s t
        by_reason task here StopReason.suspended was e =
            stays key s t valid (λ task' h. inl (ground (arith, here, h, was))) (ground (arith, e))
        by_reason task here StopReason.cancelled was e =
            let r = remove key s.registry in
            elim (Bool-cases (is_some r.0)) [
              | inr lost ↦ absurd (cc (rw lost at e))
              | inl found ↦
                  subst (λ u. IsSilent key 1 s u) (cc (rw found at e)) (dropped key s valid)
            ]
        by_reason task here StopReason.none was e = elim (Bool-cases (s.runnable task.flags)) [
          | inl runs ↦ absurd (poll_task-true key task s t (rw runs at e))
          | inr waits ↦
              let idle : (task' : DynamicFuture F)
                  → get s.registry key ≡ some task'
                  → IsQuiet s.runnable task' =
                λ task' h.
                  let same : task ≡ task' = ground (arith, here, h) in
                  subst (IsQuiet s.runnable) same (inr (was, waits)) in
              stays key s t valid idle (ground (arith, rw waits at e))
        ]

    beat_from-true :
        (left key : ℕ) (s t : Sched R) → beat_from reg behaviour left key true s ≢ ok (false, t)
    unfolding beat_from
    beat_from-true zero key s t e = cc
    beat_from-true (suc left) key s t e =
        let ((polled, u), first, rest) = >>=-eq_ok (visit reg behaviour key s) _ e in
        beat_from-true left (suc key) u t rest

    beat_from-IsSilent :
        (left key : ℕ) (s t : Sched R)
        → reg.Inv s.registry
        → beat_from reg behaviour left key false s ≡ ok (false, t)
        → IsSilent key left s t
    unfolding beat_from
    beat_from-IsSilent zero key s t valid e =
        subst (λ u. IsSilent key 0 s u) (cc e)
          (record {
            quiet = λ j l u. absurd (omega arith);
            same_below = λ j l. refl;
            same_above = λ j l. refl;
            frame = refl;
            size = refl;
            valid = valid;
          })
    beat_from-IsSilent (suc left) key s t valid e =
        let (r, first, rest) = >>=-eq_ok (visit reg behaviour key s) _ e in
        by_visit r first rest (λ u v. beat_from-IsSilent left (suc key) u t v)
      where
        by_visit :
            (r : Bool × Sched R)
            → visit reg behaviour key s ≡ ok r
            → beat_from reg behaviour left (suc key) (false || r.0) r.1 ≡ ok (false, t)
            → ((u : Sched R)
                → reg.Inv u.registry
                → beat_from reg behaviour left (suc key) false u ≡ ok (false, t)
                → IsSilent (suc key) left u t)
            → IsSilent key (suc left) s t
        by_visit (true, u) first rest again = absurd (beat_from-true left (suc key) u t rest)
        by_visit (false, u) first rest again =
            let one = visit-IsSilent key s u valid first in
            joins key left s u t one (again u one.valid rest)

    -- A beat that reports no poll leaves every task at rest and, but for dropped tasks, the state.
    pub beat_once-IsSilent :
        (s t : Sched R)
        → reg.Inv s.registry
        → beat_once reg behaviour s ≡ ok (false, t)
        → IsSilent 0 (capacity s.registry) s t
    unfolding beat_once
    beat_once-IsSilent s t valid e = beat_from-IsSilent (capacity s.registry) 0 s t valid e
