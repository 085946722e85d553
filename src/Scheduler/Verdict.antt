-- ===== src/Scheduler/Verdict.antt =====
-- src/dy/unordered_algorithm.rs: what the three results of `poll_internal` mean.
use juggle.Prelude.{
  ℕ, zero, suc, ◌<◌, ◌≤◌, ◌≡◌, ◌≢◌, refl, ap, ◌∙◌, subst, inl, inr, Bool, true, false, Option, none,
  some, ◌==◌, arith, Outcome, ok, panic, ◌>>=◌, Option-cases, ℕ_discrete, dec_lt,
}
use juggle.Prelude.Range.{
  sum_below_mono, eq_of_sum_below, lt_of_sum_below, le-sum_below, pos_of_sum_below,
}
use juggle.Task.{StopReason, DynamicFuture, Act}
use juggle.TaskRegistry.{TaskRegistry, present, IsRegistryPanic}
use juggle.Scheduler.{
  Sched, Poll, pending, ready, is_suspended, register_waker, clear_waker, beat_once, finish,
  poll_loop, poll_internal,
}
use juggle.Scheduler.Inv.{Inv, Inv-frame, susp, suspended_total, suspended_total_lem}
use juggle.Scheduler.Beat.{Grows, beat_once_Inv}
use juggle.Scheduler.Silent.{IsQuiet, IsSilent, beat_once-IsSilent}

module _ {F : Type 0} (reg : TaskRegistry (DynamicFuture F)) where
  open reg use {R, get, insert, remove, count, capacity, modify}

  -- No task can be polled.
  abbrev pub AtRest : Sched R → Type 0
  AtRest s =
      (key : ℕ) (task : DynamicFuture F) → get s.registry key ≡ some task → IsQuiet s.runnable task

  -- The results by the counts, for the caller with the waker `w`.
  abbrev pub Verdict : ℕ → Poll → Sched R → Type 0
  Verdict w pending t =
      (0 < count t.registry)
      × (count t.registry ≢ t.suspended_count)
      × (t.last_waker ≡ some w)
      × AtRest t
  Verdict w (ready true) t = (count t.registry ≡ 0) × (t.last_waker ≡ none) × AtRest t
  Verdict w (ready false) t =
      (0 < count t.registry)
      × (count t.registry ≡ t.suspended_count)
      × (t.last_waker ≡ none)
      × AtRest t

  finish-Verdict :
      (w : ℕ) (s : Sched R)
      → s.last_waker ≡ some w
      → AtRest s
      → Verdict w (finish reg s).0 (finish reg s).1
  finish-Verdict w s here rest = elim (dec_lt 0 (count s.registry)) [
    | no nothing ↦
        let zero_count : count s.registry ≡ 0 = omega arith in
        rw zero_count (zero_count, refl, rest)
    | yes some_task ↦ elim (ℕ_discrete (count s.registry) s.suspended_count) [
      | yes all ↦
          let positive : (count s.registry == 0) ≡ false = ground arith in
          let equal : (count s.registry == s.suspended_count) ≡ true = ground arith in
          rw (positive, equal) (some_task, all, refl, rest)
      | no differ ↦
          let positive : (count s.registry == 0) ≡ false = ground arith in
          let unequal : (count s.registry == s.suspended_count) ≡ false = ground arith in
          rw (positive, unequal) (some_task, differ, here, rest)
    ]
  ]

  pub silent-AtRest : (s t : Sched R) → IsSilent reg 0 (capacity s.registry) s t → AtRest t
  silent-AtRest s t v key task e =
      v.quiet key (omega arith) (omega (arith, v.size, reg.lt_of_get t.registry key v.valid e)) task
        e

  module _ (behaviour : F → ℕ → Act F) where
    abbrev Concludes : ℕ → ℕ → Outcome (Option (Poll × Sched R)) → Type 0
    Concludes w leak (panic p) = IsRegistryPanic p
    Concludes w leak (ok none) = Unit
    Concludes w leak (ok (some (p, t))) =
        Verdict w p t × (leak' : ℕ) × (leak ≤ leak') × Inv reg none leak' t

    Concludes-mono :
        (w m n : ℕ) (r : Outcome (Option (Poll × Sched R)))
        → m ≤ n
        → Concludes w n r
        → Concludes w m r
    Concludes-mono w m n (panic p) le post = post
    Concludes-mono w m n (ok none) le post = post
    Concludes-mono w m n (ok (some (p, t))) le (v, l, le', inv) = (v, l, omega arith, inv)

    poll_loop-Concludes :
        (fuel w leak : ℕ) (s : Sched R)
        → Inv reg none leak s
        → Concludes w leak (poll_loop reg behaviour fuel w s)
    unfolding poll_loop
    poll_loop-Concludes zero w leak s inv = tt
    poll_loop-Concludes (suc fuel) w leak s inv =
        first (beat_once reg behaviour s) (beat_once_Inv reg behaviour leak s inv)
          (λ l u i. poll_loop-Concludes fuel w l u i)
      where
        second :
            (l : ℕ) (s' : Sched R) (q : Outcome (Bool × Sched R))
            → s'.last_waker ≡ some w
            → reg.Inv s'.registry
            → beat_once reg behaviour s' ≡ q
            → Grows reg l q
            → ((l : ℕ) (u : Sched R)
                → Inv reg none l u
                → Concludes w l (poll_loop reg behaviour fuel w u))
            → Concludes w l (
                q >>= λ q. elim q.0 [
                  | true ↦ poll_loop reg behaviour fuel w (clear_waker q.1)
                  | false ↦ ok (some (finish reg q.1))
                ])
        second l s' (panic p) here valid e post again = post
        second l s' (ok (true, u)) here valid e (l', le, inv') again =
            Concludes-mono w l l' _ le
              (again l' (clear_waker u) (Inv-frame reg none l' u _ refl refl inv'))
        second l s' (ok (false, u)) here valid e (l', le, inv') again =
            let v = beat_once-IsSilent reg behaviour s' u valid e in
            let kept : u.last_waker ≡ s'.last_waker = ap (λ (x : Sched R). x.last_waker) v.frame in
            (
              finish-Verdict w u (kept ∙ here) (silent-AtRest s' u v),
              l',
              le,
              Inv-frame reg none l' u _ (ground arith) (ground arith) inv',
            )

        first :
            (r : Outcome (Bool × Sched R))
            → Grows reg leak r
            → ((l : ℕ) (u : Sched R)
                → Inv reg none l u
                → Concludes w l (poll_loop reg behaviour fuel w u))
            → Concludes w leak (
                r >>= λ r. elim r.0 [
                  | true ↦ poll_loop reg behaviour fuel w r.1
                  | false ↦ beat_once reg behaviour (register_waker w r.1) >>= λ q. elim q.0 [
                    | true ↦ poll_loop reg behaviour fuel w (clear_waker q.1)
                    | false ↦ ok (some (finish reg q.1))
                  ]
                ])
        first (panic p) post again = post
        first (ok (true, u)) (l, le, inv') again = Concludes-mono w leak l _ le (again l u inv')
        first (ok (false, u)) (l, le, inv') again =
            let inv'' = Inv-frame reg none l u (register_waker w u) refl refl inv' in
            Concludes-mono w leak l _ le (
              second l (register_waker w u) (beat_once reg behaviour (register_waker w u)) refl
                inv''.valid refl (beat_once_Inv reg behaviour l (register_waker w u) inv'') again)

    pub poll_internal-Concludes :
        (fuel w leak : ℕ) (s : Sched R)
        → Inv reg none leak s
        → Concludes w leak (poll_internal reg behaviour fuel w s)
    unfolding poll_internal
    poll_internal-Concludes fuel w leak s inv =
        poll_loop-Concludes fuel w leak (clear_waker s) (Inv-frame reg none leak s _ refl refl inv)

  -- The results by the tasks, where `suspended_count` is exact.
  abbrev pub Meaning : ℕ → Poll → Sched R → Type 0
  Meaning w pending t =
      (t.last_waker ≡ some w)
      × AtRest t
      × (key : ℕ) × (task : DynamicFuture F) × (get t.registry key ≡ some task)
      × (task.stop_reason ≡ StopReason.none)
      × (t.runnable task.flags ≡ false)
  Meaning w (ready true) t = (key : ℕ) → get t.registry key ≡ none
  Meaning w (ready false) t =
      ((key : ℕ) (task : DynamicFuture F)
        → get t.registry key ≡ some task
        → task.stop_reason ≡ StopReason.suspended)
      × (key : ℕ) × (task : DynamicFuture F) × (get t.registry key ≡ some task)

  susp-le : (o : Option (DynamicFuture F)) → susp o ≤ present o
  susp-le none = omega arith
  susp-le (some task) = ground arith

  -- What the counts say of the tasks.
  some_task_left :
      (r : R)
      → reg.Inv r
      → 0 < count r
      → (key : ℕ) × (task : DynamicFuture F) × (get r key ≡ some task)
  some_task_left r valid pos =
      let (key, lt, here) =
        pos_of_sum_below (capacity r) (λ k. present (get r k))
          (omega (arith, reg.count_lem r valid)) in
      elim (Option-cases (get r key)) [
        | inl e ↦ absurd (ground (arith, here, e))
        | inr (task, e) ↦ (key, task, e)
      ]

  no_task_left : (r : R) → reg.Inv r → count r ≡ 0 → (key : ℕ) → get r key ≡ none
  no_task_left r valid empty key = elim (Option-cases (get r key)) [
    | inl e ↦ e
    | inr (task, e) ↦ absurd (
        omega (
          arith,
          empty,
          reg.count_lem r valid,
          ap present e,
          le-sum_below (capacity r) (λ k. present (get r k)) key (reg.lt_of_get r key valid e),
        ))
  ]

  all_suspended :
      (r : R)
      → reg.Inv r
      → suspended_total reg r ≡ count r
      → (key : ℕ) (task : DynamicFuture F) → get r key ≡ some task
      → task.stop_reason ≡ StopReason.suspended
  all_suspended r valid equal key task e =
      let same =
        eq_of_sum_below (capacity r) (λ k. susp (get r k)) (λ k. present (get r k))
          (λ j. susp-le (get r j))
          (omega (arith, equal, suspended_total_lem reg r, reg.count_lem r valid)) key
          (reg.lt_of_get r key valid e) in
      ground (arith, e, same)

  pub some_not_suspended :
      (r : R)
      → reg.Inv r
      → suspended_total reg r < count r
      → (key : ℕ) × (task : DynamicFuture F) × (get r key ≡ some task)
        × (is_suspended task.stop_reason ≡ false)
  some_not_suspended r valid less =
      let (key, lt, here) =
        lt_of_sum_below (capacity r) (λ k. susp (get r k)) (λ k. present (get r k))
          (omega (arith, less, suspended_total_lem reg r, reg.count_lem r valid)) in
      elim (Option-cases (get r key)) [
        | inl e ↦ absurd (ground (arith, here, e))
        | inr (task, e) ↦ (key, task, e, ground (arith, here, e))
      ]

  suspended-le : (r : R) → reg.Inv r → suspended_total reg r ≤ count r
  suspended-le r valid = omega (
    arith,
    suspended_total_lem reg r,
    reg.count_lem r valid,
    sum_below_mono (capacity r) (λ k. susp (get r k)) (λ k. present (get r k))
        (λ j. susp-le (get r j)),
  )

  Verdict-Meaning :
      (w : ℕ) (p : Poll) (t : Sched R) → Inv reg none 0 t → Verdict w p t → Meaning w p t
  Verdict-Meaning w pending t inv v =
      let (key, task, e, awake) =
        some_not_suspended t.registry inv.valid
          (omega (arith, v.1, inv.counted, suspended-le t.registry inv.valid)) in
      (
        v.2,
        v.3,
        key,
        task,
        e,
        ground (arith, v.3 key task e, awake),
        ground (arith, v.3 key task e, awake),
      )
  Verdict-Meaning w (ready true) t inv v = no_task_left t.registry inv.valid v.0
  Verdict-Meaning w (ready false) t inv v =
      let (key, task, e) = some_task_left t.registry inv.valid v.0 in
      (all_suspended t.registry inv.valid (omega (arith, v.1, inv.counted)), key, task, e)

  -- A call of `poll_internal` that returns with an exact count of the suspended tasks tells the truth:
  -- true when no task is left, false when there are tasks and all are suspended, and pending only when
  -- some task waits, none can be polled and the caller's waker is registered.
  pub poll_internal-Meaning :
      (behaviour : F → ℕ → Act F) (fuel w leak : ℕ) (s t : Sched R) (p : Poll)
      → Inv reg none leak s
      → poll_internal reg behaviour fuel w s ≡ ok (some (p, t))
      → suspended_total reg t.registry ≡ t.suspended_count
      → Meaning w p t
  poll_internal-Meaning behaviour fuel w leak s t p inv e exact =
      let (v, l, le, inv') =
        subst (Concludes behaviour w leak) e
          (poll_internal-Concludes behaviour fuel w leak s inv) in
      let none_leaked : l ≡ 0 = omega (arith, exact, inv'.counted) in
      Verdict-Meaning w p t (subst (λ n. Inv reg none n t) none_leaked inv') v
