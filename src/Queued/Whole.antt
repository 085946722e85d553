-- ===== src/Queued/Whole.antt =====
-- src/dy/algorithm.rs: the invariant through whole beats and polls.
use juggle.Prelude.{
  ℕ, zero, suc, ◌≤◌, ◌≡◌, ◌⊎◌, refl, Bool, true, false, not, Bool-cases, inl, inr, Option, none,
  some, List, [], ◌∷◌, Outcome, ok, panic, ◌>>=◌, arith, if◌then◌else◌, ◌==◌, Option-cases,
  unwrap_none,
}
use juggle.Task.{DynamicFuture, Act}
use juggle.TaskRegistry.{TaskRegistry}
use juggle.Scheduler.{pending, ready, clear_waker}
use juggle.Scheduler.Inv.{Inv, Inv-frame}
use juggle.Queued.{SchedulerAlgorithm, Rotate, wait, continue, to_queue, is_cancelled, on_ctrl}
use juggle.Queued.Beat.{
  process_tasks, retain_queue, scan, rotate, rotate_once, beat_once, is_idle, poll_internal,
}
use juggle.Queued.Rounds.{Keeps, Rotates, rotate-Rotates}
use juggle.Queued.Polls.{Answers, Polls, process_tasks-Answers}
use juggle.Queued.Retained.{RetainLaws, retain_Inv}

module _ {F : Type 0} (reg : TaskRegistry (DynamicFuture F)) where
  open reg use {R, get}

  module _ (retain : (ℕ → DynamicFuture F → Bool) → R → R) (laws : RetainLaws reg retain) where
    -- The queue is read only; a missing task is an unwrapped none.
    retain_queue_unwraps :
        (r : R) (queue : List ℕ)
        → ((kept : List ℕ) × (retain_queue reg retain r queue ≡ ok kept))
          ⊎ (retain_queue reg retain r queue ≡ panic unwrap_none)
    unfolding retain_queue
    retain_queue_unwraps r [] = inl ([], refl)
    retain_queue_unwraps r (key ∷ queue) = elim (Option-cases (get r key)) [
      | inl e ↦ inr (rw (e, retain_queue) refl)
      | inr (task, e) ↦ elim (retain_queue_unwraps r queue) [
        | inl (kept, did) ↦ inl (
          (if is_cancelled task.stop_reason then kept else key ∷ kept),
          rw (e, retain_queue) (rw did refl),
        )
        | inr failed ↦ inr (rw (e, retain_queue) (rw failed refl))
      ]
    ]

    scan-Keeps :
        (leak : ℕ) (q : SchedulerAlgorithm R)
        → Inv reg none leak q.ctrl
        → Keeps reg leak (scan reg retain q)
    unfolding scan
    scan-Keeps leak q inv = elim (Bool-cases q.scan_registry) [
      | inr e ↦ rw (e, scan) (leak, omega arith, inv)
      | inl e ↦ elim (retain_queue_unwraps q.ctrl.registry (to_queue q)) [
        | inl (kept, did) ↦
            rw (e, scan) (rw did (leak, omega arith, retain_Inv reg retain laws leak q.ctrl inv))
        | inr failed ↦ rw (e, scan) (rw failed (ground arith, ground arith, ground arith))
      ]
    ]

    Polls-mono :
        {X : Type 0} (m n : ℕ) (o : Outcome (Option (X × SchedulerAlgorithm R)))
        → m ≤ n
        → Polls reg n o
        → Polls reg m o
    Polls-mono m n (panic p) le post = post
    Polls-mono m n (ok none) le post = tt
    Polls-mono m n (ok (some (x, q))) le (l, le', inv) = (l, omega arith, inv)

    module _ (behaviour : F → ℕ → Act F) where
      rotate_once-Rotates :
          (fuel leak : ℕ) (q : SchedulerAlgorithm R)
          → Inv reg none leak q.ctrl
          → Rotates reg leak (rotate_once reg retain behaviour fuel q)
      unfolding rotate_once
      rotate_once-Rotates fuel leak q inv =
          scanned (rotate reg retain behaviour fuel q)
            (rotate-Rotates reg retain behaviour fuel leak q inv)
        where
          kept :
              (l : ℕ) (o : Outcome (SchedulerAlgorithm R))
              → leak ≤ l
              → Keeps reg l o
              → Rotates reg leak (o >>= λ t. ok (some t))
          kept l (panic p) le post = post
          kept l (ok t) le (l', le', inv') = (l', omega arith, inv')

          scanned :
              (o : Outcome (Option (SchedulerAlgorithm R)))
              → Rotates reg leak o
              → Rotates reg leak (
                  o >>= λ o. elim o [
                    | none ↦ ok none
                    | some t ↦ scan reg retain t >>= λ t. ok (some t)
                  ])
          scanned (panic p) post = post
          scanned (ok none) post = tt
          scanned (ok (some t)) (l, le, inv') = kept l (scan reg retain t) le (scan-Keeps l t inv')

      beat_once-Polls :
          (fuel leak waker : ℕ) (q : SchedulerAlgorithm R)
          → Inv reg none leak q.ctrl
          → Polls reg leak (beat_once reg retain behaviour fuel waker q)
      unfolding beat_once
      beat_once-Polls fuel leak waker q inv =
          processed (process_tasks reg waker q) (process_tasks-Answers reg leak waker q inv)
        where
          rotated :
              (l : ℕ) (o : Outcome (Option (SchedulerAlgorithm R)))
              → leak ≤ l
              → Rotates reg l o
              → Polls reg leak
                  (o >>= λ o. elim o [ none ↦ ok none | some t ↦ ok (some (continue, t)) ])
          rotated l (panic p) le post = post
          rotated l (ok none) le post = tt
          rotated l (ok (some t)) le (l', le', inv') = (l', omega arith, inv')

          processed :
              (o : Outcome (Rotate × SchedulerAlgorithm R))
              → Answers reg leak o
              → Polls reg leak (
                  o >>= λ p. elim p.0 [
                    | wait ↦ ok (some (wait, p.1))
                    | continue ↦ rotate_once reg retain behaviour fuel p.1 >>= λ o. elim o [
                      | none ↦ ok none
                      | some t ↦ ok (some (continue, t))
                    ]
                  ])
          processed (panic p) post = post
          processed (ok (wait, t)) post = post
          processed (ok (continue, t)) (l, le, inv') =
              rotated l (rotate_once reg retain behaviour fuel t) le
                (rotate_once-Rotates fuel l t inv')

      -- From a state with the invariant of the scheduler, `poll_internal` with any fuel never polls
      -- recursively, never misses a task that it removes, and never takes from a count of suspended
      -- tasks that is 0; when it returns, the invariant holds again.
      pub poll_internal-Polls :
          (fuel rounds leak waker : ℕ) (q : SchedulerAlgorithm R)
          → Inv reg none leak q.ctrl
          → Polls reg leak (poll_internal reg retain behaviour fuel rounds waker q)
      unfolding poll_internal
      poll_internal-Polls zero rounds leak waker q inv = tt
      poll_internal-Polls (suc fuel) rounds leak waker q inv =
          beaten (beat_once reg retain behaviour rounds waker (on_ctrl clear_waker q))
            (beat_once-Polls rounds leak waker (on_ctrl clear_waker q)
              (Inv-frame reg none leak q.ctrl _ refl refl inv))
            (λ l t inv'. poll_internal-Polls fuel rounds l waker t inv')
        where
          beaten :
              (o : Outcome (Option (Rotate × SchedulerAlgorithm R)))
              → Polls reg leak o
              → ((l : ℕ) (t : SchedulerAlgorithm R)
                  → Inv reg none l t.ctrl
                  → Polls reg l (poll_internal reg retain behaviour fuel rounds waker t))
              → Polls reg leak (
                  o >>= λ o. elim o [
                    | none ↦ ok none
                    | some b ↦
                        let q' = record b.1 { which_buffer = not b.1.which_buffer } in
                        elim b.0 [
                          | wait ↦ ok (some (pending, q'))
                          | continue ↦ elim (is_idle reg retain behaviour q') [
                            | true ↦ ok (some (ready (q'.ctrl.suspended_count == 0), q'))
                            | false ↦ poll_internal reg retain behaviour fuel rounds waker q'
                          ]
                        ]
                  ])
          beaten (panic p) post again = post
          beaten (ok none) post again = tt
          beaten (ok (some (wait, t))) post again = post
          beaten (ok (some (continue, t))) (l, le, inv') again =
              by_idle (is_idle reg retain behaviour t') (λ e. again l t' inv')
            where
              t' : SchedulerAlgorithm R
              t' = record t { which_buffer = not t.which_buffer }

              by_idle :
                  (b : Bool)
                  → (b ≡ false
                      → Polls reg l (poll_internal reg retain behaviour fuel rounds waker t'))
                  → Polls reg leak (elim b [
                    | true ↦ ok (some (ready (t'.ctrl.suspended_count == 0), t'))
                    | false ↦ poll_internal reg retain behaviour fuel rounds waker t'
                  ])
              by_idle true more = (l, le, inv')
              by_idle false more =
                  Polls-mono leak l (poll_internal reg retain behaviour fuel rounds waker t') le
                    (more refl)
