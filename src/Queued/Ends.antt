-- ===== src/Queued/Ends.antt =====
-- src/dy/algorithm.rs: when the loop of `rotate_once` ends.
use juggle.Prelude.{
  ℕ, zero, suc, ◌<◌, ◌≡◌, refl, sym, ap, subst, Bool, Option-cases, inl, inr, none, some, List, [],
  ◌∷◌, ok, panic, length, arith, unknown_task, >>=-eq_ok,
}
use juggle.Task.{StopReason, DynamicFuture, Act}
use juggle.TaskRegistry.{TaskRegistry}
use juggle.Scheduler.Inv.{Inv}
use juggle.Queued.{SchedulerAlgorithm, from_queue, front, pop_front}
use juggle.Queued.Beat.{rotate_task, rotate_front, rotate}
use juggle.Queued.Rounds.{Keeps, rotate_front-Keeps}
use juggle.Queued.Stuck.{rotate-cancelled}
use juggle.Queued.Leaves.{Leaves, rotate_task-Leaves}

module _ {F : Type 0} (reg : TaskRegistry (DynamicFuture F)) where
  open reg use {R, get, modify}

  module _ (retain : (ℕ → DynamicFuture F → Bool) → R → R) (behaviour : F → ℕ → Act F) where
    -- The rounds of `rotate_once` that returned.
    pub data Rounds (q : SchedulerAlgorithm R) : SchedulerAlgorithm R → Type 0 where
      start : Rounds q q
      turn :
          {t u : SchedulerAlgorithm R} (key : ℕ)
          → Rounds q t
          → front (from_queue t) ≡ some key
          → rotate_front reg retain behaviour key t ≡ ok u
          → Rounds q u

    -- A state with a suspended task at the front of the queue, which the rounds come to.
    pub record IsBlocked (q : SchedulerAlgorithm R) : Type 0 where
      pub at : SchedulerAlgorithm R
      pub reached : Rounds q at
      pub key : ℕ
      pub task : DynamicFuture F
      pub first : front (from_queue at) ≡ some key
      pub here : get at.ctrl.registry key ≡ some task
      pub stops : task.stop_reason ≡ StopReason.suspended

    joins :
        {q t u : SchedulerAlgorithm R} (key : ℕ)
        → front (from_queue q) ≡ some key
        → rotate_front reg retain behaviour key q ≡ ok t
        → Rounds t u
        → Rounds q u
    joins key e did start = turn key start e did
    joins key e did (turn k r e' did') = turn k (joins key e did r) e' did'

    shorter :
        (queue : List ℕ) (key : ℕ)
        → front queue ≡ some key
        → length queue ≡ suc (length (pop_front queue))
    shorter [] key e = cc
    shorter (k ∷ queue) key e = refl

    abbrev Again : ℕ → Type 0
    Again fuel =
        (l : ℕ) (t : SchedulerAlgorithm R)
        → Inv reg none l t.ctrl
        → length (from_queue t) < fuel
        → rotate reg retain behaviour fuel t ≡ ok none
        → IsBlocked t

    module _ (leak : ℕ) (q : SchedulerAlgorithm R) (inv : Inv reg none leak q.ctrl) (key : ℕ)
        (at_front : front (from_queue q) ≡ some key) where
      polled-Leaves :
          (task : DynamicFuture F) (t : SchedulerAlgorithm R)
          → get q.ctrl.registry key ≡ some task
          → task.stop_reason ≡ StopReason.none
          → rotate_front reg retain behaviour key q ≡ ok t
          → from_queue t ≡ pop_front (from_queue q)
      unfolding rotate_front
      polled-Leaves task t here runs did =
          let left : Leaves reg (pop_front (from_queue q))
              (rotate_front reg retain behaviour key q) =
            rw (here, rotate_front)
              (subst
                (λ o.
                  Leaves reg (pop_front (from_queue q))
                    (rotate_task reg retain behaviour key task o q))
                (sym runs) (rotate_task-Leaves reg retain behaviour key task q at_front)) in
          subst (Leaves reg (pop_front (from_queue q))) did left

      cancelled_panics :
          (fuel : ℕ) (task : DynamicFuture F)
          → get q.ctrl.registry key ≡ some task
          → task.stop_reason ≡ StopReason.cancelled
          → length (from_queue q) < suc fuel
          → rotate reg retain behaviour (suc fuel) q ≡ panic unknown_task
      cancelled_panics zero task here was lt =
          absurd (omega (arith, lt, shorter (from_queue q) key at_front))
      cancelled_panics (suc fuel) task here was lt =
          rotate-cancelled reg retain behaviour q key task at_front here inv.valid was fuel

      round :
          (fuel : ℕ)
          → length (from_queue q) < suc fuel
          → rotate reg retain behaviour (suc fuel) q ≡ ok none
          → Again fuel
          → IsBlocked q
      unfolding rotate rotate_front
      round fuel lt e again = elim (Option-cases (get q.ctrl.registry key)) [
        | inl missing ↦ absurd (cc (rw (missing, rotate_front) at returned.1))
        | inr (task, here) ↦ by_reason task here task.stop_reason refl
      ]
        where
          returned :
              (t : SchedulerAlgorithm R) × (rotate_front reg retain behaviour key q ≡ ok t)
              × (rotate reg retain behaviour fuel t ≡ ok none)
          returned =
              >>=-eq_ok (rotate_front reg retain behaviour key q) _ (rw (at_front, rotate) at e)

          by_reason :
              (task : DynamicFuture F)
              → get q.ctrl.registry key ≡ some task
              → (o : StopReason) → task.stop_reason ≡ o
              → IsBlocked q
          by_reason task here StopReason.suspended was = record {
            at = q;
            reached = start;
            key = key;
            task = task;
            first = at_front;
            here = here;
            stops = was;
          }
          by_reason task here StopReason.cancelled was =
              absurd (cc (cancelled_panics fuel task here was lt, e))
          by_reason task here StopReason.none was =
              let (t, did, more) = returned in
              let (l, le, inv') =
                subst (Keeps reg leak) did
                  (rotate_front-Keeps reg retain behaviour leak key q inv) in
              let less = ap length (polled-Leaves task t here was did) in
              let b =
                again l t inv' (omega (arith, less, lt, shorter (from_queue q) key at_front))
                  more in
              record {
                at = b.at;
                reached = joins key at_front did b.reached;
                key = b.key;
                task = b.task;
                first = b.first;
                here = b.here;
                stops = b.stops;
              }

    -- From a state with the invariant of the scheduler, `rotate_once` with a round for each key of its
    -- queue and one more runs out of rounds only when it comes to a suspended task at the front of the
    -- queue: otherwise it ends, whatever the user's code does, or it panics.
    pub rotate-IsBlocked :
        (fuel leak : ℕ) (q : SchedulerAlgorithm R)
        → Inv reg none leak q.ctrl
        → length (from_queue q) < fuel
        → rotate reg retain behaviour fuel q ≡ ok none
        → IsBlocked q
    unfolding rotate
    rotate-IsBlocked zero leak q inv lt e = absurd (omega (arith, lt))
    rotate-IsBlocked (suc fuel) leak q inv lt e = elim (Option-cases (front (from_queue q))) [
      | inl none_left ↦ absurd (cc (rw (none_left, rotate) at e))
      | inr (key, at_front) ↦
          round leak q inv key at_front fuel lt e
            (λ l t inv' lt' e'. rotate-IsBlocked fuel l t inv' lt' e')
    ]
