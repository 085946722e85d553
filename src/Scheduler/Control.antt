-- ===== src/Scheduler/Control.antt =====
-- src/dy/unordered_algorithm.rs: `cancel`, `suspend` and `resume` as moves of a machine over the
-- states that `get_state` shows.
use juggle.Prelude.{
  ℕ, zero, suc, ◌+◌, ◌≡◌, refl, inl, inr, Bool, true, false, Option, none, some, ◌==◌,
  if◌then◌else◌, arith, ok, Option-cases, ℕ_discrete,
}
use juggle.Task.{StopReason, State, DynamicFuture}
use juggle.TaskRegistry.{TaskRegistry}
use juggle.Scheduler.{
  Sched, is_suspended, with_reason, dec_suspended, lower, set_stop_reason, resume, suspend, cancel,
  get_state, task_state,
}
use juggle.Scheduler.Inv.{Inv, susp, suspended_total-modify}

-- The machine: the answer of a call by the state of its task, and the state after it. `flag` says
-- whether the task's waker was called since its last poll.
abbrev pub cancel_answer : State → Bool
cancel_answer State.cancelled = false
cancel_answer State.inactive = false
cancel_answer _ = true

abbrev pub cancel_next : State → State
cancel_next State.inactive = State.inactive
cancel_next _ = State.cancelled

abbrev pub suspend_answer : State → Bool
suspend_answer State.runnable = true
suspend_answer State.waiting = true
suspend_answer _ = false

abbrev pub suspend_next : State → State
suspend_next State.runnable = State.suspended
suspend_next State.waiting = State.suspended
suspend_next st = st

abbrev pub resume_answer : State → Bool
resume_answer State.suspended = true
resume_answer _ = false

abbrev pub resume_next : Bool → State → State
resume_next flag State.suspended = if flag then State.runnable else State.waiting
resume_next flag st = st

module _ {F : Type 0} (reg : TaskRegistry (DynamicFuture F)) where
  open reg use {R, get, insert, remove, count, capacity, modify}

  -- From `s` to `t` the state of `key` becomes `st`, and no other changes.
  abbrev pub Moves : ℕ → State → Sched R → Sched R → Type 0
  Moves key st s t = (j : ℕ) → get_state reg t j ≡ (if key == j then st else get_state reg s j)

  module _ (held : Option ℕ) (leak : ℕ) (s : Sched R) (inv : Inv reg held leak s) (key : ℕ) where
    abbrev flag : Bool
    flag = elim (get s.registry key) [ none ↦ false | some task ↦ s.runnable task.flags ]

    stays : Moves key (get_state reg s key) s s
    stays j = elim (ℕ_discrete key j) [ yes at ↦ rw at (ground arith) | no away ↦ ground arith ]

    sets :
        (task : DynamicFuture F) (val : StopReason) (n : ℕ)
        → get s.registry key ≡ some task
        → Moves key
            (task_state val (s.runnable task.flags))
            s
            (record s { registry = modify (with_reason val) key s.registry; suspended_count = n })
    sets task val n e j =
        ground (arith, reg.get-modify (with_reason val) key s.registry j inv.valid, e)

    -- There is a count to take back for a suspended task.
    lowers :
        (task : DynamicFuture F) (val : StopReason)
        → get s.registry key ≡ some task
        → task.stop_reason ≡ StopReason.suspended
        → is_suspended val ≡ false
        → (n : ℕ) × (dec_suspended (set_stop_reason reg key val s)
            ≡ ok (record s {
              registry = modify (with_reason val) key s.registry;
              suspended_count = n;
            }))
          × (n + 1 ≡ s.suspended_count)
    unfolding dec_suspended lower
    lowers task val e was will = by_count s.suspended_count refl
      where
        was_one : susp (some task) ≡ 1
        was_one = ground (arith, was)

        will_none : susp (some (with_reason val task)) ≡ 0
        will_none = ground (arith, will)

        by_count :
            (c : ℕ)
            → s.suspended_count ≡ c
            → (n : ℕ) × (lower c (set_stop_reason reg key val s)
                ≡ ok (record s {
                  registry = modify (with_reason val) key s.registry;
                  suspended_count = n;
                }))
              × (n + 1 ≡ c)
        by_count zero z = absurd (
            omega (
              arith,
              z,
              was_one,
              will_none,
              inv.counted,
              suspended_total-modify reg (with_reason val) key s.registry task inv.valid e,
            ))
        by_count (suc n) z = (n, refl, omega arith)

    -- `cancel` never panics. It answers and moves as the machine does.
    cancel-Moves :
        (t : Sched R) × (cancel reg key s ≡ ok (cancel_answer (get_state reg s key), t))
        × Moves key (cancel_next (get_state reg s key)) s t
    unfolding cancel
    cancel-Moves = elim (Option-cases (get s.registry key)) [
      | inl e ↦ (s, ground (arith, e), λ j. ground (arith, e))
      | inr (task, e) ↦ by_reason task e task.stop_reason refl
    ]
      where
        by_reason :
            (task : DynamicFuture F)
            → get s.registry key ≡ some task
            → (o : StopReason) → task.stop_reason ≡ o
            → (t : Sched R) × (cancel reg key s ≡ ok (cancel_answer (get_state reg s key), t))
              × Moves key (cancel_next (get_state reg s key)) s t
        by_reason task e StopReason.none was = (
          set_stop_reason reg key StopReason.cancelled s,
          ground (arith, e, was),
          λ j. ground (arith, sets task StopReason.cancelled s.suspended_count e j, e, was),
        )
        by_reason task e StopReason.cancelled was =
            (s, ground (arith, e, was), λ j. ground (arith, e, was))
        by_reason task e StopReason.suspended was =
            let (n, low, size) = lowers task StopReason.cancelled e was refl in
            (
              record s {
                registry = modify (with_reason StopReason.cancelled) key s.registry;
                suspended_count = n;
              },
              ground (arith, e, was, low),
              λ j. ground (arith, sets task StopReason.cancelled n e j, e, was),
            )

    -- So does `suspend`.
    suspend-Moves :
        ((suspend reg key s).0 ≡ suspend_answer (get_state reg s key))
        × Moves key (suspend_next (get_state reg s key)) s (suspend reg key s).1
    unfolding suspend
    suspend-Moves = elim (Option-cases (get s.registry key)) [
      | inl e ↦ (ground (arith, e), λ j. ground (arith, e))
      | inr (task, e) ↦ by_reason task e task.stop_reason refl
    ]
      where
        by_reason :
            (task : DynamicFuture F)
            → get s.registry key ≡ some task
            → (o : StopReason) → task.stop_reason ≡ o
            → ((suspend reg key s).0 ≡ suspend_answer (get_state reg s key))
              × Moves key (suspend_next (get_state reg s key)) s (suspend reg key s).1
        by_reason task e StopReason.none was = (
          ground (arith, e, was),
          λ j. ground (arith, sets task StopReason.suspended (s.suspended_count + 1) e j, e, was),
        )
        by_reason task e StopReason.cancelled was =
            (ground (arith, e, was), λ j. ground (arith, e, was))
        by_reason task e StopReason.suspended was =
            (ground (arith, e, was), λ j. ground (arith, e, was))

    -- And `resume`, which never panics: a resumed task is runnable if its waker was called.
    resume-Moves :
        (t : Sched R) × (resume reg key s ≡ ok (resume_answer (get_state reg s key), t))
        × Moves key (resume_next flag (get_state reg s key)) s t
    unfolding resume
    resume-Moves = elim (Option-cases (get s.registry key)) [
      | inl e ↦ (s, ground (arith, e), λ j. ground (arith, e))
      | inr (task, e) ↦ by_reason task e task.stop_reason refl
    ]
      where
        by_reason :
            (task : DynamicFuture F)
            → get s.registry key ≡ some task
            → (o : StopReason) → task.stop_reason ≡ o
            → (t : Sched R) × (resume reg key s ≡ ok (resume_answer (get_state reg s key), t))
              × Moves key (resume_next flag (get_state reg s key)) s t
        by_reason task e StopReason.none was =
            (s, ground (arith, e, was), λ j. ground (arith, e, was))
        by_reason task e StopReason.cancelled was =
            (s, ground (arith, e, was), λ j. ground (arith, e, was))
        by_reason task e StopReason.suspended was =
            let (n, low, size) = lowers task StopReason.none e was refl in
            (
              record s {
                registry = modify (with_reason StopReason.none) key s.registry;
                suspended_count = n;
              },
              ground (arith, e, was, low),
              λ j. ground (arith, sets task StopReason.none n e j, e, was),
            )

    -- On a valid scheduler, `cancel`, `suspend` and `resume` never panic; each answers as the state of
    -- the task says, moves that state as the machine of states does, and leaves every other state.
    pub cancel-suspend-resume-Moves :
        ((t : Sched R) × (cancel reg key s ≡ ok (cancel_answer (get_state reg s key), t))
          × Moves key (cancel_next (get_state reg s key)) s t)
        × (((suspend reg key s).0 ≡ suspend_answer (get_state reg s key))
            × Moves key (suspend_next (get_state reg s key)) s (suspend reg key s).1)
        × ((t : Sched R) × (resume reg key s ≡ ok (resume_answer (get_state reg s key), t))
            × Moves key (resume_next flag (get_state reg s key)) s t)
    cancel-suspend-resume-Moves = (cancel-Moves, suspend-Moves, resume-Moves)

  -- A task that can be suspended is given back by `resume` as it was: every state is as before.
  resume-suspend :
      (held : Option ℕ) (leak : ℕ) (s : Sched R) (key : ℕ)
      → Inv reg held leak s
      → suspend_answer (get_state reg s key) ≡ true
      → (t : Sched R) × (resume reg key (suspend reg key s).1 ≡ ok (true, t))
        × ((j : ℕ) → get_state reg t j ≡ get_state reg s j)
        × (t.suspended_count ≡ s.suspended_count)
  unfolding suspend resume dec_suspended lower
  resume-suspend held leak s key inv awake = elim (Option-cases (get s.registry key)) [
    | inl e ↦ absurd (ground (arith, e, awake))
    | inr (task, e) ↦ by_reason task e task.stop_reason refl
  ]
    where
      by_reason :
          (task : DynamicFuture F)
          → get s.registry key ≡ some task
          → (o : StopReason) → task.stop_reason ≡ o
          → (t : Sched R) × (resume reg key (suspend reg key s).1 ≡ ok (true, t))
            × ((j : ℕ) → get_state reg t j ≡ get_state reg s j)
            × (t.suspended_count ≡ s.suspended_count)
      by_reason task e StopReason.cancelled was = absurd (ground (arith, e, was, awake))
      by_reason task e StopReason.suspended was = absurd (ground (arith, e, was, awake))
      by_reason task e StopReason.none was =
          let r = modify (with_reason StopReason.suspended) key s.registry in
          let valid = reg.modify-Inv (with_reason StopReason.suspended) key s.registry inv.valid in
          let there =
            reg.get-modify (with_reason StopReason.suspended) key s.registry key inv.valid in
          let more : s.suspended_count + 1 ≡ suc s.suspended_count = omega arith in
          (
            record s { registry = modify (with_reason StopReason.none) key r },
            ground (arith, e, was, there, more),
            λ j. ground (
              arith,
              e,
              was,
              there,
              reg.get-modify (with_reason StopReason.suspended) key s.registry j inv.valid,
              reg.get-modify (with_reason StopReason.none) key r j valid,
            ),
            refl,
          )
