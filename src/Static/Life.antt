-- ===== src/Static/Life.antt =====
-- src/st/algorithm.rs: `init` and `dispose`, and src/st/wheel.rs: the lock of a static wheel and the
-- drop of the wheel that holds it.
use juggle.Prelude.{
  ℕ, ◌+◌, ◌%◌, Bool, true, false, List, [], ◌∷◌, length, ◌==◌, if◌then◌else◌, Outcome, ok, panic,
  recursive_poll, ◌>>=◌, to_nat,
}
use juggle.StaticTask.{StopReason, StaticFuture, reset, clear_task, set_reason}
use juggle.Static.{StaticAlgorithm}

pub record StaticWheelDef (F : Type 0) : Type 0 where
  pub lock : Bool
  pub algorithm : StaticAlgorithm F

module _ {F : Type 0} where
  -- The loops of `init`: over a wheel that was never initialized, and over one that is used again. The
  -- number counts the tasks that start suspended.
  unfoldable pub init_tasks : Bool → List (StaticFuture F) → Outcome (ℕ × List (StaticFuture F))
  init_tasks first [] = ok (0, [])
  init_tasks true (task ∷ tasks) =
      init_tasks true tasks >>= λ r. ok (to_nat task.start_suspended + r.0, reset true task ∷ r.1)
  init_tasks false (task ∷ tasks) =
      let rest = init_tasks false tasks in
      if task.polling
      then panic recursive_poll
      else (rest >>= λ r.
          ok (to_nat task.start_suspended + r.0, reset true (clear_task true task) ∷ r.1))

  -- `m` is the greatest usize, the mark of a wheel that was never initialized.
  unfoldable pub init : ℕ → StaticAlgorithm F → Outcome (StaticAlgorithm F)
  init m s = init_tasks (s.unfinished_count == m) s.registry >>= λ r.
      ok (record s { registry = r.1; suspended_count = r.0; unfinished_count = length r.1 })

  -- The loop of `dispose`: `cleanup` of each task.
  unfoldable pub cleanup : List (StaticFuture F) → Outcome (List (StaticFuture F))
  cleanup [] = ok []
  cleanup (task ∷ tasks) =
      let rest = cleanup tasks in
      if task.polling
      then panic recursive_poll
      else (rest >>= λ ts. ok (set_reason StopReason.cancelled (clear_task true task) ∷ ts))

  unfoldable pub next_generation : ℕ → StaticAlgorithm F → StaticAlgorithm F
  next_generation m s = record s { current_generation = (s.current_generation + 1) % (m + 1) }

  unfoldable pub dispose : ℕ → StaticAlgorithm F → Outcome (StaticAlgorithm F)
  dispose m s =
      let cleaned = cleanup s.registry in
      if s.unfinished_count == 0
      then ok (next_generation m s)
      else (cleaned >>= λ ts. ok (next_generation m (record s { registry = ts })))

  unfoldable pub try_lock : ℕ → StaticWheelDef F → Outcome (Bool × StaticWheelDef F)
  try_lock m d =
      if d.lock
      then ok (false, d)
      else (init m d.algorithm >>= λ s. ok (true, record { lock = true; algorithm = s }))

  -- `drop` of the `StaticWheel`.
  unfoldable pub unlock : ℕ → StaticWheelDef F → Outcome (StaticWheelDef F)
  unlock m d = dispose m d.algorithm >>= λ s. ok (record { lock = false; algorithm = s })
