-- ===== src/Static/Reuse.antt =====
-- src/st/wheel.rs: a static wheel that is dropped and locked again.
use juggle.Prelude.{
  ℕ, ◌+◌, ◌%◌, ◌<◌, ◌≤◌, ◌≡◌, ◌≢◌, refl, ◌∙◌, inl, inr, Bool, true, false, List, [], ◌∷◌, length,
  map, ◌==◌, if◌then◌else◌, arith, Outcome, ok, panic, ◌>>=◌, to_nat, Bool-cases,
}
use juggle.StaticTask.{
  StopReason, Slot, Status, StaticFuture, reset, clear_task, set_reason, clear_slot,
}
use juggle.Static.{StaticAlgorithm, is_valid}
use juggle.Static.Life.{
  StaticWheelDef, init_tasks, init, cleanup, next_generation, dispose, try_lock, unlock,
}

length-map : {A B : Type 0} (f : A → B) (xs : List A) → length (map f xs) ≡ length xs
length-map f [] = refl
length-map f (x ∷ xs) = rw (length-map f xs)

-- The generation after `g`.
abbrev pub bumped : ℕ → ℕ → ℕ
bumped m g = (g + 1) % (m + 1)

bumped-ne : (m g : ℕ) → 0 < m → g ≤ m → bumped m g ≢ g
bumped-ne m g pos le = grind arith

module _ {F : Type 0} where
  -- A task as it is before its first poll.
  abbrev pub fresh : StaticFuture F → StaticFuture F
  fresh task = record {
    slot = Slot.uninit;
    name = task.name;
    stop_reason = if task.start_suspended then StopReason.suspended else StopReason.none;
    polling = false;
    start_suspended = task.start_suspended;
    runnable = true;
  }

  abbrev pub starts_suspended : List (StaticFuture F) → ℕ
  starts_suspended [] = 0
  starts_suspended (task ∷ tasks) = to_nat task.start_suspended + starts_suspended tasks

  -- No task is in the middle of a poll.
  abbrev pub IsParked : List (StaticFuture F) → Type 0
  IsParked [] = Unit {0}
  IsParked (task ∷ tasks) = (task.polling ≡ false) × IsParked tasks

  abbrev cleaned : StaticFuture F → StaticFuture F
  cleaned task = set_reason StopReason.cancelled (clear_task true task)

  clear_slot-uninit : (slot : Slot F) → (clear_slot Status.uninit slot).0 ≡ Slot.uninit
  unfolding clear_slot
  clear_slot-uninit Slot.uninit = refl
  clear_slot-uninit (Slot.created f) = refl
  clear_slot-uninit Slot.dropped = refl

  reset-clear :
      (task : StaticFuture F)
      → task.polling ≡ false
      → reset true (clear_task true task) ≡ fresh task
  reset-clear task idle = ground (arith, clear_slot-uninit task.slot)

  init_tasks_lem :
      (ts : List (StaticFuture F))
      → IsParked ts
      → init_tasks false ts ≡ ok (starts_suspended ts, map fresh ts)
  unfolding init_tasks
  init_tasks_lem [] parked = refl
  init_tasks_lem (task ∷ ts) (idle, parked) =
      rw (idle, init_tasks_lem ts parked) (ground (arith, reset-clear task idle))

  cleanup_lem : (ts : List (StaticFuture F)) → IsParked ts → cleanup ts ≡ ok (map cleaned ts)
  unfolding cleanup
  cleanup_lem [] parked = refl
  cleanup_lem (task ∷ ts) (idle, parked) = rw (idle, cleanup_lem ts parked)

  cleaned-IsParked : (ts : List (StaticFuture F)) → IsParked ts → IsParked (map cleaned ts)
  cleaned-IsParked [] parked = tt
  cleaned-IsParked (task ∷ ts) (idle, parked) = (idle, cleaned-IsParked ts parked)

  -- What a clean-up leaves of a task does not show in a later start.
  fresh-cleaned : (ts : List (StaticFuture F)) → map fresh (map cleaned ts) ≡ map fresh ts
  fresh-cleaned [] = refl
  fresh-cleaned (task ∷ ts) = rw (fresh-cleaned ts)

  starts-cleaned :
      (ts : List (StaticFuture F)) → starts_suspended (map cleaned ts) ≡ starts_suspended ts
  starts-cleaned [] = refl
  starts-cleaned (task ∷ ts) = rw (starts-cleaned ts)

  -- The wheel as `init` leaves it, with the registry `ts` and the generation `g`.
  abbrev pub restarted : ℕ → StaticAlgorithm F → StaticAlgorithm F
  restarted g s = record s {
    registry = map fresh s.registry;
    suspended_count = starts_suspended s.registry;
    unfinished_count = length s.registry;
    current_generation = g;
  }

  init_lem :
      (m : ℕ) (s : StaticAlgorithm F)
      → IsParked s.registry
      → s.unfinished_count ≢ m
      → init m s ≡ ok (restarted s.current_generation s)
  unfolding init
  init_lem m s parked used =
      let again : (s.unfinished_count == m) ≡ false = ground arith in
      rw (again, init_tasks_lem s.registry parked, length-map fresh s.registry)

  -- Whether the clean-up is skipped or not.
  dispose-init :
      (m : ℕ) (s : StaticAlgorithm F)
      → IsParked s.registry
      → s.unfinished_count ≢ m
      → (dispose m s >>= init m) ≡ ok (restarted (bumped m s.current_generation) s)
  unfolding dispose next_generation
  dispose-init m s parked used = elim (Bool-cases (s.unfinished_count == 0)) [
    | inl over ↦ rw over (init_lem m _ parked used)
    | inr alive ↦
        rw (alive, cleanup_lem s.registry parked)
          (init_lem m _ (cleaned-IsParked s.registry parked) used
            ∙ rw (
              fresh-cleaned s.registry,
              starts-cleaned s.registry,
              length-map cleaned s.registry,
            ))
  ]

  abbrev locked : StaticAlgorithm F → Outcome (Bool × StaticWheelDef F)
  locked s = ok (true, record { lock = true; algorithm = s })

  -- Dropping a wheel that no task is polling in and locking it again gives every task as it was
  -- before its first poll, with both counts made anew, and handles of the dropped wheel are not
  -- valid any more.
  pub unlock-try_lock :
      (m : ℕ) (d : StaticWheelDef F)
      → 0 < m
      → d.algorithm.current_generation ≤ m
      → IsParked d.algorithm.registry
      → d.algorithm.unfinished_count ≢ m
      → ((unlock m d >>= try_lock m)
          ≡ ok (
            true,
            record {
              lock = true;
              algorithm = restarted (bumped m d.algorithm.current_generation) d.algorithm;
            },
          ))
        × (is_valid
              (restarted (bumped m d.algorithm.current_generation) d.algorithm)
              d.algorithm.current_generation
            ≡ false)
  unfolding unlock try_lock
  unlock-try_lock m d pos le parked used = (
    regroup (dispose m d.algorithm) _ (dispose-init m d.algorithm parked used),
    ground (arith, bumped-ne m d.algorithm.current_generation pos le),
  )
    where
      released : StaticAlgorithm F → Outcome (StaticWheelDef F)
      released s = ok (record { lock = false; algorithm = s })

      regroup :
          (o : Outcome (StaticAlgorithm F)) (t : StaticAlgorithm F)
          → (o >>= init m) ≡ ok t
          → ((o >>= released) >>= try_lock m) ≡ locked t
      regroup (ok s) t e = rw e
      regroup (panic p) t e = cc
