-- ===== src/Static/Tests.antt =====
-- Runs of a static wheel, and its theorems at concrete states.
use juggle.Prelude.{
  ℕ, zero, suc, ◌+◌, ◌≡◌, refl, Bool, true, false, Option, none, some, List, [], ◌∷◌, get_elem?,
  sum_by, arith, Outcome, ok, panic, invalid_handle, ◌>>=◌, ◌==◌,
}
use juggle.Task.{State}
use juggle.StaticTask.{
  StopReason, Slot, Status, StaticFuture, StaticAct, makes, polls, drops, clear_slot, handle_task,
  after_poll,
}
use juggle.StaticTask.Lifecycle.{held, Owned, call, lives, lives-Owned}
use juggle.Static.{
  StaticAlgorithm, suspend, get_state, is_valid, run, dec_unfinished, get_id_by_index,
}
use juggle.Static.Beat.{
  clear, poll_task, visit_task, visit, beat_from, beat_once, poll_loop, poll_internal,
}
use juggle.Static.Life.{StaticWheelDef, try_lock, unlock}
use juggle.Static.Reuse.{bumped, restarted, unlock-try_lock}
use juggle.Static.Inv.{susp, Inv, Post}
use juggle.Static.Careful.{Careful, Returns, run-Careful}
use juggle.Static.Safe.{Safe}
use juggle.Static.Rest.{Rests}
use juggle.Static.Verdict.{Verdict, poll_internal-Verdict}
use juggle.Static.Still.{IsStill, cancelled_count}
use juggle.Static.CountedOff.{CountsTwice, poll_internal-CountsTwice}
use juggle.Static.Leak.{suspend-visit}
use juggle.Scheduler.{Poll, ready}

-- A task with the given reason and flag.
abbrev task_of : StopReason → Bool → StaticFuture ℕ
task_of reason runs = record {
  slot = Slot.uninit;
  name = none;
  stop_reason = reason;
  polling = false;
  start_suspended = false;
  runnable = runs;
}

abbrev wheel : List (StaticFuture ℕ) → ℕ → ℕ → StaticAlgorithm ℕ
wheel tasks suspended unfinished = record {
  registry = tasks;
  last_waker = none;
  woken = [];
  current = none;
  suspended_count = suspended;
  unfinished_count = unfinished;
  current_generation = 4;
}

-- A future that suspends the task of key 1 and waits, then is ready.
abbrev behaves : ℕ → ℕ → StaticAct (Option ℕ)
behaves zero key =
    StaticAct.get_id_by_index 4 1 (λ id. StaticAct.suspend 4 id (λ b. StaticAct.returns (some 1)))
behaves (suc n) key = StaticAct.returns none

-- The expression of a task that counts the tasks, and gives a future in its first state.
abbrev starts : ℕ → StaticAct ℕ
starts key = StaticAct.registered_count 4 (λ n. StaticAct.returns 0)

abbrev two : StaticAlgorithm ℕ
two = wheel (task_of StopReason.none true ∷ task_of StopReason.none true ∷ []) 0 2

-- The first task suspends the second before its turn.
beat_two : Outcome (Bool × StaticAlgorithm ℕ)
unfolding beat_once
beat_two = beat_once starts behaves two

two_Inv : Inv none 0 two
two_Inv = record { counted = refl; polls = λ k t e p. absurd (idle k t e p); holds = λ k h. cc }
  where
    idle : (k : ℕ) (t : StaticFuture ℕ) → get_elem? two.registry k ≡ some t → t.polling ≡ true → ⊥
    idle zero t e p = ground arith
    idle (suc zero) t e p = ground arith
    idle (suc (suc k)) t e p = cc

-- A handle of this life of the wheel gives the second identifier, one of another life panics.
abbrev asks : ℕ → StaticAct (Option ℕ)
asks generation =
    StaticAct.get_id_by_index generation 1
      (λ id. StaticAct.suspend 4 id (λ b. StaticAct.returns none))

asks_panics : run (asks 3) two ≡ panic invalid_handle
unfolding run get_id_by_index
asks_panics = refl

run-Careful_example :
    Post none 0 (run (asks 4) two)
    × (Careful {A = Option ℕ} 4 2 (asks 4) → Returns (run (asks 4) two))
run-Careful_example = run-Careful none 0 (asks 4) two two_Inv

asks-Returns : Returns (run (asks 4) two)
asks-Returns = run-Careful_example.1 (refl, omega arith, λ key b. tt)

-- Two tasks of which one is cancelled and the other waits: the call says that all are finished.
abbrev half : StaticAlgorithm ℕ
half = wheel (task_of StopReason.none false ∷ task_of StopReason.cancelled true ∷ []) 0 2

abbrev half_after : List (StaticFuture ℕ)
half_after =
    task_of StopReason.none false
    ∷ (record (task_of StopReason.cancelled true) { slot = Slot.dropped })
    ∷ []

abbrev half_ready : Outcome (Option (Poll × StaticAlgorithm ℕ))
half_ready = ok (some (ready true, wheel half_after 0 0))

poll_internal-half : poll_internal starts behaves 1 9 half ≡ half_ready
unfolding poll_internal poll_loop beat_once beat_from visit visit_task poll_task clear
    dec_unfinished clear_slot
poll_internal-half = refl

half-IsStill : IsStill half
half-IsStill zero = (refl, (cc, cc, λ e. refl))
half-IsStill (suc zero) = (refl, (cc, cc, λ e. cc))
half-IsStill (suc (suc j)) = tt

poll_internal-CountsTwice_example :
    CountsTwice starts behaves (cancelled_count half) half (poll_internal starts behaves 1 9 half)
poll_internal-CountsTwice_example = poll_internal-CountsTwice starts behaves 0 9 half half-IsStill

poll_internal-Verdict_example :
    Verdict starts behaves 9 (ready true) (wheel half_after 0 0)
    × ((j : ℕ) → Rests (get_elem? half_after j))
poll_internal-Verdict_example =
    poll_internal-Verdict starts behaves 1 9 half (ready true) (wheel half_after 0 0)
      poll_internal-half

-- A wheel with a future in its memory, dropped and locked again.
abbrev used : StaticWheelDef ℕ
used = record {
  lock = true;
  algorithm =
      wheel
        ((record (task_of StopReason.none false) { slot = Slot.created 1; start_suspended = true })
          ∷ [])
        0 1;
}

unlock-try_lock_example :
    ((unlock 255 used >>= try_lock 255)
      ≡ ok (true, record { lock = true; algorithm = restarted (bumped 255 4) used.algorithm }))
    × (is_valid (restarted (bumped 255 4) used.algorithm) 4 ≡ false)
unlock-try_lock_example =
    unlock-try_lock 255 used (omega arith) (omega arith) (refl, tt) (omega arith)

-- A future that is made by its first poll, kept by the second and replaced by a restart, whose
-- future is ready.
abbrev counts : ℕ → ℕ × Bool
counts n = (n + 1, 2 == n)

abbrev life : List (Status × ℕ × (ℕ → ℕ × Bool))
life = (Status.poll, 0, counts) ∷ (Status.poll, 9, counts) ∷ (Status.restart, 2, counts) ∷ []

life_effects :
    (lives life Slot.uninit).1
    ≡ makes 0 ∷ polls 0 1 ∷ polls 1 2 ∷ drops 2 ∷ makes 2 ∷ polls 2 3 ∷ drops 3 ∷ []
unfolding lives call handle_task clear_slot after_poll
life_effects = refl

lives-Owned_example :
    Owned (held {F = ℕ} Slot.uninit) (lives life Slot.uninit).1 (held (lives life Slot.uninit).0)
lives-Owned_example = lives-Owned life Slot.uninit

abbrev to_restart : StaticAlgorithm ℕ
to_restart = wheel (task_of StopReason.restart false ∷ []) 0 1

suspend-visit_example :
    (t : StaticAlgorithm ℕ) × ((suspend 0 to_restart).0 ≡ true)
    × (visit starts behaves 0 (suspend 0 to_restart).1 ≡ ok (false, t))
    × (get_state t 0 ≡ State.runnable)
    × (t.suspended_count ≡ 1)
    × (sum_by susp t.registry ≡ 0)
suspend-visit_example =
    suspend-visit starts behaves 0 (task_of StopReason.restart false) to_restart refl refl refl
