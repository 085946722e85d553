-- ===== src/Queued/Tests.antt =====
-- Small schedulers with queues, and the theorems on them.
use juggle.Prelude.{
  arith, ℕ, ◌-◌, ◌^◌, ◌+◌, ◌≡◌, refl, sym, subst, Bool, true, false, not, none, [], ◌∷◌, Outcome,
  ok, panic, unwrap_none, unknown_task,
}
use juggle.Slab.{ChunkSlab}
use juggle.Slab
use juggle.Slab.Map.{new-Inv}
use juggle.Slab.Retain.{retain-IsRetained}
use juggle.Registry
use juggle.Registry.{usize_key}
use juggle.Registry.Instance.{slab_registry}
use juggle.Task.{StopReason, TaskName, SpawnParams, DynamicFuture, Act}
use juggle.TaskRegistry.{TaskRegistry}
use juggle.Scheduler.{Sched, Poll}
use juggle.Scheduler
use juggle.Scheduler.Inv.{Inv, new_Inv, Post, run_Inv}
use juggle.Queued.{
  SchedulerAlgorithm, new, spawn, register, suspend, resume, cancel, run, remove_task, is_cancelled,
}
use juggle.Queued.Beat.{
  drain, drain_runnable, process_tasks, retain_queue, scan, poll_local, after_poll, rotate_front,
  rotate, rotate_once, beat_once, poll_internal,
}
use juggle.Queued.Calls.{shared, run-ctrl}
use juggle.Queued.Stuck.{blocked_result, rotate_once-blocked_result}
use juggle.Queued.Ends.{IsBlocked, rotate-IsBlocked}
use juggle.Queued.Drain.{IsDrained, drain_runnable-IsDrained}
use juggle.Queued.Scan.{drain_runnable-scan}
use juggle.Queued.Polls.{Polls}
use juggle.Queued.Retained.{RetainLaws}
use juggle.Queued.Whole.{poll_internal-Polls}

-- Futures that end at once, wait for ever, cancel two tasks and end, and suspend a task, resume it
-- and end.
data Script : Type 0 where
  ends_at_once : Script
  waits : Script
  cancels : ℕ → ℕ → Script
  pauses : ℕ → Script

abbrev play : Script → ℕ → Act Script
play ends_at_once flags = Act.ready
play waits flags = Act.pending waits
play (cancels a b) flags = Act.cancel a (λ x. Act.cancel b (λ y. Act.ready))
play (pauses key) flags = Act.suspend key (λ x. Act.resume key (λ y. Act.ready))

abbrev usize_max : ℕ
usize_max = 2 ^ 64 - 1

abbrev tasks : TaskRegistry (DynamicFuture Script)
tasks = slab_registry (DynamicFuture Script) usize_max refl

abbrev Slots : Type 0
Slots = ChunkSlab (DynamicFuture Script)

abbrev Alg : Type 0
Alg = SchedulerAlgorithm Slots

abbrev keep : (ℕ → DynamicFuture Script → Bool) → Slots → Slots
keep = Slab.retain (usize_key usize_max)

keep-laws : RetainLaws tasks keep
keep-laws = record {
  get-retain = λ func r j inv. (retain-IsRetained func (usize_key usize_max) r inv).stored j;
  capacity-retain =
      λ func r inv. (retain-IsRetained func (usize_key usize_max) r inv).same_capacity;
  retain-Inv = λ func r inv. (retain-IsRetained func (usize_key usize_max) r inv).kept;
}

abbrev fresh : Alg
fresh = new tasks Slab.new

fresh-Inv : Inv tasks none 0 fresh.ctrl
fresh-Inv = new_Inv tasks Slab.new (new-Inv (usize_key usize_max)) (λ key. refl)

abbrev starts : Bool → SpawnParams
starts susp = record { suspended = susp; name = TaskName.none }

-- The state after some calls.
abbrev result : {A : Type 0} → Alg → Outcome (A × Alg) → Alg
result q (ok (a, t)) = t
result q (panic p) = q

abbrev after : Act Script → Alg → Alg
after act q = result q (run tasks act q)

after-Inv :
    (act : Act Script) (q : Alg) → Inv tasks none 0 q.ctrl → Inv tasks none 0 (after act q).ctrl
after-Inv act q inv =
    by_run (run tasks act q)
      (subst (Post tasks none 0) (sym (run-ctrl tasks act q)) (run_Inv tasks none 0 act q.ctrl inv))
  where
    by_run :
        {A : Type 0} (o : Outcome (A × Alg))
        → Post tasks none 0 (shared o)
        → Inv tasks none 0 (result q o).ctrl
    by_run (ok (a, t)) post = post
    by_run (panic p) post = inv

abbrev add : Script → Bool → Alg → Alg
add future susp q = after (Act.spawn future (starts susp) (λ key. Act.ready)) q

abbrev paused_twice : Alg
paused_twice = add ends_at_once false (add (pauses 1) false fresh)

-- To compute with a scheduler, unfold this.
evaluates : Unit {0}
unfolding spawn register Registry.insert Slab.insert Slab.init_chunk suspend resume cancel run
    remove_task Scheduler.dec_suspended Scheduler.lower Scheduler.remove_task Registry.remove
    Slab.remove drain drain_runnable process_tasks retain_queue scan poll_local after_poll
    rotate_front rotate rotate_once beat_once poll_internal Slab.retain Slab.retain_from
    Slab.retain_chunk
evaluates = tt

-- A task that another one suspends and resumes before its turn is put into the other queue as well,
-- so that the scheduler looks for it after it has ended.
queued_twice : poll_internal tasks keep play 5 5 0 paused_twice ≡ panic unknown_task
unfolding evaluates
queued_twice = refl

-- Task 0 waits, task 1 is suspended, and task 2 cancels both: the scan drops the waiting task from
-- the registry, and not from the list of deferred tasks.
abbrev three : Alg
three = add (cancels 0 1) false (add waits true (add waits false fresh))

lost : poll_internal tasks keep play 5 5 0 three ≡ panic unwrap_none
unfolding evaluates
lost = refl

-- A waiting task in the list of deferred ones and a suspended one, both cancelled.
abbrev deferring : Alg
deferring = record (add waits true (add waits false fresh)) {
  runnable = ([], []);
  deferred = 0 ∷ [];
}

deferring-Inv : Inv tasks none 0 deferring.ctrl
deferring-Inv =
    after-Inv (Act.spawn waits (starts true) (λ key. Act.ready)) (add waits false fresh)
      (after-Inv (Act.spawn waits (starts false) (λ key. Act.ready)) fresh fresh-Inv)

abbrev cancelled : Alg
cancelled = after (play (cancels 0 1) 0) deferring

cancelled-Inv : Inv tasks none 0 cancelled.ctrl
cancelled-Inv = after-Inv (play (cancels 0 1) 0) deferring deferring-Inv

abbrev scanned : Alg
scanned = record cancelled {
  runnable = ([], []);
  scan_registry = false;
  ctrl = record cancelled.ctrl {
    registry = keep (λ key v. not (is_cancelled v.stop_reason)) cancelled.ctrl.registry;
  };
}

drain_runnable-scan_example : drain_runnable tasks scanned ≡ panic unwrap_none
unfolding evaluates
drain_runnable-scan_example =
    drain_runnable-scan tasks keep keep-laws.get-retain cancelled scanned 0 cancelled-Inv.valid refl
      refl refl refl

run-ctrl_example :
    shared (run tasks (play (cancels 0 1) 0) deferring)
    ≡ Scheduler.run tasks (play (cancels 0 1) 0) deferring.ctrl
run-ctrl_example = run-ctrl tasks (play (cancels 0 1) 0) deferring

-- The two tasks at the front of a queue: the first cancelled, the second suspended.
abbrev at_front : ℕ → Alg
at_front key = record (after (Act.cancel 0 (λ done. Act.ready)) deferring) {
  runnable = (key ∷ [], []);
}

drain_runnable-IsDrained_example :
    (left : Bool) × (t : Alg) × (drain_runnable tasks deferring ≡ ok (left, t))
    × IsDrained tasks deferring left t
unfolding evaluates
drain_runnable-IsDrained_example =
    drain_runnable-IsDrained tasks deferring deferring-Inv.valid (refl, tt) (refl, tt)

poll_internal-Polls_example : Polls tasks 0 (poll_internal tasks keep play 5 5 7 deferring)
poll_internal-Polls_example =
    poll_internal-Polls tasks keep keep-laws play 5 5 0 7 deferring deferring-Inv

abbrev stopped : DynamicFuture Script
stopped = record {
  future = waits;
  flags = 1;
  name = TaskName.none;
  stop_reason = StopReason.suspended;
  polling = false;
}

rotate_once-blocked_result_example :
    rotate_once tasks keep play (3 + 2) (at_front 1) ≡ blocked_result stopped.stop_reason
unfolding evaluates
rotate_once-blocked_result_example =
    rotate_once-blocked_result tasks keep play (at_front 1) 1 stopped refl refl
      (after-Inv (Act.cancel 0 (λ done. Act.ready)) deferring deferring-Inv).valid refl 3

rotate-IsBlocked_example : IsBlocked tasks keep play (at_front 1)
unfolding evaluates
rotate-IsBlocked_example =
    rotate-IsBlocked tasks keep play 2 0 (at_front 1)
      (after-Inv (Act.cancel 0 (λ done. Act.ready)) deferring deferring-Inv) (omega arith) refl
