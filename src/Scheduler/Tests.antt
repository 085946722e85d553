-- ===== src/Scheduler/Tests.antt =====
-- A small wheel, and the theorems about the scheduler on it.
use juggle.Prelude.{
  ℕ, zero, suc, ◌+◌, ◌-◌, ◌^◌, ◌≡◌, refl, true, false, Option, none, some, arith, Outcome, ok,
  panic,
}
use juggle.Slab.{ChunkSlab}
use juggle.Slab
use juggle.Slab.Map.{new-Inv}
use juggle.Registry
use juggle.Registry.{usize_key}
use juggle.Registry.Instance.{slab_registry}
use juggle.Task.{StopReason, TaskName, SpawnParams, State, DynamicFuture, Act}
use juggle.TaskRegistry.{TaskRegistry}
use juggle.Scheduler.{
  Sched, Poll, pending, ready, new, spawn, resume, suspend, cancel, run, get_state, beat_once,
  poll_internal, beat_from, register, visit, poll_task, poll_local, remove_task, poll_loop,
  clear_waker,
}
use juggle.Scheduler.Beat.{Grows, beat_once_Inv}
use juggle.Scheduler.Silent.{beat_once-IsSilent}
use juggle.Scheduler.Verdict.{AtRest, silent-AtRest, Meaning, poll_internal-Meaning}
use juggle.Scheduler.Control.{
  Moves, cancel_answer, cancel_next, suspend_answer, suspend_next, resume_answer, resume_next,
  cancel-suspend-resume-Moves,
}
use juggle.Scheduler.Leak.{leaked_verdict}
use juggle.Scheduler.Budget.{Affords, cost, left_in}
use juggle.TaskRegistry.Totals.{total_lem}
use juggle.Scheduler.Progress.{Ends, poll_internal-Ends}
use juggle.Prelude.Range.{sum_below}
use juggle.Scheduler.Inv.{
  run_Inv, suspended_total, suspended_total_lem, Inv-leak, Inv, new_Inv, spawn_Inv, Post,
}

-- Futures of four kinds: ends at once; yields once; waits for ever; suspends a task and ends.
data Script : Type 0 where
  ends : Script
  yields : Script
  waits : Script
  suspends : ℕ → Script

abbrev play : Script → ℕ → Act Script
play ends flags = Act.ready
play yields flags = Act.wake flags (Act.pending ends)
play waits flags = Act.pending waits
play (suspends key) flags = Act.suspend key (λ done. Act.ready)

abbrev usize_max : ℕ
usize_max = 2 ^ 64 - 1

abbrev tasks : TaskRegistry (DynamicFuture Script)
tasks = slab_registry (DynamicFuture Script) usize_max refl

abbrev Wheel : Type 0
Wheel = Sched (ChunkSlab (DynamicFuture Script))

abbrev idle : Wheel
idle = new tasks Slab.new

abbrev default_params : SpawnParams
default_params = record { suspended = false; name = TaskName.none }

abbrev after : {A : Type 0} → Wheel → Outcome (A × Wheel) → Wheel
after s (ok (a, t)) = t
after s (panic p) = s

abbrev waiting_one : Wheel
waiting_one = after idle (spawn tasks waits default_params idle)

abbrev two_tasks : Wheel
two_tasks = after waiting_one (spawn tasks (suspends 1) default_params waiting_one)

idle-Inv : Inv tasks none 0 idle
idle-Inv = new_Inv tasks Slab.new (new-Inv (usize_key usize_max)) (λ key. refl)

after-Inv :
    {A : Type 0} (leak : ℕ) (s : Wheel) (r : Outcome (A × Wheel))
    → Inv tasks none leak s
    → Post tasks none leak r
    → Inv tasks none leak (after s r)
after-Inv leak s (ok (a, t)) inv post = post
after-Inv leak s (panic p) inv post = inv

waiting_one-Inv : Inv tasks none 0 waiting_one
waiting_one-Inv =
    after-Inv 0 idle _ idle-Inv (spawn_Inv tasks none 0 waits default_params idle idle-Inv)

two_tasks-Inv : Inv tasks none 0 two_tasks
two_tasks-Inv =
    after-Inv 0 waiting_one _ waiting_one-Inv
      (spawn_Inv tasks none 0 (suspends 1) default_params waiting_one waiting_one-Inv)

-- To compute with a wheel, unfold this.
evaluates : Unit {0}
unfolding spawn Registry.insert Slab.insert beat_once beat_from register Slab.init_chunk visit
    poll_task sum_below poll_local run remove_task Registry.remove Slab.remove suspend resume cancel
    poll_loop poll_internal
evaluates = tt

-- Both tasks run once: the first waits, the second ends while suspended.
abbrev leaked : Wheel
leaked = after two_tasks (beat_once tasks play two_tasks)

leaked_counts :
    (leaked.suspended_count ≡ 1)
    × (tasks.count leaked.registry ≡ 1)
    × (get_state tasks leaked 0 ≡ State.waiting)
unfolding evaluates
leaked_counts = (refl, refl, refl)

run_Inv_example : Post tasks none 0 (run tasks (play yields 0) waiting_one)
run_Inv_example = run_Inv tasks none 0 (play yields 0) waiting_one waiting_one-Inv

beat_once_Inv_example : Grows tasks 0 (beat_once tasks play two_tasks)
beat_once_Inv_example = beat_once_Inv tasks play 0 two_tasks two_tasks-Inv

-- The wheel with one waiting task, after its first poll.
abbrev rested : Wheel
rested = after waiting_one (beat_once tasks play waiting_one)

rested-exact : suspended_total tasks rested.registry ≡ 0
unfolding evaluates
rested-exact = suspended_total_lem tasks rested.registry

rested-Inv : Inv tasks none 0 rested
unfolding evaluates
rested-Inv =
    let (leak, le, inv) = beat_once_Inv tasks play 0 waiting_one waiting_one-Inv in
    Inv-leak tasks none leak 0 rested inv (omega (arith, rested-exact))

-- What a call of `poll_internal` that returns leaves.
abbrev conclusion : Wheel → Outcome (Option (Poll × Wheel)) → Wheel
conclusion s (ok (some (p, t))) = t
conclusion s _ = s

abbrev parked : Wheel
parked = conclusion waiting_one (poll_internal tasks play 3 7 waiting_one)

parked-exact : suspended_total tasks parked.registry ≡ 0
unfolding evaluates
parked-exact = suspended_total_lem tasks parked.registry

poll_internal-Meaning_example : Meaning tasks 7 pending parked
unfolding evaluates
poll_internal-Meaning_example =
    poll_internal-Meaning tasks play 3 7 0 waiting_one parked pending waiting_one-Inv refl
      parked-exact

cancel-suspend-resume-Moves_example :
    ((t : Wheel) × (cancel tasks 0 rested ≡ ok (cancel_answer (get_state tasks rested 0), t))
      × Moves tasks 0 (cancel_next (get_state tasks rested 0)) rested t)
    × (((suspend tasks 0 rested).0 ≡ suspend_answer (get_state tasks rested 0))
        × Moves tasks 0 (suspend_next (get_state tasks rested 0)) rested (suspend tasks 0 rested).1)
    × ((t : Wheel) × (resume tasks 0 rested ≡ ok (resume_answer (get_state tasks rested 0), t))
        × Moves tasks 0 (resume_next false (get_state tasks rested 0)) rested t)
unfolding evaluates
cancel-suspend-resume-Moves_example = cancel-suspend-resume-Moves tasks none 0 rested rested-Inv 0

leaked-awake : suspended_total tasks leaked.registry ≡ 0
unfolding evaluates
leaked-awake = suspended_total_lem tasks leaked.registry

leaked-Inv : Inv tasks none 1 leaked
unfolding evaluates
leaked-Inv =
    let (leak, le, inv) = beat_once_Inv tasks play 0 two_tasks two_tasks-Inv in
    Inv-leak tasks none leak 1 leaked inv (omega (arith, leaked-awake))

leaked-AtRest : AtRest tasks leaked
unfolding evaluates
leaked-AtRest =
    silent-AtRest tasks leaked leaked
      (beat_once-IsSilent tasks play leaked leaked leaked-Inv.valid refl)

leaked_verdict_example :
    (poll_internal tasks play 1 7 leaked ≡ ok (some (ready false, clear_waker leaked)))
    × (key : ℕ) × (task : DynamicFuture Script) × (tasks.get leaked.registry key ≡ some task)
    × (task.stop_reason ≡ StopReason.none)
unfolding evaluates
leaked_verdict_example =
    leaked_verdict tasks play 0 7 1 leaked leaked-Inv leaked-AtRest (omega arith)
      (omega (arith, leaked-awake))

abbrev second_task : DynamicFuture Script
second_task = record {
  future = suspends 1;
  flags = 1;
  name = TaskName.none;
  stop_reason = StopReason.none;
  polling = false;
}

abbrev second_polled : Wheel
second_polled =
    after two_tasks (poll_local tasks play 1 second_task (record two_tasks { current = some 1 }))

-- Futures that spawn others, `grows` while a budget lasts, wake themselves and end: each poll uses up
-- some of what they weigh.
data Tree : Type 0 where
  leaf : Tree
  node : ℕ → Tree

abbrev weight : Tree → ℕ
weight leaf = 0
weight (node n) = 1 + n + n

-- A node spawns a leaf and wakes itself to go on with one less; node 0 and a leaf are ready.
abbrev grow : Tree → ℕ → Act Tree
grow leaf flags = Act.ready
grow (node zero) flags = Act.ready
grow (node (suc n)) flags =
    Act.spawn leaf default_params (λ key. Act.wake flags (Act.pending (node n)))

grow-Affords : (tree : Tree) (flags : ℕ) → Affords weight (weight tree) (grow tree flags)
grow-Affords leaf flags = tt
grow-Affords (node zero) flags = tt
grow-Affords (node (suc n)) flags = (omega arith, λ o. omega arith)

abbrev trees : TaskRegistry (DynamicFuture Tree)
trees = slab_registry (DynamicFuture Tree) usize_max refl

abbrev tree_of :
    Outcome (Option ℕ × Sched (ChunkSlab (DynamicFuture Tree)))
    → Sched (ChunkSlab (DynamicFuture Tree))
tree_of (ok (a, t)) = t
tree_of (panic p) = new trees Slab.new

abbrev planted : Sched (ChunkSlab (DynamicFuture Tree))
planted = tree_of (spawn trees (node 2) default_params (new trees Slab.new))

planted_Inv : Inv trees none 0 planted
unfolding evaluates
planted_Inv =
    spawn_Inv trees none 0 (node 2) default_params (new trees Slab.new)
      (new_Inv trees Slab.new (new-Inv _) (λ key. refl))

left_in-planted : left_in weight trees planted ≡ 6
unfolding evaluates
left_in-planted = total_lem trees (cost weight) planted.registry

poll_internal-Ends_example :
    Ends weight trees grow grow-Affords 0 (poll_internal trees grow 7 9 planted)
poll_internal-Ends_example =
    poll_internal-Ends weight trees grow grow-Affords 0 7 9 planted planted_Inv
      (omega (arith, left_in-planted))

-- Its three polls, and those of the two leaves, are over when the call returns.
planted_run :
    (t : Sched (ChunkSlab (DynamicFuture Tree))) × (poll_internal trees grow 7 9 planted
      ≡ ok (some (ready true, t)))
unfolding evaluates
planted_run = (_, refl)
