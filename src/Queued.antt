-- ===== src/Queued.antt =====
-- src/dy/algorithm.rs: the scheduler with two queues of runnable tasks and a list of deferred ones,
-- over any task registry with iteration and `retain`. The part of the state that it shares with the
-- scheduler of unordered_algorithm.rs is `ctrl`. Loops take fuel; none is fuel used up.
pub mod Beat
pub mod Calls
pub mod Stuck
pub mod Sweep
pub mod Drain
pub mod Scan
pub mod Rounds
pub mod Polls
pub mod Retained
pub mod Whole
pub mod Names
pub mod Turns
pub mod Leaves
pub mod Ends
pub mod Tests
use Prim.Native.String.{String}
use juggle.Prelude.{
  ℕ, zero, suc, ◌+◌, Bool, true, false, not, ◌||◌, ◌&&◌, Option, none, some, List, [], ◌∷◌, ◌++◌,
  ◌==◌, length, if◌then◌else◌, Outcome, ok, panic, unwrap_none, unknown_task, unreachable_code,
  ◌>>=◌, is_some,
}
use juggle.Task.{StopReason, TaskName, SpawnParams, State, DynamicFuture, new_future, Act}
use juggle.TaskRegistry.{TaskRegistry}
use juggle.Scheduler.{
  Sched, Poll, pending, ready, is_suspended, start_poll, end_poll, store_flag, inc_suspended,
  dec_suspended, register_waker, clear_waker, set_stop_reason,
}
use juggle.Scheduler

-- `SchedulerAlgorithm` with its `Control`.
pub record SchedulerAlgorithm (R : Type 0) : Type 0 where
  pub runnable : List ℕ × List ℕ
  pub which_buffer : Bool
  pub ctrl : Sched R
  pub deferred : List ℕ
  pub scan_registry : Bool

pub data Rotate : Type 0 where
  wait : Rotate
  continue : Rotate

abbrev pub is_cancelled : StopReason → Bool
is_cancelled StopReason.cancelled = true
is_cancelled _ = false

abbrev pub contains : ℕ → List ℕ → Bool
contains key [] = false
contains key (k ∷ queue) = (k == key) || contains key queue

-- `remove` at the first `position` of the key, if there is one.
abbrev pub remove_first : ℕ → List ℕ → List ℕ
remove_first key [] = []
remove_first key (k ∷ queue) = if k == key then queue else k ∷ remove_first key queue

abbrev pub front : List ℕ → Option ℕ
front [] = none
front (k ∷ queue) = some k

abbrev pub pop_front : List ℕ → List ℕ
pop_front [] = []
pop_front (k ∷ queue) = queue

abbrev pub is_empty : List ℕ → Bool
is_empty [] = true
is_empty (k ∷ queue) = false

abbrev pub is_key : Option ℕ → ℕ → Bool
is_key none key = false
is_key (some k) key = k == key

abbrev pub push_back : ℕ → List ℕ → List ℕ
push_back key queue = queue ++ key ∷ []

abbrev pub push_absent : ℕ → Bool → List ℕ → List ℕ
push_absent key check_absent queue =
    if check_absent && contains key queue then queue else push_back key queue

module _ {R : Type 0} where
  -- The queue that a beat works on, and the one that tasks are put into meanwhile.
  abbrev pub from_queue : SchedulerAlgorithm R → List ℕ
  from_queue q = if q.which_buffer then q.runnable.1 else q.runnable.0

  abbrev pub to_queue : SchedulerAlgorithm R → List ℕ
  to_queue q = if q.which_buffer then q.runnable.0 else q.runnable.1

  abbrev pub set_from : List ℕ → SchedulerAlgorithm R → SchedulerAlgorithm R
  set_from queue q = record q {
    runnable = if q.which_buffer then (q.runnable.0, queue) else (queue, q.runnable.1);
  }

  abbrev pub set_to : List ℕ → SchedulerAlgorithm R → SchedulerAlgorithm R
  set_to queue q = record q {
    runnable = if q.which_buffer then (queue, q.runnable.1) else (q.runnable.0, queue);
  }

  abbrev pub enqueue_runnable : ℕ → Bool → SchedulerAlgorithm R → SchedulerAlgorithm R
  enqueue_runnable key check_absent q = set_to (push_absent key check_absent (to_queue q)) q

  abbrev pub on_ctrl : (Sched R → Sched R) → SchedulerAlgorithm R → SchedulerAlgorithm R
  on_ctrl f q = record q { ctrl = f q.ctrl }

  abbrev pub defer_absent : ℕ → SchedulerAlgorithm R → SchedulerAlgorithm R
  defer_absent key q = record q { deferred = push_absent key true q.deferred }

  -- The drop of the guard of `rotate_once`.
  abbrev pub drop_guard : ℕ → SchedulerAlgorithm R → SchedulerAlgorithm R
  drop_guard key q =
      let q' = record q { ctrl = record q.ctrl { current = none } } in
      if is_key (front (from_queue q')) key
      then set_from (pop_front (from_queue q')) q'
      else set_to (remove_first key (to_queue q')) q'

module _ {F : Type 0} (reg : TaskRegistry (DynamicFuture F)) where
  open reg use {R, get, insert, remove, count, capacity, modify}

  abbrev pub new : R → SchedulerAlgorithm R
  new registry = record {
    runnable = ([], []);
    which_buffer = false;
    ctrl = Scheduler.new reg registry;
    deferred = [];
    scan_registry = false;
  }

  -- What `register` does for a task that got the key.
  abbrev pub registered : StopReason → Option ℕ → SchedulerAlgorithm R → SchedulerAlgorithm R
  registered reason none q = q
  registered reason (some key) q =
      if is_suspended reason then on_ctrl inc_suspended q else enqueue_runnable key false q

  unfoldable pub register :
      DynamicFuture F → SchedulerAlgorithm R → Outcome (Option ℕ × SchedulerAlgorithm R)
  register dynamic q = insert dynamic q.ctrl.registry >>= λ r.
      ok (r.0, registered dynamic.stop_reason r.0 (on_ctrl (λ s. record s { registry = r.1 }) q))

  -- `spawn_dyn` of a handle.
  unfoldable pub spawn :
      F → SpawnParams → SchedulerAlgorithm R → Outcome (Option ℕ × SchedulerAlgorithm R)
  spawn future params q = register (new_future future q.ctrl.next_flags params) (
      on_ctrl
        (λ s. record s {
          runnable = store_flag s.runnable s.next_flags true;
          next_flags = s.next_flags + 1;
        })
        q)

  resume_task :
      ℕ
      → DynamicFuture F
      → StopReason
      → SchedulerAlgorithm R
      → Outcome (Bool × SchedulerAlgorithm R)
  resume_task key task StopReason.suspended q =
      dec_suspended (set_stop_reason reg key StopReason.none q.ctrl) >>= λ s.
      let q' = record q { ctrl = s } in
      ok (
        true,
        if s.runnable task.flags || is_key s.current key
            then enqueue_runnable key true q'
            else defer_absent key q',
      )
  resume_task key task _ q = ok (false, q)

  unfoldable pub resume : ℕ → SchedulerAlgorithm R → Outcome (Bool × SchedulerAlgorithm R)
  unfolding resume_task
  resume key q = elim (get q.ctrl.registry key) [
    | none ↦ ok (false, q)
    | some task ↦ resume_task key task task.stop_reason q
  ]

  suspend_task :
      ℕ → DynamicFuture F → StopReason → SchedulerAlgorithm R → Bool × SchedulerAlgorithm R
  suspend_task key task StopReason.none q = (
    true,
    record q {
      ctrl = inc_suspended (set_stop_reason reg key StopReason.suspended q.ctrl);
      deferred = if q.ctrl.runnable task.flags then q.deferred else remove_first key q.deferred;
    },
  )
  suspend_task key task _ q = (false, q)

  unfoldable pub suspend : ℕ → SchedulerAlgorithm R → Bool × SchedulerAlgorithm R
  unfolding suspend_task
  suspend key q = elim (get q.ctrl.registry key) [
    | none ↦ (false, q)
    | some task ↦ suspend_task key task task.stop_reason q
  ]

  cancel_task : ℕ → StopReason → SchedulerAlgorithm R → Outcome (Bool × SchedulerAlgorithm R)
  cancel_task key StopReason.cancelled q = ok (false, q)
  cancel_task key StopReason.suspended q =
      dec_suspended (set_stop_reason reg key StopReason.cancelled q.ctrl) >>= λ s.
      ok (true, record q { ctrl = s; scan_registry = true })
  cancel_task key StopReason.none q =
      ok (true, on_ctrl (set_stop_reason reg key StopReason.cancelled) q)

  unfoldable pub cancel : ℕ → SchedulerAlgorithm R → Outcome (Bool × SchedulerAlgorithm R)
  unfolding cancel_task
  cancel key q = elim (get q.ctrl.registry key) [
    | none ↦ ok (false, q)
    | some task ↦ cancel_task key task.stop_reason q
  ]

  abbrev pub get_state : SchedulerAlgorithm R → ℕ → State
  get_state q key = elim (get q.ctrl.registry key) [
    | none ↦ State.inactive
    | some task ↦ Scheduler.task_state task.stop_reason (q.ctrl.runnable task.flags)
  ]

  abbrev pub registered_count : SchedulerAlgorithm R → ℕ
  registered_count q = count q.ctrl.registry

  -- The user's code of one poll.
  unfoldable pub run : Act F → SchedulerAlgorithm R → Outcome (Option F × SchedulerAlgorithm R)
  run Act.ready q = ok (none, q)
  run (Act.pending future) q = ok (some future, q)
  run (Act.spawn future params k) q = spawn future params q >>= λ r. run (k r.0) r.1
  run (Act.cancel key k) q = cancel key q >>= λ r. run (k r.0) r.1
  run (Act.suspend key k) q = let r = suspend key q in run (k r.0) r.1
  run (Act.resume key k) q = resume key q >>= λ r. run (k r.0) r.1
  run (Act.get_state key k) q = run (k (get_state q key)) q
  run (Act.current k) q = run (k q.ctrl.current) q
  run (Act.registered_count k) q = run (k (registered_count q)) q
  run (Act.wake flags k) q = run k (on_ctrl (Scheduler.wake flags) q)

  unfoldable pub remove_task : ℕ → SchedulerAlgorithm R → Outcome (SchedulerAlgorithm R)
  remove_task key q = Scheduler.remove_task reg key q.ctrl >>= λ s. ok (record q { ctrl = s })
