-- ===== src/Static/Beat.antt =====
-- src/st/algorithm.rs: `beat_once` and `poll_internal`, with `poll_protected` and `poll_local` of
-- src/st/stt_future.rs.
use juggle.Prelude.{
  ℕ, zero, suc, Bool, true, false, ◌||◌, Option, none, some, length, get_elem?, ◌==◌, if◌then◌else◌,
  Outcome, ok, panic, recursive_poll, ◌>>=◌, is_some,
}
use juggle.StaticTask.{
  StopReason, Status, StaticFuture, StaticAct, Next, handle_task, after_poll, reset, clear_task,
  set_created,
}
use juggle.Static.{StaticAlgorithm, change, set_stop_reason, dec_unfinished, set_waker, run}
use juggle.Scheduler.{Poll, pending, ready}

module _ {F : Type 0} where
  -- The task after a poll of its future, which ends in `next`, or is dropped when it is ready.
  abbrev pub end_polling : F → Option F → StaticFuture F → StaticFuture F
  end_polling last next task = record task { polling = false; slot = (after_poll last next).0 }

  -- What `beat_once` does after a poll, with its result `is_ready`.
  abbrev pub end_task : ℕ → Bool → StaticAlgorithm F → Outcome (Bool × StaticAlgorithm F)
  end_task key true s =
      dec_unfinished (set_stop_reason key StopReason.finished s) >>= λ t. ok (true, t)
  end_task key false s = ok (true, s)

  -- `StaticFuture::cancel`: `poll_protected` with a status that drops the future.
  unfoldable pub clear : Bool → ℕ → StaticFuture F → StaticAlgorithm F → Outcome (StaticAlgorithm F)
  clear to_uninit key task s =
      if task.polling then panic recursive_poll else ok (change (clear_task to_uninit) key s)

  abbrev pub finish : StaticAlgorithm F → Poll × StaticAlgorithm F
  finish s =
      let cnt = s.unfinished_count in
      if (cnt == 0) || (cnt == s.suspended_count)
      then (ready (cnt == 0), set_waker none s)
      else (pending, s)

  -- `initial key` is what the task's expression does to make the future, and `behaviour future key`
  -- what a future does when it is polled with the waker of the task of `key`.
  module _ (initial : ℕ → StaticAct F) (behaviour : F → ℕ → StaticAct (Option F)) where
    -- The poll of a future by `handle_task` and its end: whether it is ready.
    unfoldable pub run_future : ℕ → F → StaticAlgorithm F → Outcome (Bool × StaticAlgorithm F)
    run_future key future s = run (behaviour future key) s >>= λ r.
        ok (if is_some r.0 then false else true, change (end_polling future r.0) key r.1)

    -- What `handle_task` goes on with, up to the end of the guard of `poll_protected`.
    unfoldable pub run_task : ℕ → Next F → StaticAlgorithm F → Outcome (Bool × StaticAlgorithm F)
    run_task key Next.returns s = ok (true, change (λ task. record task { polling = false }) key s)
    run_task key Next.inits s =
        run (initial key) s >>= λ r. run_future key r.0 (change (set_created r.0) key r.1)
    run_task key (Next.polls future) s = run_future key future s

    -- `poll_local` with `poll_protected`.
    unfoldable pub poll_local :
        Bool → ℕ → StaticFuture F → StaticAlgorithm F → Outcome (Bool × StaticAlgorithm F)
    poll_local restart key task s =
        if task.polling
        then panic recursive_poll
        else let h = handle_task (if restart then Status.restart else Status.poll) task.slot in
          run_task key h.next
            (change (λ t. record t { polling = true; runnable = false; slot = h.slot }) key s)

    -- The rest of a round after the stop reason allowed a poll.
    unfoldable pub poll_task :
        Bool → ℕ → StaticFuture F → StaticAlgorithm F → Outcome (Bool × StaticAlgorithm F)
    poll_task restart key task s =
        if task.runnable
        then (poll_local restart key task (record s { current = some key }) >>= λ r.
            end_task key r.0 (record r.1 { current = none }))
        else ok (false, s)

    -- `set_stop_reason`, `cancel` and `reset` of a restart.
    unfoldable pub restart_task :
        StopReason → ℕ → StaticFuture F → StaticAlgorithm F → Outcome (StaticAlgorithm F)
    restart_task val key task s =
        clear true key task (set_stop_reason key val s) >>= λ t. ok (change (reset false) key t)

    -- One round of the loop of `beat_once`: whether the task was polled.
    unfoldable pub visit_task :
        ℕ → StaticFuture F → StopReason → StaticAlgorithm F → Outcome (Bool × StaticAlgorithm F)
    visit_task key task StopReason.none s = poll_task false key task s
    visit_task key task StopReason.cancelled s =
        clear false key task s >>= λ t. dec_unfinished t >>= λ u. ok (false, u)
    visit_task key task StopReason.restart s = restart_task StopReason.none key task s >>= λ t.
        poll_task true key (reset false (clear_task true task)) t
    visit_task key task StopReason.restart_suspended s =
        restart_task StopReason.suspended key task s >>= λ t. ok (false, t)
    visit_task key task StopReason.finished s = ok (false, s)
    visit_task key task StopReason.suspended s = ok (false, s)

    unfoldable pub visit : ℕ → StaticAlgorithm F → Outcome (Bool × StaticAlgorithm F)
    visit key s = elim (get_elem? s.registry key) [
      | none ↦ ok (false, s)
      | some task ↦ visit_task key task task.stop_reason s
    ]

    unfoldable pub beat_from : ℕ → ℕ → Bool → StaticAlgorithm F → Outcome (Bool × StaticAlgorithm F)
    beat_from zero key any_poll s = ok (any_poll, s)
    beat_from (suc left) key any_poll s =
        visit key s >>= λ r. beat_from left (suc key) (any_poll || r.0) r.1

    unfoldable pub beat_once : StaticAlgorithm F → Outcome (Bool × StaticAlgorithm F)
    beat_once s = beat_from (length s.registry) 0 false s

    -- The loop of `poll_internal` with fuel for its rounds; none when the fuel is used up.
    unfoldable pub poll_loop :
        ℕ → ℕ → StaticAlgorithm F → Outcome (Option (Poll × StaticAlgorithm F))
    poll_loop zero waker s = ok none
    poll_loop (suc fuel) waker s = beat_once s >>= λ r. elim r.0 [
      | true ↦ poll_loop fuel waker r.1
      | false ↦ beat_once (set_waker (some waker) r.1) >>= λ q. elim q.0 [
        | true ↦ poll_loop fuel waker (set_waker none q.1)
        | false ↦ ok (some (finish q.1))
      ]
    ]

    unfoldable pub poll_internal :
        ℕ → ℕ → StaticAlgorithm F → Outcome (Option (Poll × StaticAlgorithm F))
    poll_internal fuel waker s = poll_loop fuel waker (set_waker none s)
