-- ===== src/Timer/Tests.antt =====
-- Runs of the timers, and the theorems at inputs that meet their hypotheses.
use bre_utils.Prelude.{ℕ, ◌+◌, ◌≤◌, ◌≡◌, ◌≢◌, refl, true, false, List, [], ◌∷◌, length, arith}
use bre_utils.Timer.{
  calling, Timer, Event, ticks, turns, starts, cancels, new_timer, start_thread, async_wait,
  advance, wake, cancel, step, run, aborted,
}
use bre_utils.Timer.Spacing.{IsSpaced, run-IsSpaced}
use bre_utils.Timer.Cancel.{IsOver, calls_left, count_turns, cancel-IsOver}
use bre_utils.Timer.Tasks
use bre_utils.Timer.Tasks.{Task, MultiTaskTimer, over}
use bre_utils.Timer.Tasks.Order.{loaded, InOrder, run-InOrder}
use bre_utils.Timer.Tasks.Served.{known, added, count_calls, count_tasks, run-counted, run-served}

-- A loop of 30 milliseconds that is cancelled while `func` is about to be called.
abbrev loop : List Event
loop =
    starts true
    ∷ turns
    ∷ ticks 31
    ∷ turns
    ∷ turns
    ∷ turns
    ∷ ticks 30
    ∷ turns
    ∷ cancels
    ∷ turns
    ∷ turns
    ∷ []

run-loop : (run (new_timer 30 1000) loop).calls ≡ 1061 ∷ 1031 ∷ []
unfolding run step new_timer async_wait start_thread advance wake cancel
run-loop = refl

-- The second `AsyncWait` replaces a thread that was not joined, though it has ended.
used_twice :
    (run
      (new_timer 30 0)
      (starts false ∷ turns ∷ ticks 30 ∷ turns ∷ turns ∷ starts false ∷ [])).place
    ≡ aborted
unfolding run step new_timer async_wait start_thread advance wake
used_twice = refl

run-IsSpaced_example : IsSpaced 30 1000 (run (new_timer 30 1000) loop).calls
run-IsSpaced_example = run-IsSpaced 30 1000 loop (omega arith)

abbrev running : Timer
running = record {
  interval = 30;
  stop = false;
  is_loop = true;
  place = calling;
  now = 1031;
  calls = [];
}

two_turns : 2 ≤ count_turns (turns ∷ ticks 5 ∷ turns ∷ [])
unfolding count_turns
two_turns = omega arith

cancel-IsOver_example :
    IsOver (run (cancel running) (turns ∷ ticks 5 ∷ turns ∷ [])).place
    × (length (run (cancel running) (turns ∷ ticks 5 ∷ turns ∷ [])).calls
        ≤ length running.calls + calls_left running.place)
    × (calls_left running.place ≤ 1)
cancel-IsOver_example = cancel-IsOver running (turns ∷ ticks 5 ∷ turns ∷ []) (omega arith) two_turns

-- Two tasks, the later one first in the queue.
abbrev two_tasks : List Task
two_tasks = record { due_time = 70; callback = 2 } ∷ record { due_time = 50; callback = 1 } ∷ []

abbrev work : List Tasks.Event
work =
    Tasks.turns 1
    ∷ Tasks.ticks 60
    ∷ Tasks.turns 0
    ∷ Tasks.turns 1
    ∷ Tasks.turns 0
    ∷ Tasks.turns 0
    ∷ Tasks.turns 0
    ∷ Tasks.ticks 10
    ∷ Tasks.turns 0
    ∷ Tasks.turns 0
    ∷ Tasks.turns 0
    ∷ []

work_ends : (Tasks.run (loaded 0 two_tasks) work).place ≡ over
unfolding Tasks.run Tasks.step Tasks.advance Tasks.take_top Tasks.take_if Tasks.pick
    Tasks.none_before Tasks.is_empty
work_ends = refl

run-InOrder_example : InOrder (Tasks.run (loaded 0 two_tasks) work).calls
run-InOrder_example = run-InOrder 0 two_tasks work (omega arith)

abbrev both_at_work : List Tasks.Event
both_at_work =
    Tasks.adds 20 1
    ∷ Tasks.turns 0
    ∷ Tasks.adds 10 2
    ∷ Tasks.ticks 15
    ∷ Tasks.turns 1
    ∷ Tasks.turns 0
    ∷ []

one_is_some : ◌≢◌ {A = ℕ} 1 0
one_is_some = omega arith

run-counted_example : known 1 (Tasks.run (loaded 0 []) both_at_work) ≡ added 1 both_at_work
run-counted_example = run-counted 1 0 both_at_work one_is_some

run-served_example :
    count_calls 1 (Tasks.run (loaded 0 two_tasks) work).calls ≡ count_tasks 1 two_tasks
run-served_example = run-served 1 0 two_tasks work (omega arith) one_is_some work_ends
