-- ===== src/Timer/Tasks.antt =====
-- breUtils/Timer.hpp: `MultiTaskTimer`. A callback is a number, and 0 is an empty one, which `Run` does
-- not call. Which of the tasks that are due first stands on top of the queue the standard leaves open: a
-- turn names one, and it must be due no later than the others. The calls are kept, the latest first.
pub mod Order
pub mod Served
use bre_utils.Prelude.{
  ℕ, zero, suc, ◌+◌, ◌==◌, ◌&&◌, Bool, true, false, Option, none, some, List, [], ◌∷◌, ◌++◌, length,
  leb, if◌then◌else◌,
}

pub record Task : Type 0 where
  pub due_time : ℕ
  pub callback : ℕ

pub record Call : Type 0 where
  pub at : ℕ
  pub task : Task

-- Where the thread of `Run` stands: before the queue, with a task that it took, behind the call, or out
-- of the loop.
pub data Place : Type 0 where
  looking deciding over : Place
  taken : Task → Place

pub record MultiTaskTimer : Type 0 where
  pub now : ℕ
  pub tasks : List Task
  pub place : Place
  pub calls : List Call

-- `Add`, with the number of tasks that it returns.
unfoldable pub add : ℕ → ℕ → MultiTaskTimer → ℕ × MultiTaskTimer
add delay callback t =
    let tasks' = t.tasks ++ record { due_time = t.now + delay; callback = callback } ∷ [] in
    (length tasks', record t { tasks = tasks' })

-- The tasks without the `i`-th, and that one.
unfoldable pub pick : ℕ → List Task → Option Task × List Task
pick i [] = (none, [])
pick zero (k ∷ ks) = (some k, ks)
pick (suc i) (k ∷ ks) = let (found, others) = pick i ks in (found, k ∷ others)

unfoldable pub none_before : ℕ → List Task → Bool
none_before due [] = true
none_before due (k ∷ ks) = leb due k.due_time && none_before due ks

-- The task on top is taken if it is due; else the thread waits.
unfoldable pub take_if : Bool → Task → List Task → MultiTaskTimer → MultiTaskTimer
take_if true k others t = record t { tasks = others; place = taken k }
take_if false k others t = t

unfoldable pub take_top : Option Task × List Task → MultiTaskTimer → MultiTaskTimer
take_top (none, others) t = t
take_top (some k, others) t =
    take_if (none_before k.due_time others && leb k.due_time t.now) k others t

unfoldable pub is_empty : List Task → Bool
is_empty [] = true
is_empty (k ∷ ks) = false

-- A turn of `Run`, when the `i`-th task is on top.
unfoldable pub advance : ℕ → Place → MultiTaskTimer → MultiTaskTimer
advance i looking t = take_top (pick i t.tasks) t
advance i (taken k) t = record t {
  calls = if k.callback == 0 then t.calls else record { at = t.now; task = k } ∷ t.calls;
  place = deciding;
}
advance i deciding t = record t { place = if is_empty t.tasks then over else looking }
advance i over t = t

pub data Event : Type 0 where
  adds : ℕ → ℕ → Event
  ticks turns : ℕ → Event

unfoldable pub step : MultiTaskTimer → Event → MultiTaskTimer
step t (adds delay callback) = (add delay callback t).1
step t (ticks d) = record t { now = t.now + d }
step t (turns i) = advance i t.place t

unfoldable pub run : MultiTaskTimer → List Event → MultiTaskTimer
run t [] = t
run t (e ∷ es) = run (step t e) es
