-- ===== src/Timer.antt =====
-- breUtils/Timer.hpp: `Timer`, with its thread, and `CountTimer`, over a clock that is part of the
-- state. Threads take turns; a turn of the timer's thread goes to its next look at the clock or at
-- `m_Stop`. The times of the calls of `func` are kept, the latest first; what `func` does is left out.
pub mod Spacing
pub mod Cancel
pub mod Tasks
mod Tests
use bre_utils.Prelude.{ℕ, ◌+◌, ◌-◌, Bool, true, false, List, [], ◌∷◌, leb, if◌then◌else◌}

-- Where the thread stands: there is none, it is at the loop's test, it waits until a time, it is about
-- to call `func`, it has ended. Another thread object over a joinable one ends the program.
pub data Place : Type 0 where
  no_thread checking calling ended aborted : Place
  waiting : ℕ → Place

pub record Timer : Type 0 where
  pub interval : ℕ
  pub stop : Bool
  pub is_loop : Bool
  pub place : Place
  pub now : ℕ
  pub calls : List ℕ

unfoldable pub new_timer : ℕ → ℕ → Timer
new_timer interval_ms time = record {
  interval = interval_ms;
  stop = true;
  is_loop = false;
  place = no_thread;
  now = time;
  calls = [];
}

-- `Wait`, which sleeps so much longer than the interval.
unfoldable pub wait : ℕ → Timer → Timer
wait late t =
    let woken = t.now + t.interval + late in
    record t { now = woken; calls = woken ∷ t.calls; stop = true }

unfoldable pub start_thread : Place → Bool → Timer → Timer
start_thread no_thread loop t = record t { stop = false; is_loop = loop; place = checking }
start_thread _ loop t = record t { stop = false; place = aborted }

unfoldable pub async_wait : Bool → Timer → Timer
async_wait loop t = start_thread t.place loop t

unfoldable pub cancel : Timer → Timer
cancel t = record t { stop = true }

-- The end of `wait_until`, by whether its time has come.
unfoldable pub wake : Bool → Timer → Timer
wake true t = record t { place = calling }
wake false t = t

-- A turn of the thread of `AsyncWait`.
unfoldable pub advance : Place → Timer → Timer
advance checking t =
    if t.stop then record t { place = ended } else record t { place = waiting (t.now + t.interval) }
advance (waiting next_wake) t =
    if t.stop then record t { place = ended } else wake (leb next_wake t.now) t
advance calling t = record t {
  calls = t.now ∷ t.calls;
  place = if t.is_loop then checking else ended;
}
advance _ t = t

-- Time passes, the thread has a turn, and the calls of the other threads.
pub data Event : Type 0 where
  ticks : ℕ → Event
  turns cancels : Event
  starts : Bool → Event
  waits : ℕ → Event

unfoldable pub step : Timer → Event → Timer
step t (ticks d) = record t { now = t.now + d }
step t turns = advance t.place t
step t cancels = cancel t
step t (starts loop) = async_wait loop t
step t (waits late) = wait late t

unfoldable pub run : Timer → List Event → Timer
run t [] = t
run t (e ∷ es) = run (step t e) es

-- `CountTimer::Elapsed`, by the time of the last `Restart`.
unfoldable pub elapsed : ℕ → ℕ → ℕ
elapsed start_time time = time - start_time
