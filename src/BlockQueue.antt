-- ===== src/BlockQueue.antt =====
-- breUtils/BlockQueue.hpp, `class BlockQueue`. A call runs under the lock, and gives it up only
-- where it waits; so a call is a row of turns, and an interleaving of threads is a list of turns. A
-- wait may end for no reason, so a waiting thread may take its next turn at any time. `Clear` calls
-- a member that `std::queue` does not have, and is left out.
pub mod Bounds
pub mod Order
pub mod Closing
mod Tests
use bre_utils.Prelude.{
  ℕ, zero, suc, ◌+◌, Bool, true, false, Option, none, some, List, [], ◌∷◌, ◌++◌, length, ltb, leb,
  if◌then◌else◌,
}

pub record BlockQueue {ℓ} (A : Type ℓ) : Type ℓ where
  pub capacity : ℕ
  pub is_close : Bool
  pub queue : List A

-- What a turn does: it goes to wait, or the call returns.
pub data Turn {ℓ} (A : Type ℓ) : Type ℓ where
  waits : Turn A
  pushed : Turn A
  popped : A → Turn A
  fails : Turn A
  closes : Turn A

module _ {ℓ} {A : Type ℓ} where
  unfoldable pub new_queue : ℕ → BlockQueue A
  new_queue max_capacity = record { capacity = max_capacity; is_close = false; queue = [] }

  unfoldable pub empty : BlockQueue A → Bool
  empty q = elim q.queue [ [] ↦ true | x ∷ xs ↦ false ]

  unfoldable pub size : BlockQueue A → ℕ
  size q = length q.queue

  unfoldable pub full : BlockQueue A → Bool
  full q = leb q.capacity (length q.queue)

  unfoldable pub close : BlockQueue A → BlockQueue A
  close q = record q { queue = []; is_close = true }

  -- `queue.back()`; `none` on an empty queue, where C++ leaves it undefined.
  unfoldable pub last : List A → Option A
  last [] = none
  last (x ∷ []) = some x
  last (x ∷ y ∷ ys) = last (y ∷ ys)

  unfoldable pub back : BlockQueue A → Option A
  unfolding last
  back q = last q.queue

  -- A turn of `Push`: the first, or one after a wait.
  unfoldable pub push : A → BlockQueue A → Turn A × BlockQueue A
  push item q =
      if leb q.capacity (length q.queue)
      then (waits, q)
      else (pushed, record q { queue = q.queue ++ item ∷ [] })

  unfoldable pub take_front : BlockQueue A → List A → Turn A × BlockQueue A
  take_front q [] = (waits, q)
  take_front q (x ∷ xs) = (popped x, record q { queue = xs })

  -- The first turn of `Pop`, with a time limit or not.
  unfoldable pub pop : BlockQueue A → Turn A × BlockQueue A
  unfolding take_front
  pop q = take_front q q.queue

  -- A turn of `Pop` after a wait.
  unfoldable pub pop_woken : BlockQueue A → Turn A × BlockQueue A
  unfolding take_front
  pop_woken q = if q.is_close then (fails, q) else take_front q q.queue

  -- A turn of `Pop(item, timeout_ms)` after its time is up.
  unfoldable pub pop_timeout : BlockQueue A → Turn A × BlockQueue A
  pop_timeout q = (fails, q)

-- The turns of all threads. The destructor closes too.
pub data Event {ℓ} (A : Type ℓ) : Type ℓ where
  push_item : A → Event A
  pop_first pop_again pop_late close_queue : Event A

module _ {ℓ} {A : Type ℓ} where
  unfoldable pub step : BlockQueue A → Event A → Turn A × BlockQueue A
  unfolding push pop pop_woken pop_timeout close
  step q (push_item x) = push x q
  step q pop_first = pop q
  step q pop_again = pop_woken q
  step q pop_late = pop_timeout q
  step q close_queue = (closes, close q)

  unfoldable pub run : BlockQueue A → List (Event A) → List (Turn A) × BlockQueue A
  unfolding step
  run q [] = ([], q)
  run q (e ∷ es) = let (t, q') = step q e in let (ts, q'') = run q' es in (t ∷ ts, q'')
