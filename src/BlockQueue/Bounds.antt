-- ===== src/BlockQueue/Bounds.antt =====
-- The queue never holds more than its capacity, and the capacity never changes.
use bre_utils.Prelude.{ℕ, ◌≤◌, ◌≡◌, refl, List, [], ◌∷◌, length, length-append, arith}
use bre_utils.BlockQueue.{
  BlockQueue, Event, push_item, pop_first, pop_again, pop_late, close_queue, take_front, step, run,
  new_queue,
}

module _ {ℓ} {A : Type ℓ} where
  abbrev pub IsBounded : BlockQueue A → Type 0
  IsBounded q = length q.queue ≤ q.capacity

  take_front-IsBounded :
      (q : BlockQueue A) (xs : List A)
      → length xs ≤ q.capacity
      → q.queue ≡ xs
      → IsBounded (take_front q xs).1
  unfolding take_front
  take_front-IsBounded q [] h e = rw e h
  take_front-IsBounded q (x ∷ xs) h e = omega arith

  pub step-IsBounded : (q : BlockQueue A) (e : Event A) → IsBounded q → IsBounded (step q e).1
  unfolding step
  step-IsBounded q (push_item x) h = ground (arith, length-append q.queue (x ∷ []))
  step-IsBounded q pop_first h = take_front-IsBounded q q.queue h refl
  step-IsBounded q pop_again h = ground (arith, take_front-IsBounded q q.queue h refl)
  step-IsBounded q pop_late h = h
  step-IsBounded q close_queue h = omega arith

  pub capacity-step : (q : BlockQueue A) (e : Event A) → (step q e).1.capacity ≡ q.capacity
  unfolding step take_front
  capacity-step q (push_item x) = ground arith
  capacity-step q pop_first = ground arith
  capacity-step q pop_again = ground arith
  capacity-step q pop_late = refl
  capacity-step q close_queue = refl

  run-IsBounded : (es : List (Event A)) (q : BlockQueue A) → IsBounded q → IsBounded (run q es).1
  unfolding run
  run-IsBounded [] q h = h
  run-IsBounded (e ∷ es) q h = run-IsBounded es (step q e).1 (step-IsBounded q e h)

  capacity-run : (es : List (Event A)) (q : BlockQueue A) → (run q es).1.capacity ≡ q.capacity
  unfolding run
  capacity-run [] q = refl
  capacity-run (e ∷ es) q = omega (arith, capacity-run es (step q e).1, capacity-step q e)

  -- For every interleaving of the threads' turns, a new queue never holds more than its capacity.
  run_bounded :
      (capacity : ℕ) (es : List (Event A))
      → length (run (new_queue {A = A} capacity) es).1.queue ≤ capacity
  unfolding new_queue
  run_bounded capacity es =
      omega (arith, run-IsBounded es (new_queue capacity), capacity-run es (new_queue capacity))
