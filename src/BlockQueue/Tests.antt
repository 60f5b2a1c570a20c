-- ===== src/BlockQueue/Tests.antt =====
-- Runs of `BlockQueue`, and the theorems at inputs that meet their hypotheses.
use bre_utils.Prelude.{ℕ, ◌≡◌, refl, false, map, List, [], ◌∷◌, ◌++◌}
use bre_utils.BlockQueue.{
  BlockQueue, Event, push_item, pop_first, pop_again, pop_late, close_queue, waits, pushed, popped,
  fails, closes, close, step, run,
}
use bre_utils.BlockQueue.Order.{
  left, entered, item, kept, returned, handed_over, thrown_away, run_fifo,
}
use bre_utils.BlockQueue.Closing.{close-pops}

-- Two producers and two consumers on a queue of two; then it is closed.
abbrev turns : List (Event ℕ)
turns =
    pop_first
    ∷ push_item 1
    ∷ push_item 2
    ∷ push_item 3
    ∷ pop_again
    ∷ push_item 3
    ∷ pop_late
    ∷ close_queue
    ∷ pop_first
    ∷ pop_again
    ∷ []

abbrev two : BlockQueue ℕ
two = record { capacity = 2; is_close = false; queue = [] }

run-turns :
    (run two turns).0
    ≡ waits ∷ pushed ∷ pushed ∷ waits ∷ popped 1 ∷ pushed ∷ fails ∷ closes ∷ waits ∷ fails ∷ []
unfolding run
run-turns = refl

-- The second and the third item are thrown away.
left-turns : left two turns ≡ handed_over 1 ∷ thrown_away 2 ∷ thrown_away 3 ∷ []
unfolding left step
left-turns = refl

run_fifo_example :
    (map item (left two turns) ++ (run two turns).1.queue ≡ entered two turns)
    × (kept (left two turns) ≡ returned (run two turns).0)
run_fifo_example = run_fifo turns two

close-pops_example :
    let closed = (run (close two) (pop_first ∷ pop_late ∷ [])).1 in
    (step closed pop_again ≡ (fails, closed)) × (step closed pop_first ≡ (waits, closed))
close-pops_example = close-pops two (pop_first ∷ pop_late ∷ []) (refl, (refl, tt))
