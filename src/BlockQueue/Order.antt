-- ===== src/BlockQueue/Order.antt =====
-- First in, first out: what left the queue and what it holds are what it held and what was pushed, in
-- order. `Close` throws away what is in the queue.
use bre_utils.Prelude.{
  ◌≡◌, refl, ap, ap₂, map, sym, ◌∙◌, Bool, true, false, List, [], ◌∷◌, ◌++◌, append_assoc,
  append-nil, length, leb, if◌then◌else◌, Bool-cases, inl, inr,
}
use bre_utils.BlockQueue.{
  BlockQueue, Event, push_item, pop_first, pop_again, pop_late, close_queue, take_front, step, run,
  Turn, pushed, popped, fails,
}

-- How an item leaves: `Pop` hands it over, or `Close` throws it away.
pub data Leaving {ℓ} (A : Type ℓ) : Type ℓ where
  handed_over : A → Leaving A
  thrown_away : A → Leaving A

module _ {ℓ} {A : Type ℓ} where
  -- The items that a turn puts in.
  abbrev pub enters : Event A → Turn A → List A
  enters (push_item x) pushed = x ∷ []
  enters _ _ = []

  -- What a turn's `Pop` returned.
  abbrev pub taken : Turn A → List A
  taken (popped x) = x ∷ []
  taken _ = []

  -- The items that leave in a turn: the one that it pops, and the whole queue if it closes.
  abbrev pub leaves : BlockQueue A → Event A → Turn A → List (Leaving A)
  leaves q close_queue t = map thrown_away q.queue
  leaves q _ t = map handed_over (taken t)

  abbrev pub item : Leaving A → A
  item (handed_over x) = x
  item (thrown_away x) = x

  abbrev pub kept_one : Leaving A → List A
  kept_one (handed_over x) = x ∷ []
  kept_one (thrown_away x) = []

  -- The items that were handed over.
  abbrev pub kept : List (Leaving A) → List A
  kept [] = []
  kept (l ∷ ls) = kept_one l ++ kept ls

  -- What all turns returned from `Pop`.
  abbrev pub returned : List (Turn A) → List A
  returned [] = []
  returned (t ∷ ts) = taken t ++ returned ts

  -- What enters and what leaves in the course of a run.
  unfoldable pub entered : BlockQueue A → List (Event A) → List A
  entered q [] = []
  entered q (e ∷ es) = enters e (step q e).0 ++ entered (step q e).1 es

  unfoldable pub left : BlockQueue A → List (Event A) → List (Leaving A)
  left q [] = []
  left q (e ∷ es) = leaves q e (step q e).0 ++ left (step q e).1 es

  items-map :
      (f : A → Leaving A) → ((x : A) → item (f x) ≡ x) → (xs : List A) → map item (map f xs) ≡ xs
  items-map f h [] = refl
  items-map f h (x ∷ xs) = rw (h x, items-map f h xs) refl

  items-append : (ls ms : List (Leaving A)) → map item (ls ++ ms) ≡ map item ls ++ map item ms
  items-append [] ms = refl
  items-append (l ∷ ls) ms = ap (◌∷◌ (item l)) (items-append ls ms)

  kept-append : (ls ms : List (Leaving A)) → kept (ls ++ ms) ≡ kept ls ++ kept ms
  kept-append [] ms = refl
  kept-append (l ∷ ls) ms =
      ap (◌++◌ (kept_one l)) (kept-append ls ms)
      ∙ sym (append_assoc (kept_one l) (kept ls) (kept ms))

  kept-thrown_away : (xs : List A) → kept (map thrown_away xs) ≡ []
  kept-thrown_away [] = refl
  kept-thrown_away (x ∷ xs) = kept-thrown_away xs

  take_front-fifo :
      (q : BlockQueue A) (xs : List A)
      → q.queue ≡ xs
      → taken (take_front q xs).0 ++ (take_front q xs).1.queue ≡ xs
  unfolding take_front
  take_front-fifo q [] h = h
  take_front-fifo q (x ∷ xs) h = refl

  woken_fifo :
      (q : BlockQueue A) (b : Bool)
      → let r = (if b then (fails, q) else take_front q q.queue) in taken r.0 ++ r.1.queue ≡ q.queue
  woken_fifo q true = refl
  woken_fifo q false = take_front-fifo q q.queue refl

  handed_items : (t : Turn A) → map item (map handed_over (taken t)) ≡ taken t
  handed_items t = items-map handed_over (λ x. refl) (taken t)

  popping_fifo :
      (r : Turn A × BlockQueue A) (xs : List A)
      → taken r.0 ++ r.1.queue ≡ xs
      → map item (map handed_over (taken r.0)) ++ r.1.queue ≡ xs ++ []
  popping_fifo r xs h = rw (handed_items r.0) (h ∙ sym (append-nil xs))

  step_fifo :
      (q : BlockQueue A) (e : Event A)
      → map item (leaves q e (step q e).0) ++ (step q e).1.queue ≡ q.queue ++ enters e (step q e).0
  unfolding step
  step_fifo q (push_item x) = elim (Bool-cases (leb q.capacity (length q.queue))) [
    | inl full ↦ rw full (sym (append-nil q.queue))
    | inr room ↦ rw room
  ]
  step_fifo q pop_first =
      popping_fifo (take_front q q.queue) q.queue (take_front-fifo q q.queue refl)
  step_fifo q pop_again =
      popping_fifo (if q.is_close then (fails, q) else take_front q q.queue) q.queue
        (woken_fifo q q.is_close)
  step_fifo q pop_late = sym (append-nil q.queue)
  step_fifo q close_queue = rw (items-map thrown_away (λ x. refl) q.queue) refl

  kept-handed_over : (xs : List A) → kept (map handed_over xs) ≡ xs
  kept-handed_over [] = refl
  kept-handed_over (x ∷ xs) = ap (◌∷◌ x) (kept-handed_over xs)

  step-kept : (q : BlockQueue A) (e : Event A) → kept (leaves q e (step q e).0) ≡ taken (step q e).0
  unfolding step
  step-kept q (push_item x) = kept-handed_over (taken (step q (push_item x)).0)
  step-kept q pop_first = kept-handed_over (taken (step q pop_first).0)
  step-kept q pop_again = kept-handed_over (taken (step q pop_again).0)
  step-kept q pop_late = kept-handed_over (taken (step q pop_late).0)
  step-kept q close_queue = kept-thrown_away q.queue

  -- The items that left, in their order, are those that came.
  run-items :
      (es : List (Event A)) (q : BlockQueue A)
      → map item (left q es) ++ (run q es).1.queue ≡ q.queue ++ entered q es
  unfolding run left entered
  run-items [] q = sym (append-nil q.queue)
  run-items (e ∷ es) q =
      let now = leaves q e (step q e).0 in
      let q' = (step q e).1 in
      let x = enters e (step q e).0 in
      ap (λ ls. ls ++ (run q' es).1.queue) (items-append now (left q' es))
      ∙ append_assoc (map item now) (map item (left q' es)) (run q' es).1.queue
      ∙ ap (◌++◌ (map item now)) (run-items es q')
      ∙ sym (append_assoc (map item now) q'.queue (entered q' es))
      ∙ ap (λ ys. ys ++ entered q' es) (step_fifo q e)
      ∙ append_assoc q.queue x (entered q' es)

  run-kept : (es : List (Event A)) (q : BlockQueue A) → kept (left q es) ≡ returned (run q es).0
  unfolding run left
  run-kept [] q = refl
  run-kept (e ∷ es) q =
      kept-append (leaves q e (step q e).0) (left (step q e).1 es)
      ∙ ap₂ (λ xs ys. xs ++ ys) (step-kept q e) (run-kept es (step q e).1)

  -- For every interleaving of the threads' turns: the items that left, in the order in which they
  -- left, and then those still in the queue are the items that were in the queue, and then those
  -- that were pushed. An item leaves where `Pop` takes it or where `Close` throws the whole queue
  -- away; those of the first kind are, in their order, what the calls of `Pop` returned.
  pub run_fifo :
      (es : List (Event A)) (q : BlockQueue A)
      → (map item (left q es) ++ (run q es).1.queue ≡ q.queue ++ entered q es)
        × (kept (left q es) ≡ returned (run q es).0)
  run_fifo es q = (run-items es q, run-kept es q)
