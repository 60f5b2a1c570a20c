-- ===== src/BlockQueue/Closing.antt =====
-- What `Close` does to the calls that wait, and to those that come later.
use bre_utils.Prelude.{
  ◌≡◌, refl, Bool, true, false, List, [], ◌∷◌, All, if_true, if_false, leb, ◌<◌, arith,
}
use bre_utils.BlockQueue.{
  BlockQueue, Event, push_item, pop_first, pop_again, pop_late, close_queue, take_front, close,
  step, run, waits, pushed, fails,
}

module _ {ℓ} {A : Type ℓ} where
  abbrev pub is_push : Event A → Bool
  is_push (push_item x) = true
  is_push _ = false

  -- A closed queue with nothing in it.
  record IsDrained (q : BlockQueue A) : Type ℓ where
    closed : q.is_close ≡ true
    nothing : q.queue ≡ []

  take_front-nil : (q : BlockQueue A) (xs : List A) → xs ≡ [] → take_front q xs ≡ (waits, q)
  unfolding take_front
  take_front-nil q [] h = refl
  take_front-nil q (x ∷ xs) h = cc

  pop_first_drained : (q : BlockQueue A) → IsDrained q → step q pop_first ≡ (waits, q)
  unfolding step
  pop_first_drained q d = take_front-nil q q.queue d.nothing

  pop_again_drained : (q : BlockQueue A) → IsDrained q → step q pop_again ≡ (fails, q)
  unfolding step
  pop_again_drained q d = if_true _ _ q.is_close d.closed

  step-IsDrained :
      (q : BlockQueue A) (e : Event A) → is_push e ≡ false → IsDrained q → IsDrained (step q e).1
  step-IsDrained q (push_item x) h d = cc
  step-IsDrained q pop_first h d = rw (pop_first_drained q d) d
  step-IsDrained q pop_again h d = rw (pop_again_drained q d) d
  step-IsDrained q pop_late h d = unfold step in d
  step-IsDrained q close_queue h d = unfold step in record { closed = refl; nothing = refl }

  run-IsDrained :
      (es : List (Event A)) (q : BlockQueue A)
      → All (λ e. is_push e ≡ false) es
      → IsDrained q
      → IsDrained (run q es).1
  unfolding run
  run-IsDrained [] q h d = d
  run-IsDrained (e ∷ es) q h d = run-IsDrained es (step q e).1 h.1 (step-IsDrained q e h.0 d)

  -- After `Close`, whatever the threads do short of a push: a `Pop` that waits and wakes up fails,
  -- but a `Pop` that begins goes to wait, though the queue is closed.
  pub close-pops :
      (q : BlockQueue A) (es : List (Event A))
      → All (λ e. is_push e ≡ false) es
      → let closed = (run (close q) es).1 in
        (step closed pop_again ≡ (fails, closed)) × (step closed pop_first ≡ (waits, closed))
  unfolding close
  close-pops q es h =
      let d =
        run-IsDrained es (record q { queue = []; is_close = true }) h
          (record { closed = refl; nothing = refl }) in
      (pop_again_drained _ d, pop_first_drained _ d)

  -- A `Push` right after `Close` puts its item in all the same, if the capacity is not 0.
  close-push :
      (q : BlockQueue A) (x : A)
      → 0 < q.capacity
      → step (close q) (push_item x)
        ≡ (pushed, record { capacity = q.capacity; is_close = true; queue = x ∷ [] })
  unfolding close step
  close-push q x h = if_false (waits, close q) _ (leb q.capacity 0) (ground arith)
