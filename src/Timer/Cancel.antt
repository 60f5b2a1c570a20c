-- ===== src/Timer/Cancel.antt =====
-- `Cancel` ends the thread, with at most the one call that was about to come.
use bre_utils.Prelude.{
  ℕ, suc, ◌+◌, ◌-◌, ◌≤◌, ◌≡◌, refl, Bool, true, false, List, [], ◌∷◌, length, All, arith, subst,
  sym, ap,
}
use bre_utils.Timer.{
  Place, no_thread, checking, calling, ended, aborted, waiting, Timer, cancel, advance, Event,
  ticks, turns, cancels, starts, waits, step, run,
}

-- The turns that the thread still has, and the calls.
unfoldable pub turns_left : Place → ℕ
turns_left calling = 2
turns_left checking = 1
turns_left (waiting next_wake) = 1
turns_left _ = 0

unfoldable pub calls_left : Place → ℕ
calls_left calling = 1
calls_left _ = 0

-- The destructor's join comes back: there is nothing to wait for.
unfoldable pub IsOver : Place → Type 0
IsOver no_thread = Unit
IsOver ended = Unit
IsOver aborted = Unit
IsOver _ = ⊥

-- What comes after the last `AsyncWait` and `Wait`.
abbrev pub IsLater : Event → Type 0
IsLater (starts loop) = ⊥
IsLater (waits late) = ⊥
IsLater _ = Unit

unfoldable pub count_turns : List Event → ℕ
count_turns [] = 0
count_turns (turns ∷ es) = suc (count_turns es)
count_turns (_ ∷ es) = count_turns es

-- A cancelled timer with a bound on the turns and on the calls.
record Bounded (left total : ℕ) (t : Timer) : Type 0 where
  stopped : t.stop ≡ true
  turning : turns_left t.place ≤ left
  calling_on : length t.calls + calls_left t.place ≤ total

advance-Bounded :
    (left total i now : ℕ) (cs : List ℕ) (loop : Bool) (p : Place)
    → turns_left p ≤ left
    → length cs + calls_left p ≤ total
    → Bounded (left - 1) total (
        advance p
          (record { interval = i; stop = true; is_loop = loop; place = p; now = now; calls = cs }))
unfolding advance turns_left calls_left
advance-Bounded left total i now cs loop no_thread h k = record {
  stopped = refl;
  turning = omega arith;
  calling_on = k;
}
advance-Bounded left total i now cs loop ended h k = record {
  stopped = refl;
  turning = omega arith;
  calling_on = k;
}
advance-Bounded left total i now cs loop aborted h k = record {
  stopped = refl;
  turning = omega arith;
  calling_on = k;
}
advance-Bounded left total i now cs loop checking h k = record {
  stopped = refl;
  turning = omega arith;
  calling_on = k;
}
advance-Bounded left total i now cs loop (waiting w) h k = record {
  stopped = refl;
  turning = omega arith;
  calling_on = k;
}
advance-Bounded left total i now cs true calling h k = record {
  stopped = refl;
  turning = omega arith;
  calling_on = omega arith;
}
advance-Bounded left total i now cs false calling h k = record {
  stopped = refl;
  turning = omega arith;
  calling_on = omega arith;
}

stop_known : (t : Timer) → t.stop ≡ true → record t { stop = true } ≡ t
stop_known t e = ap (λ b. record t { stop = b }) (sym e)

turn-Bounded :
    (left total : ℕ) (t : Timer)
    → Bounded left total t
    → Bounded (left - 1) total (advance t.place t)
turn-Bounded left total t b =
    let at : Timer = record t { stop = true } in
    let same : at ≡ t = stop_known t b.stopped in
    subst (λ s. Bounded (left - 1) total (advance t.place s)) same
      (advance-Bounded left total t.interval t.now t.calls t.is_loop t.place b.turning b.calling_on)

run-Bounded :
    (left total : ℕ) (t : Timer) (es : List Event)
    → All IsLater es
    → Bounded left total t
    → Bounded (left - count_turns es) total (run t es)
unfolding run step cancel count_turns
run-Bounded left total t [] a b = record {
  stopped = b.stopped;
  turning = let k = b.turning in omega arith;
  calling_on = b.calling_on;
}
run-Bounded left total t (ticks d ∷ es) a b =
    run-Bounded left total _ es a.1
      (record { stopped = b.stopped; turning = b.turning; calling_on = b.calling_on })
run-Bounded left total t (cancels ∷ es) a b =
    run-Bounded left total _ es a.1
      (record { stopped = refl; turning = b.turning; calling_on = b.calling_on })
run-Bounded left total t (turns ∷ es) a b =
    let rest =
      run-Bounded (left - 1) total (advance t.place t) es a.1 (turn-Bounded left total t b) in
    record {
      stopped = rest.stopped;
      turning = let k = rest.turning in omega arith;
      calling_on = rest.calling_on;
    }
run-Bounded left total t (starts loop ∷ es) a b = elim a.0 [ ]
run-Bounded left total t (waits late ∷ es) a b = elim a.0 [ ]

over : (p : Place) → turns_left p ≤ 0 → IsOver p
unfolding turns_left IsOver
over no_thread h = tt
over ended h = tt
over aborted h = tt
over calling h = absurd (omega arith)
over checking h = absurd (omega arith)
over (waiting w) h = absurd (omega arith)

enough_turns : (p : Place) → (turns_left p ≤ 2) × (calls_left p ≤ 1)
unfolding turns_left calls_left
enough_turns no_thread = (omega arith, omega arith)
enough_turns ended = (omega arith, omega arith)
enough_turns aborted = (omega arith, omega arith)
enough_turns calling = (omega arith, omega arith)
enough_turns checking = (omega arith, omega arith)
enough_turns (waiting w) = (omega arith, omega arith)

-- From any state of the timer, when `Cancel` is called and neither `AsyncWait` nor `Wait` after it: with
-- the thread's second turn it is over, however long the interval is, so the join in the destructor comes
-- back; and `func` is called once more at most, and not at all if the thread was not about to call it.
pub cancel-IsOver :
    (t : Timer) (es : List Event)
    → All IsLater es
    → 2 ≤ count_turns es
    → IsOver (run (cancel t) es).place
      × (length (run (cancel t) es).calls ≤ length t.calls + calls_left t.place)
      × (calls_left t.place ≤ 1)
unfolding cancel
cancel-IsOver t es a enough =
    let (few, once) = enough_turns t.place in
    let b =
      run-Bounded 2 (length t.calls + calls_left t.place) (cancel t) es a
        (record { stopped = refl; turning = few; calling_on = omega arith }) in
    let turning = b.turning in
    let called = b.calling_on in (over (run (cancel t) es).place (omega arith), omega arith, once)
