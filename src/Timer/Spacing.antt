-- ===== src/Timer/Spacing.antt =====
-- The calls of `func` are at least an interval apart.
use bre_utils.Prelude.{
  ℕ, ◌+◌, ◌≤◌, ◌≡◌, refl, Bool, true, false, List, [], ◌∷◌, leb, if◌then◌else◌, All, arith, ◌∙◌,
  subst, leb→le,
}
use bre_utils.Timer.{
  Place, no_thread, checking, calling, ended, aborted, waiting, Timer, new_timer, start_thread,
  async_wait, cancel, advance, Event, ticks, turns, cancels, starts, waits, step, run, wake,
}

-- Latest first, each an interval behind the one before it, and the first an interval behind the begin.
unfoldable pub IsSpaced : ℕ → ℕ → List ℕ → Type 0
IsSpaced interval begin [] = Unit
IsSpaced interval begin (c ∷ []) = begin + interval ≤ c
IsSpaced interval begin (c ∷ d ∷ cs) = (d + interval ≤ c) × IsSpaced interval begin (d ∷ cs)

-- The last call, or the begin.
unfoldable pub latest : ℕ → List ℕ → ℕ
latest begin [] = begin
latest begin (c ∷ cs) = c

-- How far the thread has waited.
unfoldable pub HasWaited : ℕ → ℕ → Place → Type 0
HasWaited due now (waiting next_wake) = due ≤ next_wake
HasWaited due now calling = due ≤ now
HasWaited due now _ = Unit

record IsValid (interval begin now : ℕ) (calls : List ℕ) (place : Place) : Type 0 where
  spaced : IsSpaced interval begin calls
  past : latest begin calls ≤ now
  waited : HasWaited (latest begin calls + interval) now place

abbrev Valid : ℕ → ℕ → Timer → Type 0
Valid interval begin t = IsValid t.interval begin t.now t.calls t.place × (t.interval ≡ interval)

-- No `Wait`, which calls `func` in the thread of its caller.
abbrev pub IsAsync : Event → Type 0
IsAsync (waits late) = ⊥
IsAsync _ = Unit

IsSpaced-call :
    (interval begin c : ℕ) (cs : List ℕ)
    → IsSpaced interval begin cs
    → latest begin cs + interval ≤ c
    → IsSpaced interval begin (c ∷ cs)
unfolding IsSpaced latest
IsSpaced-call interval begin c [] s h = h
IsSpaced-call interval begin c (d ∷ cs) s h = (h, s)

-- The states of the thread that owe nothing.
abbrev idle :
    (i begin now : ℕ) (cs : List ℕ) (p q : Place)
    → IsValid i begin now cs p
    → HasWaited (latest begin cs + i) now q
    → IsValid i begin now cs q
idle i begin now cs p q v w = record { spaced = v.spaced; past = v.past; waited = w }

after_call :
    (i begin now : ℕ) (cs : List ℕ) (loop : Bool)
    → IsValid i begin now cs calling
    → IsValid i begin now (now ∷ cs) (if loop then checking else ended)
unfolding HasWaited latest
after_call i begin now cs true v = record {
  spaced = IsSpaced-call i begin now cs v.spaced v.waited;
  past = omega arith;
  waited = tt;
}
after_call i begin now cs false v = record {
  spaced = IsSpaced-call i begin now cs v.spaced v.waited;
  past = omega arith;
  waited = tt;
}

wake-Valid :
    (i begin now : ℕ) (cs : List ℕ) (w : ℕ) (loop due : Bool)
    → (due ≡ true → w ≤ now)
    → IsValid i begin now cs (waiting w)
    → Valid i begin (
        wake due (record {
          interval = i;
          stop = false;
          is_loop = loop;
          place = waiting w;
          now = now;
          calls = cs;
        }))
unfolding wake HasWaited
wake-Valid i begin now cs w loop true h v =
    let come : w ≤ now = h refl in
    (idle i begin now cs (waiting w) calling v (let k = v.waited in omega arith), refl)
wake-Valid i begin now cs w loop false h v = (v, refl)

later_on : (due now d : ℕ) (p : Place) → HasWaited due now p → HasWaited due (now + d) p
unfolding HasWaited
later_on due now d no_thread h = tt
later_on due now d checking h = tt
later_on due now d ended h = tt
later_on due now d aborted h = tt
later_on due now d calling h = omega arith
later_on due now d (waiting w) h = h

start-Valid :
    (i begin : ℕ) (t : Timer) (p : Place) (loop : Bool)
    → Valid i begin t
    → Valid i begin (start_thread p loop t)
unfolding start_thread HasWaited
start-Valid i begin t no_thread loop (v, same) = (idle _ _ _ _ _ checking v tt, same)
start-Valid i begin t checking loop (v, same) = (idle _ _ _ _ _ aborted v tt, same)
start-Valid i begin t calling loop (v, same) = (idle _ _ _ _ _ aborted v tt, same)
start-Valid i begin t ended loop (v, same) = (idle _ _ _ _ _ aborted v tt, same)
start-Valid i begin t aborted loop (v, same) = (idle _ _ _ _ _ aborted v tt, same)
start-Valid i begin t (waiting w) loop (v, same) = (idle _ _ _ _ _ aborted v tt, same)

advance-Valid :
    (i begin now : ℕ) (cs : List ℕ) (p : Place) (stop loop : Bool)
    → IsValid i begin now cs p
    → Valid i begin (
        advance p
          (record { interval = i; stop = stop; is_loop = loop; place = p; now = now; calls = cs }))
unfolding advance HasWaited
advance-Valid i begin now cs no_thread stop loop v = (v, refl)
advance-Valid i begin now cs ended stop loop v = (v, refl)
advance-Valid i begin now cs aborted stop loop v = (v, refl)
advance-Valid i begin now cs checking true loop v = (idle i begin now cs checking ended v tt, refl)
advance-Valid i begin now cs checking false loop v =
    (idle i begin now cs checking (waiting (now + i)) v (let k = v.past in omega arith), refl)
advance-Valid i begin now cs calling stop loop v = (after_call i begin now cs loop v, refl)
advance-Valid i begin now cs (waiting w) true loop v =
    (idle i begin now cs (waiting w) ended v tt, refl)
advance-Valid i begin now cs (waiting w) false loop v =
    wake-Valid i begin now cs w loop (leb w now) (λ due. leb→le w now due) v

step-Valid :
    (i begin : ℕ) (t : Timer) (e : Event) → IsAsync e → Valid i begin t → Valid i begin (step t e)
unfolding step cancel async_wait
step-Valid i begin t (ticks d) a (v, same) = (
  record {
    spaced = v.spaced;
    past = let k = v.past in omega arith;
    waited = later_on _ t.now d t.place v.waited;
  },
  same,
)
step-Valid i begin t turns a (v, same) =
    let (kept, still) = advance-Valid t.interval begin t.now t.calls t.place t.stop t.is_loop v in
    (kept, still ∙ same)
step-Valid i begin t cancels a v = v
step-Valid i begin t (starts loop) a v = start-Valid i begin t t.place loop v
step-Valid i begin t (waits late) a v = elim a [ ]

run-Valid :
    (i begin : ℕ) (t : Timer) (es : List Event)
    → All IsAsync es
    → Valid i begin t
    → Valid i begin (run t es)
unfolding run
run-Valid i begin t [] a v = v
run-Valid i begin t (e ∷ es) a v =
    run-Valid i begin (step t e) es a.1 (step-Valid i begin t e a.0 v)

new-Valid : (i begin : ℕ) → Valid i begin (new_timer i begin)
unfolding new_timer IsSpaced HasWaited latest
new-Valid i begin = (record { spaced = tt; past = omega arith; waited = tt }, refl)

-- However `AsyncWait`, `Cancel`, the thread's turns and the clock interleave, once or in a loop: `func`
-- is first called no earlier than an interval after the timer was made, and then no earlier than an
-- interval after the call before. `Wait`, which calls it in another thread, is left out.
pub run-IsSpaced :
    (i begin : ℕ) (es : List Event)
    → All IsAsync es
    → IsSpaced i begin (run (new_timer i begin) es).calls
run-IsSpaced i begin es a =
    let (v, same) = run-Valid i begin (new_timer i begin) es a (new-Valid i begin) in
    subst (λ k. IsSpaced k begin (run (new_timer i begin) es).calls) same v.spaced
