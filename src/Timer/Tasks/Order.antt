-- ===== src/Timer/Tasks/Order.antt =====
-- `Run` calls the callbacks in the order of their times, and when it returns it has called them all.
use bre_utils.Prelude.{
  ℕ, zero, suc, ◌+◌, ◌≤◌, ◌==◌, ◌&&◌, ◌≡◌, refl, Bool, true, false, Option, none, some, List, [],
  ◌∷◌, All, leb, leb→le, if◌then◌else◌, arith,
}
use bre_utils.Timer.Tasks.{
  Task, Call, Place, looking, deciding, over, taken, MultiTaskTimer, pick, none_before, take_if,
  take_top, is_empty, advance, Event, adds, ticks, turns, step, run,
}

-- The time of the last call's task.
unfoldable pub last_due : List Call → ℕ
last_due [] = 0
last_due (c ∷ cs) = c.task.due_time

-- No call before its time, and none before one that was due earlier; the latest stands first.
unfoldable pub InOrder : List Call → Type 0
InOrder [] = Unit
InOrder (c ∷ cs) = (c.task.due_time ≤ c.at) × (last_due cs ≤ c.task.due_time) × InOrder cs

abbrev NotBefore : ℕ → List Task → Type 0
NotBefore due ks = All (λ (k : Task). due ≤ k.due_time) ks

unfoldable pub Holds : ℕ → ℕ → List Task → Place → Type 0
Holds due now ks (taken k) = (due ≤ k.due_time) × (k.due_time ≤ now) × NotBefore k.due_time ks
Holds due now ks p = Unit

record Valid (t : MultiTaskTimer) : Type 0 where
  ordered : InOrder t.calls
  ahead : NotBefore (last_due t.calls) t.tasks
  holds : Holds (last_due t.calls) t.now t.tasks t.place

-- What holds of every task holds of the one that is taken, and of the others.
abbrev OfPicked : (Task → Type 0) → Option Task × List Task → Type 0
OfPicked P (none, ks) = All P ks
OfPicked P (some k, ks) = P k × All P ks

put_front :
    (P : Task → Type 0) (k : Task) (r : Option Task × List Task)
    → P k
    → OfPicked P r
    → OfPicked P (r.0, k ∷ r.1)
put_front P k (none, ks) h hs = (h, hs)
put_front P k (some j, ks) h hs = (hs.0, (h, hs.1))

pick-All : (P : Task → Type 0) (i : ℕ) (ks : List Task) → All P ks → OfPicked P (pick i ks)
unfolding pick
pick-All P i [] h = h
pick-All P zero (k ∷ ks) h = h
pick-All P (suc i) (k ∷ ks) h = put_front P k (pick i ks) h.0 (pick-All P i ks h.1)

both : (a b : Bool) → (a && b) ≡ true → (a ≡ true) × (b ≡ true)
both true b h = (refl, h)
both false b h = absurd (cc h)

none_before_lem : (due : ℕ) (ks : List Task) → none_before due ks ≡ true → NotBefore due ks
unfolding none_before
none_before_lem due [] h = tt
none_before_lem due (k ∷ ks) h =
    let (first, rest) = both (leb due k.due_time) (none_before due ks) h in
    (leb→le due k.due_time first, none_before_lem due ks rest)

-- Only turns of `Run` and the clock.
abbrev pub IsRunning : Event → Type 0
IsRunning (adds delay callback) = ⊥
IsRunning _ = Unit

take_if-Valid :
    (b : Bool) (k : Task) (others : List Task) (t : MultiTaskTimer)
    → ((b ≡ true) → Valid (record t { tasks = others; place = taken k }))
    → Valid t
    → Valid (take_if b k others t)
unfolding take_if
take_if-Valid true k others t h v = h refl
take_if-Valid false k others t h v = v

take_top-Valid :
    (r : Option Task × List Task) (t : MultiTaskTimer)
    → OfPicked (λ k. last_due t.calls ≤ k.due_time) r
    → Valid t
    → Valid (take_top r t)
unfolding take_top Holds
take_top-Valid (none, others) t h v = v
take_top-Valid (some k, others) t h v =
    take_if-Valid (none_before k.due_time others && leb k.due_time t.now) k others t
      (λ e.
        let (front, come) = both (none_before k.due_time others) (leb k.due_time t.now) e in
        record {
          ordered = v.ordered;
          ahead = h.1;
          holds = (h.0, leb→le k.due_time t.now come, none_before_lem k.due_time others front);
        })
      v

-- The call, or none for an empty callback.
called_Valid :
    (now : ℕ) (k : Task) (ks : List Task) (cs : List Call) (null : Bool)
    → Valid (record { now = now; tasks = ks; place = taken k; calls = cs })
    → Valid (record {
      now = now;
      tasks = ks;
      place = deciding;
      calls = if null then cs else record { at = now; task = k } ∷ cs;
    })
unfolding Holds InOrder last_due
called_Valid now k ks cs true v = record { ordered = v.ordered; ahead = v.ahead; holds = tt }
called_Valid now k ks cs false v =
    let (late, come, rest) = v.holds in
    record { ordered = (come, late, v.ordered); ahead = rest; holds = tt }

decided_Valid :
    (now : ℕ) (ks : List Task) (cs : List Call) (b : Bool)
    → Valid (record { now = now; tasks = ks; place = deciding; calls = cs })
    → Valid (record { now = now; tasks = ks; place = if b then over else looking; calls = cs })
unfolding Holds
decided_Valid now ks cs true v = record { ordered = v.ordered; ahead = v.ahead; holds = tt }
decided_Valid now ks cs false v = record { ordered = v.ordered; ahead = v.ahead; holds = tt }

advance-Valid :
    (i now : ℕ) (ks : List Task) (cs : List Call) (p : Place)
    → Valid (record { now = now; tasks = ks; place = p; calls = cs })
    → Valid (advance i p (record { now = now; tasks = ks; place = p; calls = cs }))
unfolding advance
advance-Valid i now ks cs looking v =
    take_top-Valid (pick i ks) _ (pick-All (λ k. last_due cs ≤ k.due_time) i ks v.ahead) v
advance-Valid i now ks cs (taken k) v = called_Valid now k ks cs (k.callback == 0) v
advance-Valid i now ks cs deciding v = decided_Valid now ks cs (is_empty ks) v
advance-Valid i now ks cs over v = v

later_on :
    (due now d : ℕ) (ks : List Task) (p : Place) → Holds due now ks p → Holds due (now + d) ks p
unfolding Holds
later_on due now d ks looking h = tt
later_on due now d ks deciding h = tt
later_on due now d ks over h = tt
later_on due now d ks (taken k) (late, come, rest) = (late, omega arith, rest)

run-Valid : (t : MultiTaskTimer) (es : List Event) → All IsRunning es → Valid t → Valid (run t es)
unfolding run step
run-Valid t [] a v = v
run-Valid t (adds delay callback ∷ es) a v = elim a.0 [ ]
run-Valid t (ticks d ∷ es) a v =
    run-Valid (record t { now = t.now + d }) es a.1
      (record {
        ordered = v.ordered;
        ahead = v.ahead;
        holds = later_on (last_due t.calls) t.now d t.tasks t.place v.holds;
      })
run-Valid t (turns i ∷ es) a v =
    run-Valid (advance i t.place t) es a.1 (advance-Valid i t.now t.tasks t.calls t.place v)

-- Before `Run` begins.
abbrev pub loaded : ℕ → List Task → MultiTaskTimer
loaded time ks = record { now = time; tasks = ks; place = looking; calls = [] }

from_zero : (ks : List Task) → NotBefore 0 ks
from_zero [] = tt
from_zero (k ∷ ks) = (omega arith, from_zero ks)

-- When the tasks have been added and `Run` then runs alone, whichever of the tasks that are due first
-- stands on top: no callback is called before its time, and the calls come in the order of their times.
pub run-InOrder :
    (time : ℕ) (ks : List Task) (es : List Event)
    → All IsRunning es
    → InOrder (run (loaded time ks) es).calls
unfolding InOrder last_due Holds
run-InOrder time ks es a =
    let v =
      run-Valid (loaded time ks) es a (record { ordered = tt; ahead = from_zero ks; holds = tt }) in
    v.ordered
