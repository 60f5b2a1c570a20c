-- ===== src/Timer/Tasks/Served.antt =====
-- Each task is called once, and `Run` returns only when all of them have been.
use bre_utils.Prelude.{
  ℕ, zero, suc, ◌+◌, ◌==◌, ◌≡◌, ◌≢◌, refl, ap, sym, Bool, true, false, Option, none, some, List, [],
  ◌∷◌, ◌++◌, All, if◌then◌else◌, subst, arith,
}
use bre_utils.Timer.Tasks.{
  Task, Call, Place, looking, deciding, over, taken, MultiTaskTimer, pick, take_if, take_top,
  is_empty, add, advance, Event, adds, ticks, turns, step, run,
}
use bre_utils.Timer.Tasks.Order.{IsRunning, loaded}

unfoldable pub count_tasks : ℕ → List Task → ℕ
count_tasks c [] = 0
count_tasks c (k ∷ ks) = (if k.callback == c then 1 else 0) + count_tasks c ks

unfoldable pub count_calls : ℕ → List Call → ℕ
count_calls c [] = 0
count_calls c (a ∷ calls) = (if a.task.callback == c then 1 else 0) + count_calls c calls

unfoldable pub held : ℕ → Place → ℕ
held c (taken k) = if k.callback == c then 1 else 0
held c _ = 0

-- How often the callback was called, is about to be, and is still to come.
abbrev pub known : ℕ → MultiTaskTimer → ℕ
known c t = count_calls c t.calls + held c t.place + count_tasks c t.tasks

unfoldable pub added : ℕ → List Event → ℕ
added c [] = 0
added c (adds delay callback ∷ es) = (if callback == c then 1 else 0) + added c es
added c (_ ∷ es) = added c es

count-add :
    (c due callback : ℕ) (ks : List Task)
    → count_tasks c (ks ++ record { due_time = due; callback = callback } ∷ [])
      ≡ count_tasks c ks + (if callback == c then 1 else 0)
unfolding count_tasks
count-add c due callback [] = omega arith
count-add c due callback (k ∷ ks) = omega (arith, count-add c due callback ks)

abbrev count_picked : ℕ → Option Task × List Task → ℕ
count_picked c (none, ks) = count_tasks c ks
count_picked c (some k, ks) = (if k.callback == c then 1 else 0) + count_tasks c ks

count-front :
    (c : ℕ) (k : Task) (r : Option Task × List Task)
    → count_picked c (r.0, k ∷ r.1) ≡ (if k.callback == c then 1 else 0) + count_picked c r
unfolding count_tasks
count-front c k (none, ks) = refl
count-front c k (some j, ks) = omega arith

count-pick : (c i : ℕ) (ks : List Task) → count_picked c (pick i ks) ≡ count_tasks c ks
unfolding pick count_tasks
count-pick c i [] = refl
count-pick c zero (k ∷ ks) = refl
count-pick c (suc i) (k ∷ ks) = omega (arith, count-front c k (pick i ks), count-pick c i ks)

take_if-known :
    (c : ℕ) (b : Bool) (k : Task) (others : List Task) (t : MultiTaskTimer)
    → t.place ≡ looking
    → (if k.callback == c then 1 else 0) + count_tasks c others ≡ count_tasks c t.tasks
    → known c (take_if b k others t) ≡ known c t
unfolding take_if held
take_if-known c true k others t p e = let free : held c t.place ≡ 0 = ap (held c) p in omega arith
take_if-known c false k others t p e = refl

take_top-known :
    (c : ℕ) (r : Option Task × List Task) (t : MultiTaskTimer)
    → t.place ≡ looking
    → count_picked c r ≡ count_tasks c t.tasks
    → known c (take_top r t) ≡ known c t
unfolding take_top
take_top-known c (none, others) t p e = refl
take_top-known c (some k, others) t p e = take_if-known c _ k others t p e

called-known :
    (c : ℕ) (k : Task) (cs : List Call) (now : ℕ)
    → c ≢ 0
    → count_calls c (if k.callback == 0 then cs else record { at = now; task = k } ∷ cs)
      ≡ count_calls c cs + (if k.callback == c then 1 else 0)
unfolding count_calls
called-known c k cs now h = grind arith

decided : (c : ℕ) (b : Bool) → held c (if b then over else looking) ≡ 0
unfolding held
decided c true = refl
decided c false = refl

advance-known :
    (c i now : ℕ) (ks : List Task) (cs : List Call) (p : Place)
    → c ≢ 0
    → let t : MultiTaskTimer = record { now = now; tasks = ks; place = p; calls = cs } in
      known c (advance i p t) ≡ known c t
unfolding advance held
advance-known c i now ks cs looking h =
    take_top-known c (pick i ks) (record { now = now; tasks = ks; place = looking; calls = cs })
      refl (count-pick c i ks)
advance-known c i now ks cs (taken k) h = omega (arith, called-known c k cs now h)
advance-known c i now ks cs deciding h =
    ap (λ n. count_calls c cs + n + count_tasks c ks) (decided c (is_empty ks))
advance-known c i now ks cs over h = refl

step-known :
    (c : ℕ) (t : MultiTaskTimer) (e : Event)
    → c ≢ 0
    → known c (step t e) ≡ known c t + added c (e ∷ [])
unfolding step add added
step-known c t (adds delay callback) h = omega (arith, count-add c (t.now + delay) callback t.tasks)
step-known c t (ticks d) h = omega arith
step-known c t (turns i) h = omega (arith, advance-known c i t.now t.tasks t.calls t.place h)

added-front :
    (c : ℕ) (e : Event) (es : List Event) → added c (e ∷ es) ≡ added c (e ∷ []) + added c es
unfolding added
added-front c (adds delay callback) es = omega arith
added-front c (ticks d) es = omega arith
added-front c (turns i) es = omega arith

run-known :
    (c : ℕ) (t : MultiTaskTimer) (es : List Event)
    → c ≢ 0
    → known c (run t es) ≡ known c t + added c es
unfolding run added
run-known c t [] h = omega arith
run-known c t (e ∷ es) h =
    omega (arith, run-known c (step t e) es h, step-known c t e h, added-front c e es)

-- `Run` has returned only with an empty queue.
unfoldable pub IsServed : Place → List Task → Type 0
IsServed over ks = ks ≡ []
IsServed _ ks = Unit

take_if-IsServed :
    (b : Bool) (k : Task) (others : List Task) (t : MultiTaskTimer)
    → IsServed t.place t.tasks
    → IsServed (take_if b k others t).place (take_if b k others t).tasks
unfolding take_if IsServed
take_if-IsServed true k others t h = tt
take_if-IsServed false k others t h = h

take_top-IsServed :
    (r : Option Task × List Task) (t : MultiTaskTimer)
    → IsServed t.place t.tasks
    → IsServed (take_top r t).place (take_top r t).tasks
unfolding take_top
take_top-IsServed (none, others) t h = h
take_top-IsServed (some k, others) t h = take_if-IsServed _ k others t h

decided-IsServed : (ks : List Task) → IsServed (if is_empty ks then over else looking) ks
unfolding is_empty IsServed
decided-IsServed [] = refl
decided-IsServed (k ∷ ks) = tt

advance-IsServed :
    (i : ℕ) (p : Place) (t : MultiTaskTimer)
    → IsServed p t.tasks
    → t.place ≡ p
    → IsServed (advance i p t).place (advance i p t).tasks
unfolding advance IsServed
advance-IsServed i looking t h e =
    take_top-IsServed (pick i t.tasks) t (subst (λ p. IsServed p t.tasks) (sym e) h)
advance-IsServed i (taken k) t h e = tt
advance-IsServed i deciding t h e = decided-IsServed t.tasks
advance-IsServed i over t h e = subst (λ p. IsServed p t.tasks) (sym e) h

run-IsServed :
    (t : MultiTaskTimer) (es : List Event)
    → All IsRunning es
    → IsServed t.place t.tasks
    → IsServed (run t es).place (run t es).tasks
unfolding run step
run-IsServed t [] a h = h
run-IsServed t (adds delay callback ∷ es) a h = elim a.0 [ ]
run-IsServed t (ticks d ∷ es) a h = run-IsServed (record t { now = t.now + d }) es a.1 h
run-IsServed t (turns i ∷ es) a h =
    run-IsServed (advance i t.place t) es a.1 (advance-IsServed i t.place t h refl)

-- While other threads add tasks and the clock and `Run` go on, a callback that is not empty has been
-- called as often as it was added, but for the tasks that are in the queue or just taken out of it: no
-- task is called twice, and none is lost.
pub run-counted :
    (c time : ℕ) (es : List Event) → c ≢ 0 → known c (run (loaded time []) es) ≡ added c es
unfolding count_calls held count_tasks
run-counted c time es h = omega (arith, run-known c (loaded time []) es h)

no_more : (c : ℕ) (es : List Event) → All IsRunning es → added c es ≡ 0
unfolding added
no_more c [] a = refl
no_more c (adds delay callback ∷ es) a = elim a.0 [ ]
no_more c (ticks d ∷ es) a = no_more c es a.1
no_more c (turns i ∷ es) a = no_more c es a.1

count_none : (c : ℕ) (ks : List Task) → ks ≡ [] → count_tasks c ks ≡ 0
unfolding count_tasks
count_none c ks e = ap (count_tasks c) e

-- When the tasks have been added and `Run` then runs alone: once it has returned, every callback that
-- is not empty has been called just as often as it was added.
pub run-served :
    (c time : ℕ) (ks : List Task) (es : List Event)
    → All IsRunning es
    → c ≢ 0
    → (run (loaded time ks) es).place ≡ over
    → count_calls c (run (loaded time ks) es).calls ≡ count_tasks c ks
unfolding count_calls held IsServed
run-served c time ks es a h e =
    let end = run (loaded time ks) es in
    let empty : end.tasks ≡ [] =
      subst (λ p. IsServed p end.tasks) e (run-IsServed (loaded time ks) es a tt) in
    let free : held c end.place ≡ 0 = ap (held c) e in
    omega (arith, run-known c (loaded time ks) es h, no_more c es a, count_none c end.tasks empty)
