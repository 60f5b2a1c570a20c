-- ===== src/RedisMgr/Settled.antt =====
-- A program that uses `RedisMgr` leaves no reply behind; which contexts it loses, and which are lent.
use bre_utils.Prelude.{
  ℕ, ◌+◌, ◌≤◌, ◌≡◌, refl, ap, ap₂, sym, ◌∙◌, subst, Bool, true, false, Option, none, some, List, [],
  ◌∷◌, ◌++◌, if◌then◌else◌, arith,
}
use bre_utils.RedisPool.{
  World, Event, Connect, get_connection, clear_connections, close, run, step, new_pool, give_back,
  gets, closes, clears, no_context, broken, refused, connected, connect, nothing, connect_all,
}
use bre_utils.RedisPool.Places.{
  count, counted, places, handed_out, count-append, places-give_back, places-step, places-run,
  places-connect_all,
}
use bre_utils.RedisMgr.{
  Answer, Reply, Request, Exchange, Manager, returns, remove, open_pool, close_pool,
}
use bre_utils.RedisMgr.Contract.{transact, transact_with, conclude, settled, given, asked, judged}
use bre_utils.RedisMgr.Calls.{Said, Call, execute_lem}
use bre_utils.RedisMgr.Sessions.{
  Turn, calls, elsewhere, insts, shuts, after, ended, turn, KeepsFront, Keeps, attempts_of, session,
  KeepsAll, arrivals, refused_of, at_front, given_late, takes, gives_back, loses, along, others_of,
  drops, total,
}
use bre_utils.RedisMgr.Ledger.{
  count-remove, lent-give_back, lost-give_back, lent-step, lost-step, lent-run, lost-run,
  lost-connect_all,
}

places-given :
    (d c : ℕ) (answer : Answer) (m : Manager)
    → 1 ≤ count c m.contexts.lent
    → places d (given c answer m).contexts ≡ places d m.contexts
unfolding given give_back
places-given d c answer m h =
    let w = m.contexts in
    let back : World = record w { lent = remove c w.lent } in
    omega (arith, places-give_back d back (some c), count-remove c d w.lent h)

settled-places :
    (d : ℕ) (x : Exchange) (c : ℕ) (what : Request) (m : Manager)
    → 1 ≤ count c (run (get_connection m.contexts) x.others).lent
    → places d (settled x c what m).contexts ≡ places d m.contexts
unfolding settled asked step
settled-places d x c what m h =
    places-given d c (x.answer c what)
      (asked x c what (record m { contexts = get_connection m.contexts })) h
    ∙ places-run d x.others (get_connection m.contexts)
    ∙ places-step d m.contexts gets

-- A context is taken, and the turns of others come before it is given back.
module _ (d : ℕ) (x : Exchange) (c : ℕ) (cs : List ℕ) (what : Request) (m : Manager)
    (running : m.contexts.shared.b_stop ≡ false) (front : m.contexts.shared.connections ≡ c ∷ cs)
    (held : 1 ≤ count c (run (get_connection m.contexts) x.others).lent) where
  taken_front : takes d m.contexts gets ≡ counted d (some c)
  unfolding takes
  taken_front = ap₂ (λ b xs. at_front b xs (λ e. counted d (some e))) running front

  settled-lent :
      count d (settled x c what m).contexts.lent
        + along (gives_back d) (get_connection m.contexts) x.others
      ≡ count d m.contexts.lent + along (takes d) (get_connection m.contexts) x.others
  unfolding settled given asked step give_back gives_back
  settled-lent =
      let w = run (get_connection m.contexts) x.others in
      omega (
        arith,
        ap (count d) (lent-give_back (record w { lent = remove c w.lent }) (some c)),
        count-remove c d w.lent held,
        lent-run d x.others (get_connection m.contexts),
        lent-step d m.contexts gets,
        taken_front,
      )

  settled-lost :
      count d (settled x c what m).contexts.lost
      ≡ count d m.contexts.lost
        + given_late d (run (get_connection m.contexts) x.others).shared.b_stop c
        + along (loses d) (get_connection m.contexts) x.others
  unfolding settled given asked step give_back loses
  settled-lost =
      let w = run (get_connection m.contexts) x.others in
      omega (
        arith,
        lost-give_back d (record w { lent = remove c w.lent }) (some c),
        lost-run d x.others (get_connection m.contexts),
        lost-step d m.contexts gets,
      )

-- What a call does to one context, at a pool that is stopped or not and has these contexts.
CallMoves : ℕ → Exchange → Manager → Bool → List ℕ → World → Type 0
CallMoves d x m stopped cs w =
    let begun = get_connection m.contexts in
    let sum = λ (f : World → Event → ℕ). at_front stopped cs (λ c. along f begun x.others) in
    (places d w ≡ places d m.contexts)
    × (count d w.lost
        ≡ count d m.contexts.lost
          + at_front stopped cs (λ c. given_late d (run begun x.others).shared.b_stop c)
          + sum (loses d))
    × (count d w.lent + sum (gives_back d) ≡ count d m.contexts.lent + sum (takes d))

CallSound : Exchange → Manager → Bool → List ℕ → Option Manager → Type 0
CallSound x m stopped cs none = Unit
CallSound x m stopped cs (some n) =
    (n.allocated ≡ m.allocated) × ((d : ℕ) → CallMoves d x m stopped cs n.contexts)

kept_allocated :
    (x : Exchange) (c : ℕ) (what : Request) (m : Manager)
    → (settled x c what m).allocated ≡ m.allocated
unfolding settled given asked
kept_allocated x c what m = refl

count_none : (d : ℕ) → count d [] ≡ 0
unfolding count
count_none d = refl

concluded :
    (x : Exchange) (c : ℕ) (cs : List ℕ) (what : Request) (m : Manager)
    → m.contexts.shared.b_stop ≡ false
    → m.contexts.shared.connections ≡ c ∷ cs
    → 1 ≤ count c (run (get_connection m.contexts) x.others).lent
    → (o : Option Said) → CallSound x m false (c ∷ cs) (after m (conclude (settled x c what m) o))
unfolding CallSound CallMoves after conclude
concluded x c cs what m running front held none = tt
concluded x c cs what m running front held (some said) = (
  kept_allocated x c what m,
  λ d. (
    settled-places d x c what m held,
    settled-lost d x c cs what m running front held,
    settled-lent d x c cs what m running front held,
  ),
)

transact-CallSound :
    (what : Request) (default : Said) (verdict : Reply → Option Said) (x : Exchange) (m : Manager)
    (stopped : Bool) (cs : List ℕ)
    → m.contexts.shared.b_stop ≡ stopped
    → m.contexts.shared.connections ≡ cs
    → KeepsFront x m.contexts cs
    → CallSound x m stopped cs
        (after m (if stopped then returns default m else transact_with default what verdict x m cs))
unfolding transact_with CallSound CallMoves after KeepsFront
transact-CallSound what default verdict x m true cs p q h = (refl, λ d. (refl, omega arith, refl))
transact-CallSound what default verdict x m false [] p q h = (refl, λ d. (refl, omega arith, refl))
transact-CallSound what default verdict x m false (c ∷ cs) p q h =
    concluded x c cs what m p q h (judged default verdict (x.answer c what))

-- What a turn does to one context: in how many places it is, how often it is lost and how often lent.
Moves : ℕ → Manager → Turn → World → Type 0
Moves d m t w =
    (places d w ≡ places d m.contexts + count d (handed_out (attempts_of t)))
    × (count d w.lost ≡ count d m.contexts.lost + drops d m t + others_of (loses d) m t)
    × (count d w.lent + others_of (gives_back d) m t
        ≡ count d m.contexts.lent + others_of (takes d) m t)

-- No reply is left, and every context goes the way that the turn says.
Sound : Manager → Turn → Option Manager → Type 0
Sound m t none = Unit
Sound m t (some n) = (n.allocated ≡ m.allocated) × ((d : ℕ) → Moves d m t n.contexts)

CallSound→Sound :
    (call : Call) (x : Exchange) (m : Manager) (o : Option Manager)
    → CallSound x m m.contexts.shared.b_stop m.contexts.shared.connections o
    → Sound m (calls call x) o
unfolding CallSound CallMoves Sound Moves attempts_of handed_out count drops others_of
CallSound→Sound call x m none h = tt
CallSound→Sound call x m (some n) h = (h.0, λ d. let k = h.1 d in (omega (arith, k.0), k.1, k.2))

connect_all-lent : (attempts : List Connect) (w : World) → (connect_all w attempts).lent ≡ w.lent
unfolding connect_all connect
connect_all-lent [] w = refl
connect_all-lent (no_context ∷ attempts) w = connect_all-lent attempts w
connect_all-lent (broken c ∷ attempts) w = connect_all-lent attempts (connect w (broken c))
connect_all-lent (refused c ∷ attempts) w = connect_all-lent attempts (connect w (refused c))
connect_all-lent (connected c ∷ attempts) w = connect_all-lent attempts (connect w (connected c))

inst-places :
    (d : ℕ) (attempts : List Connect) (w : World)
    → places d (record (clear_connections w) {
      shared = (new_pool attempts).shared;
      freed = (new_pool attempts).freed ++ (clear_connections w).freed;
      lost = (new_pool attempts).lost ++ (clear_connections w).lost;
    })
      ≡ places d w + count d (handed_out attempts)
unfolding new_pool clear_connections count
inst-places d attempts w = omega (
  arith,
  places-connect_all d attempts nothing,
  ap (count d) (connect_all-lent attempts nothing),
  count-append d (connect_all nothing attempts).freed (w.shared.connections ++ w.freed),
  count-append d w.shared.connections w.freed,
  count-append d (connect_all nothing attempts).lost w.lost,
)

inst-lost :
    (d : ℕ) (attempts : List Connect) (w : World)
    → count d ((new_pool attempts).lost ++ w.lost)
      ≡ count d w.lost + count d (refused_of attempts) + 0
unfolding new_pool
inst-lost d attempts w = omega (
  arith,
  count-append d (connect_all nothing attempts).lost w.lost,
  lost-connect_all d attempts nothing,
  count_none d,
)

turn-Sound : (m : Manager) (t : Turn) → Keeps m t → Sound m t (turn m t)
unfolding turn Keeps attempts_of ended open_pool close_pool transact handed_out count step Sound
    Moves drops others_of clear_connections close
turn-Sound m (calls call x) h =
    subst (λ o. Sound m (calls call x) (after m o)) (sym (execute_lem call x m))
      (CallSound→Sound call x m _ (
        transact-CallSound _ _ _ x m m.contexts.shared.b_stop m.contexts.shared.connections refl
          refl h))
turn-Sound m (elsewhere e) h = (
  refl,
  λ d. (
    omega (arith, places-step d m.contexts e),
    omega (arith, lost-step d m.contexts e),
    lent-step d m.contexts e,
  ),
)
turn-Sound m (insts attempts) h =
    (refl, λ d. (inst-places d attempts m.contexts, inst-lost d attempts m.contexts, refl))
turn-Sound m shuts h =
    let w = m.contexts in
    (
      refl,
      λ d. (
        omega (arith, places-step d (close w) clears, places-step d w closes),
        omega arith,
        refl,
      ),
    )

-- What a program does to one context, from the one manager to the other.
abbrev pub Travels : ℕ → Manager → List Turn → Manager → Type 0
Travels d m ts n =
    (places d n.contexts ≡ places d m.contexts + arrivals d ts)
    × (count d n.contexts.lost
        ≡ count d m.contexts.lost
          + total (drops d) (some m) ts
          + total (others_of (loses d)) (some m) ts)
    × (count d n.contexts.lent + total (others_of (gives_back d)) (some m) ts
        ≡ count d m.contexts.lent + total (others_of (takes d)) (some m) ts)

-- No reply is left over, and where the contexts are.
abbrev pub Settles : Manager → List Turn → Manager → Type 0
Settles m ts n = (n.allocated ≡ m.allocated) × ((d : ℕ) → Travels d m ts n)

nothing_done : (m n : Manager) → some m ≡ some n → Settles m [] n
unfolding arrivals total
nothing_done m n e =
    subst (λ o. elim o [ none ↦ Unit | some k ↦ Settles m [] k ]) e
      (refl, λ d. (omega arith, omega arith, refl))

from_turn :
    (m n : Manager) (t : Turn) (ts : List Turn) (o : Option Manager)
    → turn m t ≡ o
    → ((k : Manager) → KeepsAll (some k) ts → session (some k) ts ≡ some n → Settles k ts n)
    → Sound m t o
    → KeepsAll o ts
    → session o ts ≡ some n
    → Settles m (t ∷ ts) n
unfolding session arrivals Sound Moves total
from_turn m n t ts none same later s h e = absurd (cc e)
from_turn m n t ts (some k) same later s h e =
    let rest : Settles k ts n = later k h e in
    let sums = λ (f : Manager → Turn → ℕ). ap (λ o. total f o ts) same in
    (
      rest.0 ∙ s.0,
      λ d.
          let r = rest.1 d in
          let u = s.1 d in
          (
            omega (arith, r.0, u.0),
            omega (arith, r.1, u.1, sums (drops d), sums (others_of (loses d))),
            omega (arith, r.2, u.2, sums (others_of (gives_back d)), sums (others_of (takes d))),
          ),
    )

-- After a program that meets nothing undefined, however the calls answered, waited or failed: no reply
-- is left allocated, and each context is as often in the pool, with a caller, freed or lost, all
-- together, as before and as the connects of `Inst` have handed it out since. It is lost as often as
-- before, and once more for each time that the server refused it the password, that a call gave it
-- back after the pool was closed, or that another thread did so: nothing else loses a context. And it is
-- lent as often as before and as other threads have taken it, less what they have given back: a call
-- keeps no context. The condition is that another thread never gives back the context that a call holds.
pub session-Settles :
    (m n : Manager) (ts : List Turn)
    → KeepsAll (some m) ts
    → session (some m) ts ≡ some n
    → Settles m ts n
unfolding session KeepsAll
session-Settles m n [] h e = nothing_done m n e
session-Settles m n (t ∷ ts) h e =
    from_turn m n t ts (turn m t) refl (λ k. session-Settles k n ts) (turn-Sound m t h.0) h.1 e
