-- ===== src/RedisMgr/Sessions.antt =====
-- A program that uses `RedisMgr`: calls, turns of other threads at the pool, `Inst` and `Close`.
use bre_utils.Prelude.{
  ℕ, ◌+◌, ◌≤◌, Bool, true, false, Option, none, some, List, [], ◌∷◌, if◌then◌else◌,
}
use bre_utils.RedisPool.{
  World, Event, gets, gives, Connect, no_context, broken, refused, connected, pick, get_connection,
  run, step,
}
use bre_utils.RedisPool.Places.{count, counted, handed_out}
use bre_utils.RedisMgr.{
  Exchange, Manager, Outcome, waits, undefined, returns, open_pool, close_pool,
}
use bre_utils.RedisMgr.Calls.{Call, Said, execute}

-- A call and what comes of it, a turn of another thread at the pool, `Inst`, which opens whenever it is
-- called, and `Close`.
pub data Turn : Type 0 where
  calls : Call → Exchange → Turn
  elsewhere : Event → Turn
  insts : List Connect → Turn
  shuts : Turn

-- A call that waits leaves the manager alone; `none` is undefined.
unfoldable pub after : Manager → Outcome Said → Option Manager
after m waits = some m
after m undefined = none
after m (returns said n) = some n

unfoldable pub ended : Outcome Unit → Manager → Manager
ended waits m = m
ended undefined m = m
ended (returns u n) m = n

unfoldable pub turn : Manager → Turn → Option Manager
turn m (calls call x) = after m (execute call x m)
turn m (elsewhere e) = some (record m { contexts = step m.contexts e })
turn m (insts attempts) = some (ended (open_pool attempts m) m)
turn m shuts = some (ended (close_pool m) m)

-- No other thread gives back the context that a call holds.
unfoldable pub KeepsFront : Exchange → World → List ℕ → Type 0
KeepsFront x w [] = Unit
KeepsFront x w (c ∷ cs) = 1 ≤ count c (run (get_connection w) x.others).lent

unfoldable pub Keeps : Manager → Turn → Type 0
Keeps m (calls call x) = KeepsFront x m.contexts m.contexts.shared.connections
Keeps m _ = Unit

-- The connects that a turn makes.
unfoldable pub attempts_of : Turn → List Connect
attempts_of (insts attempts) = attempts
attempts_of _ = []

-- A program that does something undefined has no end.
unfoldable pub session : Option Manager → List Turn → Option Manager
session none ts = none
session (some m) [] = some m
session (some m) (t ∷ ts) = session (turn m t) ts

unfoldable pub KeepsAll : Option Manager → List Turn → Type 0
KeepsAll none ts = Unit
KeepsAll (some m) [] = Unit
KeepsAll (some m) (t ∷ ts) = Keeps m t × KeepsAll (turn m t) ts

-- How often the context is handed out by the connects of the turns.
unfoldable pub arrivals : ℕ → List Turn → ℕ
arrivals d [] = 0
arrivals d (t ∷ ts) = count d (handed_out (attempts_of t)) + arrivals d ts

-- The contexts that the server refuses the password.
unfoldable pub refused_of : List Connect → List ℕ
refused_of [] = []
refused_of (no_context ∷ attempts) = refused_of attempts
refused_of (broken c ∷ attempts) = refused_of attempts
refused_of (refused c ∷ attempts) = c ∷ refused_of attempts
refused_of (connected c ∷ attempts) = refused_of attempts

-- What is said of the context that a pool, stopped or not, hands to the next caller.
abbrev pub at_front : Bool → List ℕ → (ℕ → ℕ) → ℕ
at_front true cs f = 0
at_front false [] f = 0
at_front false (c ∷ cs) f = f c

-- How often a turn at the pool takes the context from it, gives it back, and loses it: what is given
-- back to a stopped pool is lost.
unfoldable pub takes : ℕ → World → Event → ℕ
takes d w gets = at_front w.shared.b_stop w.shared.connections (λ c. counted d (some c))
takes d w _ = 0

unfoldable pub gives_back : ℕ → World → Event → ℕ
gives_back d w (gives i) = counted d (pick w.lent i).0
gives_back d w _ = 0

unfoldable pub loses : ℕ → World → Event → ℕ
loses d w (gives i) = if w.shared.b_stop then counted d (pick w.lent i).0 else 0
loses d w _ = 0

unfoldable pub along : (World → Event → ℕ) → World → List Event → ℕ
along f w [] = 0
along f w (e ∷ es) = f w e + along f (step w e) es

-- What the other threads' events in a turn of the program come to; while a call waits, and after it
-- has failed at a stopped pool, there are none.
unfoldable pub others_of : (World → Event → ℕ) → Manager → Turn → ℕ
others_of f m (calls call x) =
    at_front m.contexts.shared.b_stop m.contexts.shared.connections
      (λ c. along f (get_connection m.contexts) x.others)
others_of f m (elsewhere e) = f m.contexts e
others_of f m _ = 0

-- Giving the context `c` back loses it if the pool is stopped.
abbrev pub given_late : ℕ → Bool → ℕ → ℕ
given_late d stopped c = if stopped then counted d (some c) else 0

-- What the turn itself loses: a call the context that it gives back to a pool that was closed in the
-- meantime, and `Inst` those that the server refused.
unfoldable pub drops : ℕ → Manager → Turn → ℕ
drops d m (calls call x) =
    at_front m.contexts.shared.b_stop m.contexts.shared.connections
      (λ c. given_late d (run (get_connection m.contexts) x.others).shared.b_stop c)
drops d m (insts attempts) = count d (refused_of attempts)
drops d m _ = 0

-- The sum over a program.
unfoldable pub total : (Manager → Turn → ℕ) → Option Manager → List Turn → ℕ
total f none ts = 0
total f (some m) [] = 0
total f (some m) (t ∷ ts) = f m t + total f (turn m t) ts
