-- ===== src/RedisMgr.antt =====
-- breUtils/database/RedisMgr.hpp: the state that a command of `RedisMgr` works on, and what it calls.
-- hiredis is a parameter: an `Exchange` says what it answers to a request, and which turns other
-- threads take at the pool before the answer is there. A `redisReply` has an address; reading or
-- freeing one that is not allocated is undefined, and freeing NULL does nothing, as hiredis
-- documents. A text that a reply lacks is a null pointer. Output to the console is left out.
pub mod Handlers
pub mod Commands
pub mod Contract
pub mod Verdicts
pub mod Replies
pub mod Calls
pub mod Sessions
pub mod Ledger
pub mod Settled
mod Tests
use bre_utils.Prelude.{
  ℕ, ℤ, ◌+◌, ◌==◌, ◌||◌, Bool, true, false, Option, none, some, List, [], ◌∷◌, ◌++◌, Bytes,
  if◌then◌else◌,
}
use bre_utils.RedisPool.{World, Event, Connect, close, clear_connections, get_connection, new_pool}
use bre_utils.RedisPool.{return_connection, run}

pub data Kind : Type 0 where
  is_string is_array is_integer is_nil is_status is_error : Kind

pub record Reply : Type 0 where
  pub kind : Kind
  pub str : Option Bytes
  pub integer : ℤ

-- NULL, or a reply and its address.
pub data Answer : Type 0 where
  no_reply : Answer
  replied : ℕ → Reply → Answer

-- `redisCommand` with a format and its texts, or `redisCommandArgv`.
pub data Request : Type 0 where
  formatted : Bytes → List Bytes → Request
  arguments : List Bytes → Request

pub record Exchange : Type 0 where
  pub answer : ℕ → Request → Answer
  pub others : List Event

-- The pool, the replies that are allocated, those that were freed, and what was sent on which context.
pub record Manager : Type 0 where
  pub contexts : World
  pub allocated : List ℕ
  pub released : List ℕ
  pub sent : List (ℕ × Request)

-- A call waits for a context, does what C++ leaves undefined, or returns.
pub data Outcome (A : Type 0) : Type 0 where
  waits undefined : Outcome A
  returns : A → Manager → Outcome A

abbrev pub Command : Type 0 → Type 0
Command A = Manager → Outcome A

module _ {A : Type 0} where
  abbrev pub pure : A → Command A
  pure a m = returns a m

  -- What follows a call that has ended in this way.
  abbrev pub continue : {B : Type 0} → Outcome A → (A → Command B) → Outcome B
  continue waits f = waits
  continue undefined f = undefined
  continue (returns a m) f = f a m

  infixl 5 ◌>>=◌
  infixr 5 ◌>>◌
  abbrev pub ◌>>=◌ : {B : Type 0} → Command A → (A → Command B) → Command B
  ◌>>=◌ c f m = continue (c m) f

  abbrev pub ◌>>◌ : {B : Type 0} → Command A → Command B → Command B
  c >> d = c >>= λ _. d

  abbrev pub defined_if : Bool → Outcome A → Outcome A
  defined_if true o = o
  defined_if false o = undefined

unfoldable pub member : ℕ → List ℕ → Bool
member a [] = false
member a (b ∷ bs) = a == b || member a bs

-- Without its first occurrence.
unfoldable pub remove : ℕ → List ℕ → List ℕ
remove a [] = []
remove a (b ∷ bs) = if a == b then bs else b ∷ remove a bs

-- The characters up to the first NUL.
unfoldable pub c_str : Bytes → Bytes
c_str [] = []
c_str (c ∷ cs) = if c == 0 then [] else c ∷ c_str cs

-- `getConnection` for the thread of the command: none is the null pointer.
unfoldable pub take_front : Manager → List ℕ → Outcome (Option ℕ)
take_front m [] = waits
take_front m (c ∷ cs) = returns (some c) (record m { contexts = get_connection m.contexts })

unfoldable pub get_context : Command (Option ℕ)
get_context m =
    if m.contexts.shared.b_stop then returns none m else take_front m m.contexts.shared.connections

-- `returnConnection` of the context that the thread holds.
unfoldable pub give_context : ℕ → Command Unit
give_context c m =
    let w = m.contexts in
    returns tt (record m { contexts = return_connection (record w { lent = remove c w.lent }) c })

unfoldable pub allocate : Manager → Answer → Manager
allocate m no_reply = m
allocate m (replied a reply) = record m { allocated = a ∷ m.allocated }

-- The request is sent, other threads take their turns, and the answer comes.
unfoldable pub request : Exchange → ℕ → Request → Command Answer
request exchange c what m =
    let answer = exchange.answer c what in
    let n : Manager = record m {
      contexts = run m.contexts exchange.others;
      sent = (c, what) ∷ m.sent;
    } in
    returns answer (allocate n answer)

-- Reading a field of a reply.
unfoldable pub field : {A : Type 0} → ℕ → A → Command A
field a value m = defined_if (member a m.allocated) (returns value m)

-- A text where a null pointer is not allowed.
unfoldable pub text : Option Bytes → Command Bytes
text none m = undefined
text (some s) m = returns (c_str s) m

unfoldable pub free_reply : ℕ → Command Unit
free_reply a m =
    defined_if (member a m.allocated)
      (returns tt (record m { allocated = remove a m.allocated; released = a ∷ m.released }))

-- `freeReplyObject(NULL)`
unfoldable pub free_null : Command Unit
free_null m = returns tt m

-- `RedisMgr::open`; the destructor of the pool that is replaced frees what stands in it.
unfoldable pub open_pool : List Connect → Command Unit
open_pool attempts m =
    let w = clear_connections m.contexts in
    let fresh = new_pool attempts in
    returns tt (record m {
      contexts = record w {
        shared = fresh.shared;
        freed = fresh.freed ++ w.freed;
        lost = fresh.lost ++ w.lost;
      };
    })

-- `RedisMgr::Close`
unfoldable pub close_pool : Command Unit
close_pool m = returns tt (record m { contexts = clear_connections (close m.contexts) })
