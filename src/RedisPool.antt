-- ===== src/RedisPool.antt =====
-- breUtils/database/RedisPool.hpp: `RedisPool`. A `redisContext*` that hiredis hands out is a number.
-- hiredis is a C library and throws nothing, so the `catch` of `checkThread` is never entered, and
-- whatever `PING` answers the context goes back. Threads take turns under the lock; `Close` does not
-- lock, and may stop the loop of `checkThread` after any round. `Close` joins a member that the class
-- does not have; that line is left out. What was freed, and what no pointer leads to any more, is kept
-- in lists beside the pool.
pub mod Places
mod Tests
use bre_utils.Prelude.{
  ℕ, zero, suc, Bool, true, false, Option, none, some, List, [], ◌∷◌, ◌++◌, length, if◌then◌else◌,
}

pub record RedisPool : Type 0 where
  pub connections : List ℕ
  pub b_stop : Bool

-- The pool, the contexts that callers hold, those that were freed, and those that are lost.
pub record World : Type 0 where
  pub shared : RedisPool
  pub lent : List ℕ
  pub freed : List ℕ
  pub lost : List ℕ

-- What a connect gives: no context, one with an error, one that is refused the password, or a good one.
pub data Connect : Type 0 where
  no_context : Connect
  broken : ℕ → Connect
  refused : ℕ → Connect
  connected : ℕ → Connect

-- A round of the constructor.
unfoldable pub connect : World → Connect → World
connect w no_context = w
connect w (broken c) = record w { freed = c ∷ w.freed }
connect w (refused c) = record w { lost = c ∷ w.lost }
connect w (connected c) = record w {
  shared = record w.shared { connections = w.shared.connections ++ c ∷ [] };
}

unfoldable pub connect_all : World → List Connect → World
connect_all w [] = w
connect_all w (a ∷ attempts) = connect_all (connect w a) attempts

abbrev pub nothing : World
nothing = record {
  shared = record { connections = []; b_stop = false };
  lent = [];
  freed = [];
  lost = [];
}

unfoldable pub new_pool : List Connect → World
new_pool attempts = connect_all nothing attempts

unfoldable pub clear_connections : World → World
clear_connections w = record w {
  shared = record w.shared { connections = [] };
  freed = w.shared.connections ++ w.freed;
}

-- Whether the call waits; a context that is got is lent.
unfoldable pub lend_front : World → List ℕ → World
lend_front w [] = w
lend_front w (c ∷ cs) = record w {
  shared = record w.shared { connections = cs };
  lent = c ∷ w.lent;
}

-- A turn of `getConnection`: it waits, or returns null, and changes nothing, or it lends the front.
unfoldable pub get_connection : World → World
get_connection w = if w.shared.b_stop then w else lend_front w w.shared.connections

-- `returnConnection`: a stopped pool forgets the context.
unfoldable pub return_connection : World → ℕ → World
return_connection w c =
    if w.shared.b_stop
    then record w { lost = c ∷ w.lost }
    else record w { shared = record w.shared { connections = w.shared.connections ++ c ∷ [] } }

-- Rounds of `checkThread`.
unfoldable pub rotate : ℕ → List ℕ → List ℕ
rotate zero cs = cs
rotate (suc n) [] = []
rotate (suc n) (c ∷ cs) = rotate n (cs ++ c ∷ [])

unfoldable pub close : World → World
close w = record w { shared = record w.shared { b_stop = true } }

unfoldable pub check_rounds : ℕ → World → World
check_rounds n w = record w {
  shared = record w.shared { connections = rotate n w.shared.connections };
}

unfoldable pub check_thread : World → World
check_thread w = if w.shared.b_stop then w else check_rounds (length w.shared.connections) w

-- `gives i` returns the `i`-th of the contexts that are lent; `closes_in_check n` is a call of `Close`
-- of which the check learns after `n` rounds.
pub data Event : Type 0 where
  gets closes checks clears : Event
  gives : ℕ → Event
  closes_in_check : ℕ → Event

-- The list without its `i`-th element, and that element.
unfoldable pub pick : List ℕ → ℕ → Option ℕ × List ℕ
pick [] i = (none, [])
pick (c ∷ cs) zero = (some c, cs)
pick (c ∷ cs) (suc i) = let (found, others) = pick cs i in (found, c ∷ others)

unfoldable pub give_back : World → Option ℕ → World
give_back w none = w
give_back w (some c) = return_connection w c

unfoldable pub step : World → Event → World
step w gets = get_connection w
step w closes = close w
step w checks = check_thread w
step w clears = clear_connections w
step w (gives i) =
    let (found, others) = pick w.lent i in give_back (record w { lent = others }) found
step w (closes_in_check n) = close (if w.shared.b_stop then w else check_rounds n w)

unfoldable pub run : World → List Event → World
run w [] = w
run w (e ∷ es) = run (step w e) es
