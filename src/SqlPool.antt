-- ===== src/SqlPool.antt =====
-- breUtils/database/MysqlPool.hpp: `SqlConnection` and `MySqlPool`. What the driver returns is a value
-- of the type `S` of its sessions; whether a query is answered, and the session of a new connection,
-- are part of the turn that asks for them. Threads take turns under the lock, as in `BlockQueue`; the
-- connections that callers hold stand beside the pool. A driver that cannot connect again throws out
-- of the timer's thread, which ends the program, and is left out.
pub mod Owners
mod Tests
use bre_utils.Prelude.{
  ℕ, zero, suc, ◌+◌, ◌-◌, Bool, true, false, Option, none, some, List, [], ◌∷◌, ◌++◌, length, leb,
  if◌then◌else◌,
}

-- `slot` tells the objects apart: `std::unique_ptr` hands on the object itself.
pub record SqlConnection (S : Type 0) : Type 0 where
  pub slot : ℕ
  pub con : S
  pub last_oper_time : ℕ

-- The pool, and what `checkConnection` has in its local variables.
pub record MySqlPool (S : Type 0) : Type 0 where
  pub pool : List (SqlConnection S)
  pub b_stop : Bool
  pub to_check : ℕ
  pub checked : Option (SqlConnection S)

-- What a turn of `getConnection` does: it waits, or returns null or a connection.
pub data Got (S : Type 0) : Type 0 where
  waits : Got S
  null : Got S
  got : SqlConnection S → Got S

-- What the query of `checkConnection` does: it is answered, or throws and there is a new session.
pub data Ping (S : Type 0) : Type 0 where
  answers : Ping S
  reconnects : S → Ping S

module _ {S : Type 0} where
  -- The loop of the constructor, with what each connect gives: it is left when one throws.
  unfoldable pub connect_all : ℕ → ℕ → List (Option S) → List (SqlConnection S)
  connect_all slot now [] = []
  connect_all slot now (none ∷ attempts) = []
  connect_all slot now (some s ∷ attempts) =
      record { slot = slot; con = s; last_oper_time = now } ∷ connect_all (suc slot) now attempts

  unfoldable pub new_pool : ℕ → List (Option S) → MySqlPool S
  unfolding connect_all
  new_pool now attempts = record {
    pool = connect_all 0 now attempts;
    b_stop = false;
    to_check = 0;
    checked = none;
  }

  -- The front of the pool that is not stopped.
  unfoldable pub front_of : MySqlPool S → List (SqlConnection S) → Got S × MySqlPool S
  front_of p [] = (waits, p)
  front_of p (c ∷ cs) = (got c, record p { pool = cs })

  unfoldable pub get_connection : MySqlPool S → Got S × MySqlPool S
  unfolding front_of
  get_connection p = if p.b_stop then (null, p) else front_of p p.pool

  -- A stopped pool lets the connection go.
  unfoldable pub return_connection : SqlConnection S → MySqlPool S → MySqlPool S
  return_connection c p = if p.b_stop then p else record p { pool = p.pool ++ c ∷ [] }

  unfoldable pub close : MySqlPool S → MySqlPool S
  close p = record p { b_stop = true }

  -- The first lines of `checkConnection`.
  unfoldable pub check_begin : MySqlPool S → MySqlPool S
  check_begin p = record p { to_check = length p.pool }

  unfoldable pub check_front : MySqlPool S → ℕ → List (SqlConnection S) → MySqlPool S
  check_front p n [] = record p { to_check = 0 }
  check_front p n (c ∷ cs) = record p { pool = cs; to_check = n; checked = some c }

  -- A round of its loop up to the end of the first lock.
  unfoldable pub check_take : MySqlPool S → ℕ → MySqlPool S
  unfolding check_front
  check_take p zero = p
  check_take p (suc n) = if p.b_stop then record p { to_check = 0 } else check_front p n p.pool

  -- `con` after the query: after 30 seconds or more.
  unfoldable pub refresh : ℕ → Ping S → SqlConnection S → SqlConnection S
  refresh now answers c =
      if leb (c.last_oper_time + 30) now then record c { last_oper_time = now } else c
  refresh now (reconnects s) c =
      if leb (c.last_oper_time + 30) now then record c { con = s; last_oper_time = now } else c

  -- The rest of the round. The pool takes the connection back, stopped or not.
  unfoldable pub check_give : ℕ → Ping S → Option (SqlConnection S) → MySqlPool S → MySqlPool S
  unfolding refresh
  check_give now ping none p = p
  check_give now ping (some c) p = record p {
    pool = p.pool ++ refresh now ping c ∷ [];
    checked = none;
  }

-- The pool and the connections that callers hold.
pub record World (S : Type 0) : Type 0 where
  pub shared : MySqlPool S
  pub lent : List (SqlConnection S)

-- The turns of all threads; `gives i` returns the `i`-th of the connections that are lent. The timer
-- calls `checkConnection`, one call after the other.
pub data Event (S : Type 0) : Type 0 where
  gets : Event S
  gives : ℕ → Event S
  closes begins takes : Event S
  puts_back : ℕ → Ping S → Event S

abbrev pub beside : {A : Type 0} → A → Option (A × List A) → Option (A × List A)
beside x none = none
beside x (some (y, ys)) = some (y, x ∷ ys)

unfoldable pub pick : {A : Type 0} → List A → ℕ → Option (A × List A)
pick [] i = none
pick (x ∷ xs) zero = some (x, xs)
pick (x ∷ xs) (suc i) = beside x (pick xs i)

module _ {S : Type 0} where
  -- A connection that is got is lent.
  unfoldable pub lend : List (SqlConnection S) → Got S × MySqlPool S → World S
  lend held (waits, p) = record { shared = p; lent = held }
  lend held (null, p) = record { shared = p; lent = held }
  lend held (got c, p) = record { shared = p; lent = c ∷ held }

  unfoldable pub give_back : World S → Option (SqlConnection S × List (SqlConnection S)) → World S
  give_back w none = w
  give_back w (some (c, others)) = record { shared = return_connection c w.shared; lent = others }

  unfoldable pub step : World S → Event S → World S
  step w gets = lend w.lent (get_connection w.shared)
  step w (gives i) = give_back w (pick w.lent i)
  step w closes = record w { shared = close w.shared }
  step w begins = record w {
    shared = elim w.shared.checked [ none ↦ check_begin w.shared | some c ↦ w.shared ];
  }
  step w takes = record w {
    shared = elim w.shared.checked [
      | none ↦ check_take w.shared w.shared.to_check
      | some c ↦ w.shared
    ];
  }
  step w (puts_back now ping) = record w { shared = check_give now ping w.shared.checked w.shared }

  unfoldable pub run : World S → List (Event S) → World S
  run w [] = w
  run w (e ∷ es) = run (step w e) es
