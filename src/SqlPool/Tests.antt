-- ===== src/SqlPool/Tests.antt =====
-- Runs of `MySqlPool`, and the theorems at inputs that meet their hypotheses.
use bre_utils.Prelude.{ℕ, ◌≤◌, ◌≡◌, refl, false, Option, none, some, List, [], ◌∷◌}
use bre_utils.SqlPool.{
  World, Event, gets, gives, begins, takes, puts_back, reconnects, new_pool, run, step, lend, pick,
  give_back, get_connection, return_connection, check_begin, check_take, check_give,
}
use bre_utils.SqlPool.Owners.{owners, owners-new_pool}

-- The third connect of three fails; a session is a number here.
abbrev attempts : List (Option ℕ)
attempts = some 70 ∷ some 71 ∷ none ∷ some 72 ∷ []

abbrev start : World ℕ
start = record { shared = new_pool 5 attempts; lent = [] }

-- One connection is lent while the check renews the other; the third caller waits.
abbrev turns : List (Event ℕ)
turns = begins ∷ takes ∷ gets ∷ gets ∷ puts_back 40 (reconnects 80) ∷ gives 0 ∷ takes ∷ []

run-turns : run start turns ≡ record {
  shared = record {
    pool = record { slot = 1; con = 71; last_oper_time = 5 } ∷ [];
    b_stop = false;
    to_check = 0;
    checked = some (record { slot = 0; con = 80; last_oper_time = 40 });
  };
  lent = [];
}
unfolding run step new_pool lend pick give_back get_connection return_connection check_begin
    check_take check_give
run-turns = refl

owners-new_pool_example :
    owners 0 (run (record { shared = new_pool 5 attempts; lent = [] }) turns) ≤ 1
owners-new_pool_example = owners-new_pool 0 5 attempts turns
