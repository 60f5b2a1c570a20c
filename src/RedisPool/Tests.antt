-- ===== src/RedisPool/Tests.antt =====
-- Runs of `RedisPool`, and the theorems at inputs that meet their hypotheses.
use bre_utils.Prelude.{◌≡◌, refl, true, List, [], ◌∷◌}
use bre_utils.RedisPool.{
  Connect, no_context, broken, refused, connected, Event, gets, gives, closes_in_check, clears,
  connect, connect_all, new_pool, run, step, lend_front, pick, give_back, get_connection,
  return_connection, close, check_rounds, rotate, clear_connections,
}
use bre_utils.RedisPool.Places.{places, count, handed_out, places-new_pool}

abbrev attempts : List Connect
attempts = connected 10 ∷ broken 11 ∷ no_context ∷ refused 12 ∷ connected 13 ∷ connected 14 ∷ []

-- The pool is closed during a check; the context that is given back then is lost.
abbrev turns : List Event
turns = gets ∷ closes_in_check 1 ∷ gives 0 ∷ gets ∷ clears ∷ []

run-turns : run (new_pool attempts) turns ≡ record {
  shared = record { connections = []; b_stop = true };
  lent = [];
  freed = 14 ∷ 13 ∷ 11 ∷ [];
  lost = 10 ∷ 12 ∷ [];
}
unfolding run step new_pool connect_all connect get_connection lend_front pick give_back
    return_connection close check_rounds rotate clear_connections
run-turns = refl

places-new_pool_example : places 13 (run (new_pool attempts) turns) ≡ count 13 (handed_out attempts)
places-new_pool_example = places-new_pool 13 attempts turns
