-- ===== src/Net/Server/Tests.antt =====
-- Runs of `TCPServer`, and the theorem at an input that meets its hypotheses.
use bre_utils.Prelude.{
  ◌≡◌, refl, true, false, none, List, [], ◌∷◌, ◌++◌, codes, find_key, put, equal, arith, int_text,
  to_decimal, decimals_onto,
}
use bre_utils.BlockQueue.{new_queue, push, pop, take_front}
use bre_utils.Net.Session.Writer
use bre_utils.Net.Session.Writer.{start, generate_session_id, send}
use bre_utils.Net.Server.{
  Event, accepts, turns, arrives, processes, stops, new_server, get_io_context, start_accept,
  insert, handle_accept, clear_session, clear_found, get_session, change, logic_send, session_turn,
  logic_push, handle_popped, process, step, run, destroy, destroy_found,
}
use bre_utils.Net.Server.Keys.{present}
use bre_utils.Net.Server.Table.{get_session-run}

-- A client is accepted, another is not; a message comes back to the queue of its session.
abbrev day : List Event
day =
    accepts false
    ∷ accepts true
    ∷ arrives (codes "0") (codes "hello")
    ∷ processes
    ∷ turns (codes "0") Writer.runs
    ∷ []

day_found : present (get_session (codes "0") (run 2 (new_server 2 0 0) day)) ≡ true
unfolding run step new_server get_io_context start generate_session_id start_accept handle_accept
    insert clear_session clear_found get_session change logic_send session_turn logic_push
    handle_popped process find_key put equal new_queue push pop take_front send Writer.step
    Writer.advance Writer.popped_front int_text to_decimal decimals_onto
day_found = refl

-- The destructor of a server that has a session meets what is undefined.
day_destroyed : destroy (run 2 (new_server 2 0 0) day) ≡ none
unfolding run step new_server get_io_context start generate_session_id start_accept handle_accept
    insert clear_session clear_found get_session change logic_send session_turn logic_push
    handle_popped process find_key put equal new_queue push pop take_front send Writer.step
    Writer.advance Writer.popped_front destroy destroy_found int_text to_decimal decimals_onto
day_destroyed = refl

get_session-run_example :
    (present (get_session (codes "0") (run 2 (new_server 2 0 0) (day ++ stops ∷ []))) ≡ true)
    × ((run 2 (new_server 2 0 0) (day ++ stops ∷ [])).disconnected ≡ [])
get_session-run_example = get_session-run 2 0 0 day (stops ∷ []) (codes "0") (omega arith) day_found
