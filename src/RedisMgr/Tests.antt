-- ===== src/RedisMgr/Tests.antt =====
-- Runs of `RedisMgr`, and the theorems at inputs that meet their hypotheses.
use bre_utils.Prelude.{◌≡◌, refl, true, false, none, some, List, [], ◌∷◌, pos, codes, arith}
use bre_utils.RedisPool.{
  connected, connect, connect_all, new_pool, run, lend_front, get_connection, return_connection,
  close, clear_connections, nothing,
}
use bre_utils.RedisPool.Places.{count}
use bre_utils.RedisMgr.{
  is_string, is_integer, is_error, Reply, Answer, no_reply, replied, Exchange, Manager, returns,
  request, allocate, field, text, free_reply, get_context, take_front, give_context, member, remove,
  c_str, open_pool, close_pool,
}
use bre_utils.RedisMgr.Handlers.{got_string, got_element, got_found, got_integer}
use bre_utils.RedisMgr.Commands.{get, l_pop, exists_key, del}
use bre_utils.RedisMgr.Contract.{transact}
use bre_utils.RedisMgr.Calls.{
  gets, l_pops, exists, dels, fetched, execute, failed, request_of, verdict_of, execute_lem,
}
use bre_utils.RedisMgr.Sessions.{
  Turn, calls, insts, shuts, session, turn, after, ended, KeepsAll, Keeps, KeepsFront,
}
use bre_utils.RedisMgr.Settled.{Settles, session-Settles}

abbrev fresh : Manager
fresh = record { contexts = nothing; allocated = []; released = []; sent = [] }

-- Two contexts.
abbrev opened : Manager
opened = record {
  contexts = record {
    shared = record { connections = 10 ∷ 11 ∷ []; b_stop = false };
    lent = [];
    freed = [];
    lost = [];
  };
  allocated = [];
  released = [];
  sent = [];
}

abbrev answering : Answer → Exchange
answering a = record { answer = λ c what. a; others = [] }

abbrev wrong_type : Reply
wrong_type = record { kind = is_error; str = some (codes "WRONGTYPE"); integer = pos 0 }

abbrev seven : Reply
seven = record { kind = is_string; str = some (codes "7"); integer = pos 0 }

abbrev zero_keys : Reply
zero_keys = record { kind = is_integer; str = none; integer = pos 0 }

-- An error of the server is taken for the element that was popped.
l_pop-error :
    execute (l_pops (codes "k")) (answering (replied 70 wrong_type)) opened
    ≡ returns (fetched (true, some (codes "WRONGTYPE"))) (record {
      contexts = record {
        shared = record { connections = 11 ∷ 10 ∷ []; b_stop = false };
        lent = [];
        freed = [];
        lost = [];
      };
      allocated = [];
      released = 70 ∷ [];
      sent = (10, request_of (l_pops (codes "k"))) ∷ [];
    })
unfolding execute l_pop got_element get_context take_front request allocate field text c_str
    free_reply give_context member remove get_connection lend_front return_connection run request_of
l_pop-error = refl

execute_example :
    execute (gets (codes "k")) (answering (replied 70 seven)) opened
    ≡ transact
        (failed (gets (codes "k")))
        (request_of (gets (codes "k")))
        (verdict_of (gets (codes "k")))
        (answering (replied 70 seven))
        opened
execute_example = execute_lem (gets (codes "k")) (answering (replied 70 seven)) opened

-- `Inst`, a value, a key that is not there, a call that gets no reply, and `Close`.
abbrev program : List Turn
program =
    insts (connected 10 ∷ connected 11 ∷ [])
    ∷ calls (gets (codes "k")) (answering (replied 70 seven))
    ∷ calls (exists (codes "k")) (answering (replied 71 zero_keys))
    ∷ calls (dels (codes "k")) (answering no_reply)
    ∷ shuts
    ∷ []

abbrev at_end : Manager
at_end = record {
  contexts = record {
    shared = record { connections = []; b_stop = true };
    lent = [];
    freed = 11 ∷ 10 ∷ [];
    lost = [];
  };
  allocated = [];
  released = 71 ∷ 70 ∷ [];
  sent =
      (10, request_of (dels (codes "k")))
      ∷ (11, request_of (exists (codes "k")))
      ∷ (10, request_of (gets (codes "k")))
      ∷ [];
}

session-program : session (some fresh) program ≡ some at_end
unfolding session turn after ended open_pool close_pool new_pool connect_all connect execute get
    exists_key del got_string got_found got_integer get_context take_front request allocate field
    text c_str free_reply give_context member remove get_connection lend_front return_connection run
    request_of close clear_connections
session-program = refl

program-KeepsAll : KeepsAll (some fresh) program
unfolding KeepsAll Keeps KeepsFront count session turn after ended open_pool close_pool new_pool
    connect_all connect execute get exists_key del got_string got_found got_integer get_context
    take_front request allocate field text c_str free_reply give_context member remove
    get_connection lend_front return_connection run request_of close clear_connections
program-KeepsAll = (tt, (omega arith, (omega arith, (omega arith, (tt, tt)))))

session-Settles_example : Settles fresh program at_end
session-Settles_example = session-Settles fresh at_end program program-KeepsAll session-program
