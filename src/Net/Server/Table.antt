-- ===== src/Net/Server/Table.antt =====
-- While the server lives no session leaves its table, and nobody is told that a client has gone.
use bre_utils.Prelude.{
  ℕ, ◌+◌, ◌≤◌, ◌<◌, ◌^◌, ◌≡◌, refl, sym, ◌∙◌, subst, Bool, true, false, some, List, [], ◌∷◌, ◌++◌,
  length-append, Bytes, int_text, find_key, equal, length, if◌then◌else◌, arith,
}
use bre_utils.BlockQueue.{BlockQueue, Turn, popped, waits, pushed, fails, closes, push, pop}
use bre_utils.Net.Session.Writer.{TcpSession, start, stop, send, generate_session_id}
use bre_utils.Net.Server.{
  TcpServer, get_io_context, new_server, get_session, logic_send, session_turn, logic_push,
  handle_popped, process, stop_all, stop_server, Event, accepts, turns, arrives, sends, processes,
  stops, elsewhere, step, run,
}
use bre_utils.Net.Server.Keys.{present, Table, Kept, Numbered, Valid, Keeps}
use bre_utils.Net.Server.Accept.{change-Keeps, accept-Keeps}

stopped_find :
    (same : Bool) (s t : TcpSession) (sessions later : Table) (id : Bytes)
    → present (find_key later id) ≡ present (find_key sessions id)
    → present (if same then some t else find_key later id)
      ≡ present (if same then some s else find_key sessions id)
stopped_find true s t sessions later id h = refl
stopped_find false s t sessions later id h = h

stop_all-find :
    (sessions : Table) (id : Bytes)
    → present (find_key (stop_all sessions) id) ≡ present (find_key sessions id)
unfolding stop_all find_key
stop_all-find [] id = refl
stop_all-find ((key, s) ∷ sessions) id =
    stopped_find (equal key id) s (stop s) sessions (stop_all sessions) id
      (stop_all-find sessions id)

inbox-Keeps :
    (v : TcpServer) (q : BlockQueue (Bytes × Bytes)) → Valid v → Keeps v (record v { inbox = q })
inbox-Keeps v q h = record {
  valid = record { number = h.number; next = h.next; below = h.below; numbered = h.numbered };
  kept = λ key p. p;
  silent = refl;
  counted = omega arith;
}

popped-Keeps :
    (v : TcpServer) (r : Turn (Bytes × Bytes) × BlockQueue (Bytes × Bytes))
    → Valid v
    → Keeps v (handle_popped r v)
unfolding handle_popped logic_send get_session
popped-Keeps v (popped (id, m), q) h =
    let w : TcpServer = record v { inbox = q } in
    let begun : Keeps v w = inbox-Keeps v q h in
    let k = change-Keeps id (send m) (find_key v.sessions id) w refl begun.valid in
    record { valid = k.valid; kept = k.kept; silent = k.silent; counted = k.counted }
popped-Keeps v (waits, q) h = inbox-Keeps v q h
popped-Keeps v (pushed, q) h = inbox-Keeps v q h
popped-Keeps v (fails, q) h = inbox-Keeps v q h
popped-Keeps v (closes, q) h = inbox-Keeps v q h

stop-Keeps : (v : TcpServer) → Valid v → Keeps v (stop_server v)
unfolding stop_server Numbered
stop-Keeps v h = record {
  valid = record {
    number = h.number;
    next = h.next;
    below = h.below;
    numbered = λ id p. h.numbered id (sym (stop_all-find v.sessions id) ∙ p);
  };
  kept = λ id p. stop_all-find v.sessions id ∙ p;
  silent = refl;
  counted = omega arith;
}

step-Keeps :
    (pool_size : ℕ) (v : TcpServer) (e : Event)
    → v.counter + 1 < 2 ^ 64
    → Valid v
    → Keeps v (step pool_size v e)
unfolding step session_turn logic_send get_session logic_push process start generate_session_id
step-Keeps pool_size v (accepts error) few h = accept-Keeps pool_size error v few h
step-Keeps pool_size v (turns id e) few h = change-Keeps id _ (find_key v.sessions id) v refl h
step-Keeps pool_size v (sends id m) few h = change-Keeps id _ (find_key v.sessions id) v refl h
step-Keeps pool_size v (arrives id m) few h = inbox-Keeps v (push (id, m) v.inbox).1 h
step-Keeps pool_size v processes few h = popped-Keeps v (pop v.inbox) h
step-Keeps pool_size v stops few h = stop-Keeps v h
step-Keeps pool_size v elsewhere few h =
    let below = h.below in
    record {
      valid = record {
        number = h.number;
        next = h.next;
        below = omega arith;
        numbered = h.numbered;
      };
      kept = λ key p. p;
      silent = refl;
      counted = omega arith;
    }

-- What a whole run keeps.
record Lasts (n : ℕ) (v w : TcpServer) : Type 0 where
  amount : w.counter ≤ v.counter + n
  still : Valid w
  stays : Kept v.sessions w.sessions
  reports : w.disconnected ≡ v.disconnected

run-Lasts :
    (pool_size : ℕ) (v : TcpServer) (es : List Event)
    → v.counter + length es < 2 ^ 64
    → Valid v
    → Lasts (length es) v (run pool_size v es)
unfolding run
run-Lasts pool_size v [] few h = record {
  amount = omega arith;
  still = h;
  stays = λ key p. p;
  reports = refl;
}
run-Lasts pool_size v (e ∷ es) few h =
    let k = step-Keeps pool_size v e (omega arith) h in
    let counted = k.counted in
    let rest = run-Lasts pool_size (step pool_size v e) es (omega arith) k.valid in
    let amount = rest.amount in
    record {
      amount = omega arith;
      still = rest.still;
      stays = λ key p. rest.stays key (k.kept key p);
      reports = rest.reports ∙ k.silent;
    }

new-Valid :
    (pool_size counter next_context : ℕ)
    → counter + 1 < 2 ^ 64
    → Valid (new_server pool_size counter next_context)
unfolding new_server get_io_context start generate_session_id int_text Numbered find_key
new-Valid pool_size counter next_context few = record {
  number = counter;
  next = refl;
  below = omega arith;
  numbered = λ id p. absurd (cc p);
}

run-append :
    (pool_size : ℕ) (v : TcpServer) (es fs : List Event)
    → run pool_size v (es ++ fs) ≡ run pool_size (run pool_size v es) fs
unfolding run
run-append pool_size v [] fs = refl
run-append pool_size v (e ∷ es) fs = run-append pool_size (step pool_size v e) es fs

no_reports :
    (pool_size counter next_context : ℕ)
    → (new_server pool_size counter next_context).disconnected ≡ []
unfolding new_server get_io_context start generate_session_id
no_reports pool_size counter next_context = refl

counted_new :
    (pool_size counter next_context : ℕ)
    → counter + 1 < 2 ^ 64
    → (new_server pool_size counter next_context).counter ≡ counter + 1
unfolding new_server get_io_context start generate_session_id
counted_new pool_size counter next_context few = omega (arith, few)

-- From the constructor on, and as long as the counter of the session ids, of 64 bits, does not come
-- round in the program, whatever accepts fail, messages arrive, sessions stop or end and the server
-- stops: a session that `GetSession` finds it finds for ever, and `OnClientDisconnected` is never called.
pub get_session-run :
    (pool_size counter next_context : ℕ) (es fs : List Event) (id : Bytes)
    → counter + 1 + length (es ++ fs) < 2 ^ 64
    → let v = new_server pool_size counter next_context in
      present (get_session id (run pool_size v es)) ≡ true
      → (present (get_session id (run pool_size v (es ++ fs))) ≡ true)
        × ((run pool_size v (es ++ fs)).disconnected ≡ [])
unfolding get_session
get_session-run pool_size counter next_context es fs id few h =
    let v = new_server pool_size counter next_context in
    let n = counted_new pool_size counter next_context (omega arith) in
    let both = length-append es fs in
    let first =
      run-Lasts pool_size v es (omega arith)
        (new-Valid pool_size counter next_context (omega arith)) in
    let amount = first.amount in
    let rest = run-Lasts pool_size (run pool_size v es) fs (omega arith) first.still in
    let whole = sym (run-append pool_size v es fs) in
    (
      subst (λ w. present (find_key w.sessions id) ≡ true) whole (rest.stays id h),
      subst (λ w. w.disconnected ≡ []) whole
          (rest.reports ∙ first.reports ∙ no_reports pool_size counter next_context),
    )
