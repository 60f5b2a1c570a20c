-- ===== src/Net/Server/Accept.antt =====
-- A change of one session, and an accept, keep every key of the table.
use bre_utils.Prelude.{
  ℕ, suc, ◌+◌, ◌≤◌, ◌<◌, ◌^◌, ◌≡◌, refl, ap, sym, ◌∙◌, subst, Bool, true, false, Option, none, some,
  Bytes, int_text, find_key, put, arith,
}
use bre_utils.Net.Session.Writer.{TcpSession, start, generate_session_id}
use bre_utils.Net.Server.{
  TcpServer, get_io_context, start_accept, clear_found, clear_session, insert, handle_accept,
  change,
}
use bre_utils.Net.Server.Keys.{
  present, Table, Kept, put-Kept, Numbered, put-Numbered, Numbered-weaken, fresh_key, Valid, Keeps,
}

pub change-Keeps :
    (id : Bytes) (f : TcpSession → TcpSession) (o : Option TcpSession) (v : TcpServer)
    → find_key v.sessions id ≡ o
    → Valid v
    → Keeps v (change id f o v)
unfolding change Numbered
change-Keeps id f none v e h = record {
  valid = h;
  kept = λ key p. p;
  silent = refl;
  counted = omega arith;
}
change-Keeps id f (some s) v e h = record {
  valid = record {
    number = h.number;
    next = h.next;
    below = h.below;
    numbered = put-Numbered h.number v.sessions id (f s) h.numbered (h.numbered id (ap present e));
  };
  kept = put-Kept v.sessions id (f s);
  silent = refl;
  counted = omega arith;
}

start_accept-Keeps :
    (pool_size : ℕ) (v w : TcpServer) (number : ℕ)
    → Numbered number w.sessions
    → number ≤ w.counter
    → w.counter + 1 < 2 ^ 64
    → Kept v.sessions w.sessions
    → w.disconnected ≡ v.disconnected
    → w.counter ≡ v.counter
    → Keeps v (start_accept pool_size w)
unfolding start_accept get_io_context start generate_session_id int_text
start_accept-Keeps pool_size v w number numbered few room kept silent same = record {
  valid = record {
    number = w.counter;
    next = refl;
    below = omega arith;
    numbered = Numbered-weaken number w.counter w.sessions few numbered;
  };
  kept = kept;
  silent = silent;
  counted = omega arith;
}

cleared : (v : TcpServer) (id : Bytes) → find_key v.sessions id ≡ none → clear_session id v ≡ v
unfolding clear_session clear_found
cleared v id e = ap (λ o. clear_found id o v) e

inserted :
    (sessions : Table) (id : Bytes) (s : TcpSession)
    → find_key sessions id ≡ none
    → insert sessions id s (find_key sessions id) ≡ put sessions id s
unfolding insert
inserted sessions id s e = ap (insert sessions id s) e

same_find :
    (pool_size : ℕ) (v : TcpServer) (id : Bytes)
    → find_key v.sessions id ≡ none
    → find_key (start_accept pool_size v).sessions id ≡ none
unfolding start_accept get_io_context start generate_session_id
same_find pool_size v id e = e

pub accept-Keeps :
    (pool_size : ℕ) (error : Bool) (v : TcpServer)
    → v.counter + 1 < 2 ^ 64
    → Valid v
    → Keeps v (handle_accept pool_size error v)
unfolding handle_accept
accept-Keeps pool_size true v few h =
    let below = h.below in
    let absent : find_key v.sessions v.pending.session_id ≡ none =
      ap (find_key v.sessions) h.next ∙ fresh_key h.number v.sessions (omega arith) h.numbered in
    subst (Keeps v)
      (sym (
        cleared (start_accept pool_size v) v.pending.session_id
          (same_find pool_size v v.pending.session_id absent)))
      (start_accept-Keeps pool_size v v h.number h.numbered (omega arith) few (λ key p. p) refl
        refl)
accept-Keeps pool_size false v few h =
    let below = h.below in
    let absent : find_key v.sessions v.pending.session_id ≡ none =
      ap (find_key v.sessions) h.next ∙ fresh_key h.number v.sessions (omega arith) h.numbered in
    let added : insert v.sessions v.pending.session_id v.pending
          (find_key v.sessions v.pending.session_id)
        ≡ put v.sessions v.pending.session_id v.pending =
      inserted v.sessions v.pending.session_id v.pending absent in
    let w : TcpServer = record v { sessions = put v.sessions v.pending.session_id v.pending } in
    subst (λ t. Keeps v (start_accept pool_size (record v { sessions = t }))) (sym added)
      (start_accept-Keeps pool_size v w (suc h.number)
        (put-Numbered (suc h.number) v.sessions v.pending.session_id v.pending
          (Numbered-weaken h.number (suc h.number) v.sessions (omega arith) h.numbered)
          (h.number, omega arith, h.next))
        (omega arith) few (put-Kept v.sessions v.pending.session_id v.pending) refl refl)
