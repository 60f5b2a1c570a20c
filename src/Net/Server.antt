-- ===== src/Net/Server.antt =====
-- breUtils/net/TCPServer.hpp, TCP.hpp, NetLogic.hpp and AsioIOContextPool.hpp: the table of sessions, what
-- `NetLogic` is told and sends, and the choice of an io_context. A `shared_ptr` in the table keeps its
-- session alive: a session is destructed when it leaves the table, or when its accept has failed. What
-- `OnClientConnected` and `OnClientDisconnected` are told is kept, the latest first.
pub mod Keys
pub mod Accept
pub mod Table
mod Tests
use bre_utils.Prelude.{
  ℕ, suc, ◌+◌, ◌==◌, Bool, true, false, Option, none, some, List, [], ◌∷◌, ◌++◌, Bytes, map,
  find_key, put, erase, if◌then◌else◌,
}
use bre_utils.BlockQueue.{BlockQueue, Turn, popped, new_queue, push, pop}
use bre_utils.Net.Session.Writer
use bre_utils.Net.Session.Writer.{TcpSession, start, send, stop}

pub record TcpServer : Type 0 where
  pub counter : ℕ
  pub next_context : ℕ
  pub sessions : List (Bytes × TcpSession)
  pub pending : TcpSession
  pub connected : List Bytes
  pub disconnected : List Bytes
  pub inbox : BlockQueue (Bytes × Bytes)

-- `GetIOContext` of a pool of so many contexts: the context, and the next one.
unfoldable pub get_io_context : ℕ → ℕ → ℕ × ℕ
get_io_context size next = (next, if suc next == size then 0 else suc next)

-- `startAccept`: the session that the next connection will have.
unfoldable pub start_accept : ℕ → TcpServer → TcpServer
start_accept pool_size v =
    let (context, next) = get_io_context pool_size v.next_context in
    let (s, counter') = start v.counter in
    record v {
      counter = counter';
      next_context = next;
      pending = s;
      connected = s.session_id ∷ v.connected;
    }

unfoldable pub new_server : ℕ → ℕ → ℕ → TcpServer
new_server pool_size counter next_context =
    let (context, next) = get_io_context pool_size next_context in
    let (s, counter') = start counter in
    record {
      counter = counter';
      next_context = next;
      sessions = [];
      pending = s;
      connected = s.session_id ∷ [];
      disconnected = [];
      inbox = new_queue 1024;
    }

unfoldable pub clear_found : Bytes → Option TcpSession → TcpServer → TcpServer
clear_found id none v = v
clear_found id (some s) v = record v {
  sessions = erase v.sessions id;
  disconnected = id ∷ v.disconnected;
}

-- `ClearSession`, which the destructor of a session calls.
unfoldable pub clear_session : Bytes → TcpServer → TcpServer
clear_session id v = clear_found id (find_key v.sessions id) v

-- `std::map::insert`: an entry that is there stays.
unfoldable pub insert :
    List (Bytes × TcpSession) → Bytes → TcpSession → Option TcpSession → List (Bytes × TcpSession)
insert sessions id s (some old) = sessions
insert sessions id s none = put sessions id s

-- When an accept has failed, nothing holds its session any more once the handler returns.
unfoldable pub handle_accept : ℕ → Bool → TcpServer → TcpServer
handle_accept pool_size error v =
    let id = v.pending.session_id in
    if error
    then clear_session id (start_accept pool_size v)
    else start_accept pool_size
        (record v { sessions = insert v.sessions id v.pending (find_key v.sessions id) })

unfoldable pub get_session : Bytes → TcpServer → Option TcpSession
get_session id v = find_key v.sessions id

unfoldable pub change :
    Bytes → (TcpSession → TcpSession) → Option TcpSession → TcpServer → TcpServer
change id f none v = v
change id f (some s) v = record v { sessions = put v.sessions id (f s) }

-- `NetLogic::Send`, in its two forms.
unfoldable pub logic_send : Bytes → Bytes → TcpServer → TcpServer
logic_send id m v = change id (send m) (get_session id v) v

-- A turn of a session that is in the table.
unfoldable pub session_turn : Bytes → Writer.Event → TcpServer → TcpServer
session_turn id e v = change id (λ s. Writer.step s e) (find_key v.sessions id) v

-- A message of a session goes into the queue of `NetLogic`; if it is full, the reading thread waits.
unfoldable pub logic_push : Bytes → Bytes → TcpServer → TcpServer
logic_push id m v = record v { inbox = (push (id, m) v.inbox).1 }

-- `process` of a `TestNetLogic`: a message goes back to the session that it came from.
unfoldable pub handle_popped :
    Turn (Bytes × Bytes) × BlockQueue (Bytes × Bytes) → TcpServer → TcpServer
handle_popped (popped (id, m), q) v = logic_send id m (record v { inbox = q })
handle_popped (_, q) v = record v { inbox = q }

unfoldable pub process : TcpServer → TcpServer
process v = handle_popped (pop v.inbox) v

unfoldable pub stop_all : List (Bytes × TcpSession) → List (Bytes × TcpSession)
stop_all [] = []
stop_all ((id, s) ∷ sessions) = (id, stop s) ∷ stop_all sessions

-- `TCPServer::Stop`, without the io_context.
unfoldable pub stop_server : TcpServer → TcpServer
stop_server v = record v { sessions = stop_all v.sessions }

-- The destructor: each session that the table lets go of calls `ClearSession`, which looks into the table
-- that is being cleared and locks the mutex that the destructor holds; both are undefined.
unfoldable pub destroy_found : List (Bytes × TcpSession) → TcpServer → Option TcpServer
destroy_found [] v = some v
destroy_found (entry ∷ sessions) v = none

unfoldable pub destroy : TcpServer → Option TcpServer
destroy v = destroy_found v.sessions (stop_server v)

-- What happens while the server lives; `elsewhere` is a session that is made outside of the server.
pub data Event : Type 0 where
  accepts : Bool → Event
  turns : Bytes → Writer.Event → Event
  arrives sends : Bytes → Bytes → Event
  processes stops elsewhere : Event

unfoldable pub step : ℕ → TcpServer → Event → TcpServer
step pool_size v (accepts error) = handle_accept pool_size error v
step pool_size v (turns id e) = session_turn id e v
step pool_size v (arrives id m) = logic_push id m v
step pool_size v (sends id m) = logic_send id m v
step pool_size v processes = process v
step pool_size v stops = stop_server v
step pool_size v elsewhere = record v { counter = (start v.counter).1 }

unfoldable pub run : ℕ → TcpServer → List Event → TcpServer
run pool_size v [] = v
run pool_size v (e ∷ es) = run pool_size (step pool_size v e) es
