-- ===== src/Net/Session/Writer.antt =====
-- breUtils/net/TCPSession.hpp: a session with its queue, its flag and its writing thread. A write goes
-- through whole or throws, and the thread goes on after either. The threads take turns: one of the
-- writing thread goes to its next write, to the next statement of `GetHeaderData`, or back to the loop's
-- test; and the two assignments of `Parse` are two turns of the reading thread. The threads share the
-- header with no lock; each of its two members is read and written whole.
use bre_utils.Prelude.{
  ℕ, ◌+◌, ◌%◌, ◌^◌, Bool, true, false, Option, none, some, take, drop, List, [], ◌∷◌, ◌++◌, Bytes,
  length, leb, if◌then◌else◌, int_text, pos,
}
use bre_utils.BlockQueue.{BlockQueue, Turn, popped, new_queue, push, pop}
use bre_utils.Net.Header.{TcpHeader, new_header, to_bytes, parse}

-- Where the thread stands: at the test, with a message, in `GetHeaderData` behind `FileSize = size` or
-- behind the `memcpy`, behind the write of the header, or out of the loop.
pub data Place : Type 0 where
  testing ended : Place
  holding sized copied headed : Bytes → Place

pub record TcpSession : Type 0 where
  pub session_id : Bytes
  pub is_closed : Bool
  pub queue_send : BlockQueue Bytes
  pub header : TcpHeader
  pub parsing : Option Bytes
  pub place : Place
  pub wire : Bytes

-- `generateSessionId`, with the counter after it: a `std::atomic<uint64_t>`, which wraps.
unfoldable pub generate_session_id : ℕ → Bytes × ℕ
generate_session_id counter = (int_text (pos counter), (counter + 1) % 2 ^ 64)

-- The constructor and `Start`; the queue has the size that `BlockQueue` gives it.
unfoldable pub start : ℕ → TcpSession × ℕ
start counter =
    let (id, counter') = generate_session_id counter in
    (
      record {
        session_id = id;
        is_closed = false;
        queue_send = new_queue 1024;
        header = new_header;
        parsing = none;
        place = testing;
        wire = [];
      },
      counter',
    )

-- A turn of `Send`, in its three forms; on a full queue the caller waits.
unfoldable pub send : Bytes → TcpSession → TcpSession
send m s = record s { queue_send = (push m s.queue_send).1 }

unfoldable pub stop : TcpSession → TcpSession
stop s = record s { is_closed = true }

-- What `Pop` came to, within its ten milliseconds or not.
unfoldable pub popped_front : Turn Bytes × BlockQueue Bytes → TcpSession → TcpSession
popped_front (popped m, q) s = record s { queue_send = q; place = holding m }
popped_front (_, q) s = record s { queue_send = q }

-- `FileSize = size` and the `memcpy` in `GetHeaderData`.
unfoldable pub set_size : ℕ → TcpHeader → TcpHeader
set_size size h = record h { file_size = size % 2 ^ 32 }

unfoldable pub copy_size : TcpHeader → TcpHeader
unfolding to_bytes
copy_size h = record h {
  content = take 4 h.content ++ (to_bytes 4 h.file_size ++ drop 8 h.content);
}

-- `GetHeaderData` returns what the header has by then, and that is written.
unfoldable pub write_header : Bytes → TcpSession → TcpSession
write_header m s = record s { place = headed m; wire = s.wire ++ s.header.content }

-- A turn of `writeThread`.
unfoldable pub advance : Place → TcpSession → TcpSession
advance testing s =
    if s.is_closed then record s { place = ended } else popped_front (pop s.queue_send) s
advance (holding m) s = record s { header = set_size (length m) s.header; place = sized m }
advance (sized m) s = record s { header = copy_size s.header; place = copied m }
advance (copied m) s = write_header m s
advance (headed m) s = record s { place = testing; wire = s.wire ++ m }
advance ended s = s

-- A write throws, and the exception is caught in the loop.
unfoldable pub throw : Place → TcpSession → TcpSession
throw (copied m) s = record s { place = testing }
throw (headed m) s = record s { place = testing }
throw _ s = s

-- `Parse` up to `FileSize = …`, and `Data = data`.
unfoldable pub parse_size : Bool × TcpHeader → Bytes → TcpSession → TcpSession
parse_size (false, h) bytes s = s
parse_size (true, h) bytes s = record s {
  header = record s.header { file_size = h.file_size };
  parsing = some bytes;
}

unfoldable pub store_data : Option Bytes → TcpSession → TcpSession
store_data none s = s
store_data (some bytes) s = record s {
  header = record s.header { content = bytes };
  parsing = none;
}

-- `receives` is the first part of the parsing of a header of the peer, and `stores` the second.
pub data Event : Type 0 where
  sends receives : Bytes → Event
  runs stops throws stores : Event

unfoldable pub step : TcpSession → Event → TcpSession
step s (sends m) = send m s
step s (receives bytes) = parse_size (parse bytes s.header) bytes s
step s stores = store_data s.parsing s
step s runs = advance s.place s
step s stops = stop s
step s throws = throw s.place s

unfoldable pub run : TcpSession → List Event → TcpSession
run s [] = s
run s (e ∷ es) = run (step s e) es

-- The messages that the queue took.
unfoldable pub taken : Bytes → BlockQueue Bytes → List Bytes
taken m q = if leb q.capacity (length q.queue) then [] else m ∷ []

unfoldable pub accepted : TcpSession → List Event → List Bytes
accepted s [] = []
accepted s (sends m ∷ es) = taken m s.queue_send ++ accepted (send m s) es
accepted s (receives bytes ∷ es) = accepted (step s (receives bytes)) es
accepted s (runs ∷ es) = accepted (step s runs) es
accepted s (stores ∷ es) = accepted (step s stores) es
accepted s (stops ∷ es) = accepted (step s stops) es
accepted s (throws ∷ es) = accepted (step s throws) es
