-- ===== src/Net/Sender.antt =====
-- breUtils/net/TCPManager.hpp, `TCPSender`: the connecting, the queue, the sending thread, `SendDirect`
-- and `Close`. The socket is the row of bytes that were written; a write succeeds whole or throws. The
-- turns of all threads are explicit: the sending thread holds the lock while it looks at the queue,
-- and not while it writes. A wait may end for no reason, so a waiting thread may take its turn any time.
pub mod Frames
pub mod Order
pub mod Drain
mod Tests
use bre_utils.Prelude.{
  ℕ, zero, suc, Bool, true, false, List, [], ◌∷◌, ◌++◌, Bytes, length, if◌then◌else◌,
}
use bre_utils.Net.Header.{TcpHeader, new_header, header_data}

-- Where the sending thread stands: it was never started, it waits at the queue, it holds a message, it
-- has written its header, it has ended.
pub data Place : Type 0 where
  unstarted waiting ended : Place
  holding headed : Bytes → Place

pub record Sender : Type 0 where
  pub is_closed : Bool
  pub queue : List Bytes
  pub header : TcpHeader
  pub place : Place
  pub wire : Bytes

-- `Connect`, by the outcomes of the tries that are left: whether it returns, or throws.
unfoldable pub connect_tries : ℕ → List Bool → Bool
connect_tries zero outcomes = false
connect_tries (suc retry) [] = false
connect_tries (suc retry) (outcome ∷ outcomes) =
    let later = connect_tries retry outcomes in if outcome then true else later

unfoldable pub connect : List Bool → Bool
connect outcomes = connect_tries 3 outcomes

-- The constructor up to the start of the thread; `_is_closed` is true from its declaration.
unfoldable pub create : List Bool → Sender
create outcomes = record {
  is_closed = true;
  queue = [];
  header = new_header;
  place = if connect outcomes then waiting else unstarted;
  wire = [];
}

-- The constructor's last statement.
unfoldable pub created : Sender → Sender
created s = record s { is_closed = false }

-- `Send`, in its three forms.
unfoldable pub send : Bytes → Sender → Sender
send data_sent s = record s { queue = s.queue ++ data_sent ∷ [] }

-- The two writes, of the header for a size, and of the bytes.
unfoldable pub write_header : ℕ → Sender → Sender
write_header size s =
    let (front, h) = header_data size s.header in record s { header = h; wire = s.wire ++ front }

unfoldable pub write : Bytes → Sender → Sender
write bytes s = record s { wire = s.wire ++ bytes }

-- `SendDirect`, when nothing comes between its two writes.
unfoldable pub send_direct : Bytes → Sender → Sender
send_direct bytes s = write bytes (write_header (length bytes) s)

-- `Close` up to the join.
unfoldable pub close : Sender → Sender
close s = record s { is_closed = true }

-- The thread at the queue: it ends, waits, or takes the front.
unfoldable pub look : List Bytes → Sender → Sender
look [] s = if s.is_closed then record s { place = ended } else s
look (m ∷ ms) s = record s { queue = ms; place = holding m }

-- A turn of `sendThread`, to its next write or wait.
unfoldable pub advance : Place → Sender → Sender
advance unstarted s = s
advance waiting s = look s.queue s
advance (holding m) s = write_header (length m) (record s { place = headed m })
advance (headed m) s = write m (record s { place = waiting })
advance ended s = s

-- A write of the thread throws: the exception leaves `sendThread`.
unfoldable pub throw : Place → Sender → Sender
throw (holding m) s = record s { place = ended }
throw (headed m) s = record s { place = ended }
throw _ s = s

pub data Event : Type 0 where
  sends direct direct_body : Bytes → Event
  direct_header : ℕ → Event
  constructs runs throws closes : Event

-- `direct_header` and `direct_body` are the two halves of a `SendDirect` that is interrupted.
unfoldable pub step : Sender → Event → Sender
step s (sends m) = send m s
step s (direct m) = send_direct m s
step s (direct_header size) = write_header size s
step s (direct_body m) = write m s
step s constructs = created s
step s runs = advance s.place s
step s throws = throw s.place s
step s closes = close s

unfoldable pub run : Sender → List Event → Sender
run s [] = s
run s (e ∷ es) = run (step s e) es

-- The messages that `Send` was given.
unfoldable pub messages : List Event → List Bytes
messages [] = []
messages (sends m ∷ es) = m ∷ messages es
messages (_ ∷ es) = messages es

-- The messages, each behind its header.
unfoldable pub frames : TcpHeader → List Bytes → Bytes
frames h [] = []
frames h (m ∷ ms) = let (front, h') = header_data (length m) h in front ++ (m ++ frames h' ms)
