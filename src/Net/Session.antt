-- ===== src/Net/Session.antt =====
-- breUtils/net/TCPSession.hpp: the writing thread and the reading callbacks of `TCPSession`, and the
-- one header that they share. The socket is the row of bytes that arrive before the connection ends;
-- asio's reads give exactly the bytes asked for, or fail. A turn of the writing thread, and a parse
-- with the size taken from it, is one step.
pub mod RoundTrip
pub mod Writer
pub mod Log
pub mod Turns
pub mod Arrivals
pub mod Order
mod Tests
use bre_utils.Prelude.{
  ℕ, zero, suc, ◌+◌, ◌≤◌, ◌<◌, ◌^◌, ◌≡◌, ◌≢◌, refl, ap, sym, ◌∙◌, Bool, true, false, not, List, [],
  ◌∷◌, ◌++◌, All, Bytes, length, take, drop, ltb, leb, le→ltb, if◌then◌else◌, take-append_length,
  drop-append_length, length-append, length-drop, arith,
}
use bre_utils.Net.Header.{
  TcpHeader, header_size, new_header, parse, header_data, IsHeader, parse-header_data,
  header_data-IsHeader, parse-IsHeader, length-header_data,
}

-- Why the reading ends: a read fails, and `Stop` is called; a header is refused, and nothing is read
-- from then on; the size is no `int`, and the vector for it is not made.
pub data Ending : Type 0 where
  closed bad_header too_long out_of_fuel : Ending

pub record Reading : Type 0 where
  pub messages : List Bytes
  pub ending : Ending

abbrev pub onto_message : Bytes → Reading → Reading
onto_message m r = record { messages = m ∷ r.messages; ending = r.ending }

abbrev pub stop : Ending → Reading
stop e = record { messages = []; ending = e }

-- From the parsed header on; `rest` is what is read after the message.
unfoldable pub after_header : Bool × TcpHeader → Bytes → Reading → Reading
after_header (accepted, h) body rest =
    if not accepted
    then stop bad_header
    else if leb (2 ^ 31) h.file_size
    then stop too_long
    else if ltb (length body) h.file_size
    then stop closed
    else onto_message (take h.file_size body) rest

-- `asyncReadHeader` and `asyncReadData` in turn. The fuel is a bound on the number of messages.
unfoldable pub read_messages : ℕ → TcpHeader → Bytes → Reading
read_messages zero h bytes = stop out_of_fuel
read_messages (suc fuel) h bytes =
    let p = parse (take header_size bytes) h in
    let body = drop header_size bytes in
    let rest = read_messages fuel p.1 (drop p.1.file_size body) in
    if ltb (length bytes) header_size then stop closed else after_header p body rest

unfoldable pub read_stream : TcpHeader → Bytes → Reading
read_stream h bytes = read_messages (suc (length bytes)) h bytes

-- What a session does to its header: a message is sent, or a header of the peer arrives.
pub data Event : Type 0 where
  sends : Bytes → Event
  receives : Bytes → Event

-- The bytes that `writeThread` writes.
unfoldable pub written : TcpHeader → List Event → Bytes
written h [] = []
written h (sends m ∷ events) =
    let (front, h') = header_data (length m) h in front ++ (m ++ written h' events)
written h (receives bytes ∷ events) = written (parse bytes h).1 events

unfoldable pub sent : List Event → List Bytes
sent [] = []
sent (sends m ∷ events) = m ∷ sent events
sent (receives bytes ∷ events) = sent events

-- A message whose size is an `int`; a header that arrives is a block of its size.
abbrev pub IsEvent : Event → Type 0
IsEvent (sends m) = length m < 2 ^ 31
IsEvent (receives bytes) = length bytes ≡ header_size
