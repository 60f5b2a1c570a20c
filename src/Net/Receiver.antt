-- ===== src/Net/Receiver.antt =====
-- breUtils/net/TCPManager.hpp, `TCPReceiver`: the receiving thread over the connections that are
-- accepted one after another, `Get` and `Close`. A connection is the bytes that arrive on it and how it
-- ends; asio's reads give exactly the bytes asked for, or fail. After an end of file the socket is
-- accepted anew: the call `connect()`, which names nothing, is taken for `startConnect()`. The file holds
-- conflict marks; between them stand two spellings of the same constructor, and comments.
pub mod RoundTrip
pub mod Begin
mod Tests
use bre_utils.Prelude.{
  ℕ, zero, suc, ◌^◌, Bool, true, false, not, Option, none, some, List, [], ◌∷◌, ◌++◌, Bytes, length,
  take, drop, ltb, leb, starts_with, if◌then◌else◌,
}
use bre_utils.Net.Header.{TcpHeader, header_size, magic, parse}

-- An end of file, or another error.
pub data Cut : Type 0 where
  eof broken : Cut

pub record Link : Type 0 where
  pub arriving : Bytes
  pub ended_by : Cut

-- `read_data_from_socket` returns, with the header, the connection and those to come; it waits in
-- `accept`; an error is thrown; or the size is no `int`, which is undefined.
pub data Reading : Type 0 where
  returns : Bytes → TcpHeader → Link → List Link → Reading
  listens throws overflows : Reading

unfoldable pub start_connect : TcpHeader → List Link → Reading
start_connect h [] = listens
start_connect h (l ∷ ls) = returns [] h l ls

-- A read that cannot be satisfied.
unfoldable pub failed : TcpHeader → Cut → List Link → Reading
failed h eof ls = start_connect h ls
failed h broken ls = throws

-- From the checked header on.
unfoldable pub read_body : TcpHeader → Bytes → Cut → List Link → Reading
read_body h body cut ls =
    if ltb (length body) h.file_size
    then failed h cut ls
    else if leb (2 ^ 31) h.file_size
    then overflows
    else returns (take h.file_size body) h
        (record { arriving = drop h.file_size body; ended_by = cut }) ls

-- What `Parse` says is not looked at; the header that it left is.
unfoldable pub read_data : TcpHeader → Link → List Link → Reading
read_data h l ls =
    let body = drop header_size l.arriving in
    let parsed = (parse (take header_size l.arriving) h).1 in
    if ltb (length l.arriving) header_size
    then failed h l.ended_by ls
    else if not (starts_with magic parsed.content)
    then returns [] parsed (record { arriving = body; ended_by = l.ended_by }) ls
    else read_body parsed body l.ended_by ls

-- The thread waits for a connection, reads a broken one for ever, has met the overflow, or has seen
-- that the receiver is closed.
pub data Ending : Type 0 where
  listening spinning undefined stopped : Ending

-- The queue does not take an empty message.
unfoldable pub push : Bytes → List Bytes × Ending → List Bytes × Ending
push [] r = r
push (c ∷ m) r = ((c ∷ m) ∷ r.0, r.1)

-- `recvThread`: the messages that it puts into the queue; after so many rounds the thread sees that
-- `Close` was called.
unfoldable pub receive : ℕ → TcpHeader → Link → List Link → List Bytes × Ending
receive zero h l ls = ([], stopped)
receive (suc rounds) h l ls = elim (read_data h l ls) [
  | returns m h' l' ls' ↦ push m (receive rounds h' l' ls')
  | listens ↦ ([], listening)
  | throws ↦ ([], spinning)
  | overflows ↦ ([], undefined)
]

-- The queue, as its users see it.
pub record Receiver : Type 0 where
  pub queue : List Bytes
  pub is_closed : Bool

-- A turn of `Get`; `none` is a wait. The test after it, for an empty queue, is never met.
unfoldable pub front : Receiver → List Bytes → Option Bytes × Receiver
front r [] = (none, r)
front r (m ∷ ms) = (some m, record r { queue = ms })

unfoldable pub get : Receiver → Option Bytes × Receiver
get r = front r r.queue

unfoldable pub close : Receiver → Receiver
close r = record r { is_closed = true }
