-- ===== src/Net/Receiver/RoundTrip.antt =====
-- The receiver gets what the sender was given.
use bre_utils.Prelude.{
  ℕ, zero, suc, ◌+◌, ◌<◌, ◌≤◌, ◌^◌, ◌≡◌, refl, ap, sym, ◌∙◌, List, [], ◌∷◌, ◌++◌, All, Bytes,
  length, le→ltb, take-append_length, drop-append_length, length-append, arith,
}
use bre_utils.Net.Header.{
  TcpHeader, new_header, header_data, IsHeader, parse-header_data, header_data-IsHeader,
  length-header_data, new_header-IsHeader,
}
use bre_utils.Net.Sender.{frames}
use bre_utils.Net.Receiver.{
  Cut, eof, Link, Reading, returns, listens, throws, overflows, start_connect, failed, read_body,
  read_data, Ending, listening, spinning, undefined, push, receive,
}

-- The messages that are not empty.
unfoldable pub nonempty : List Bytes → List Bytes
nonempty [] = []
nonempty ([] ∷ ms) = nonempty ms
nonempty ((c ∷ m) ∷ ms) = (c ∷ m) ∷ nonempty ms

abbrev pub IsShort : Bytes → Type 0
IsShort m = length m < 2 ^ 31

abbrev pub link : Bytes → Cut → Link
link bytes cut = record { arriving = bytes; ended_by = cut }

read_body-message :
    (h : TcpHeader) (m rest : Bytes) (cut : Cut) (ls : List Link)
    → h.file_size ≡ length m
    → length m < 2 ^ 31
    → read_body h (m ++ rest) cut ls ≡ returns m h (link rest cut) ls
unfolding read_body
read_body-message h m rest cut ls size fits =
    rw
      (
        size,
        length-append m rest,
        take-append_length m rest (length m) refl,
        drop-append_length m rest (length m) refl,
      )
      (ground arith)

pub file_size-header_data :
    (size : ℕ) (h : TcpHeader) → size < 2 ^ 32 → (header_data size h).1.file_size ≡ size
unfolding header_data
file_size-header_data size h fits = omega arith

-- The header in front of a message is read, whatever header the receiver has.
pub read_data-header :
    (h peer : TcpHeader) (size : ℕ) (body : Bytes) (cut : Cut) (ls : List Link)
    → IsHeader h
    → size < 2 ^ 31
    → read_data peer (link ((header_data size h).0 ++ body) cut) ls
      ≡ read_body (header_data size h).1 body cut ls
unfolding read_data
read_data-header h peer size body cut ls v fits =
    let (front, h') = header_data size h in
    let n = length-header_data size h v in
    let enough = le→ltb (length (front ++ body)) 32 (omega (arith, n, length-append front body)) in
    rw
      (
        enough,
        take-append_length front body 32 (sym n),
        drop-append_length front body 32 (sym n),
        parse-header_data size h peer v (omega arith),
        (header_data-IsHeader size h v).marked,
      )
      refl

pub read_data-frame :
    (h peer : TcpHeader) (m rest : Bytes) (cut : Cut) (ls : List Link)
    → IsHeader h
    → IsShort m
    → read_data peer (link ((header_data (length m) h).0 ++ (m ++ rest)) cut) ls
      ≡ returns m (header_data (length m) h).1 (link rest cut) ls
read_data-frame h peer m rest cut ls v fits =
    read_data-header h peer (length m) (m ++ rest) cut ls v fits
    ∙ read_body-message (header_data (length m) h).1 m rest cut ls
        (file_size-header_data (length m) h (omega arith)) fits

-- A round, by what its call comes to.
abbrev pub round_of : ℕ → Reading → List Bytes × Ending
round_of rounds r = elim r [
  | returns m h l ls ↦ push m (receive rounds h l ls)
  | listens ↦ ([], listening)
  | throws ↦ ([], spinning)
  | overflows ↦ ([], undefined)
]

pub receive-round :
    (rounds : ℕ) (h : TcpHeader) (l : Link) (ls : List Link) (r : Reading)
    → read_data h l ls ≡ r
    → receive (suc rounds) h l ls ≡ round_of rounds r
unfolding receive
receive-round rounds h l ls r e = ap (round_of rounds) e

-- The messages of one sender after another.
unfoldable pub all_of : List Bytes → List (List Bytes) → List Bytes
all_of ms [] = ms
all_of ms (ms' ∷ later) = ms ++ all_of ms' later

-- The connections of those senders.
unfoldable pub links : List (List Bytes) → List Link
links [] = []
links (ms ∷ later) = link (frames new_header ms) eof ∷ links later

-- A round for each message, and one for each end.
unfoldable pub rounds_for : List Bytes → List (List Bytes) → ℕ
rounds_for ms [] = length ms + 1
rounds_for ms (ms' ∷ later) = length ms + 1 + rounds_for ms' later

pub push-nonempty :
    (m : Bytes) (ms : List Bytes) (e : Ending) → push m (nonempty ms, e) ≡ (nonempty (m ∷ ms), e)
unfolding push nonempty
push-nonempty [] ms e = refl
push-nonempty (c ∷ m) ms e = refl

rounds_for-message :
    (m : Bytes) (ms : List Bytes) (later : List (List Bytes))
    → (rounds_for (m ∷ ms) later ≡ suc (rounds_for ms later))
      × (all_of (m ∷ ms) later ≡ m ∷ all_of ms later)
unfolding rounds_for all_of
rounds_for-message m ms [] = (omega arith, refl)
rounds_for-message m ms (ms' ∷ later) = (omega arith, refl)

last_end :
    (rounds : ℕ) (peer : TcpHeader) → receive (suc rounds) peer (link [] eof) [] ≡ ([], listening)
unfolding receive read_data failed start_connect
last_end rounds peer = refl

next_link :
    (peer : TcpHeader) (ms : List Bytes) (later : List (List Bytes))
    → read_data peer (link [] eof) (links (ms ∷ later))
      ≡ returns [] peer (link (frames new_header ms) eof) (links later)
unfolding read_data failed start_connect links
next_link peer ms later = refl

-- The rest of a connection, and the connections after it.
receive-frames :
    (rounds : ℕ) (h peer : TcpHeader) (ms : List Bytes) (later : List (List Bytes))
    → IsHeader h
    → All IsShort ms
    → All (All IsShort) later
    → rounds_for ms later ≤ rounds
    → receive rounds peer (link (frames h ms) eof) (links later)
      ≡ (nonempty (all_of ms later), listening)
unfolding frames links rounds_for all_of nonempty
receive-frames zero h peer [] [] v short shorts enough = absurd (omega arith)
receive-frames zero h peer [] (ms ∷ later) v short shorts enough = absurd (omega arith)
receive-frames zero h peer (m ∷ ms) later v short shorts enough =
    let (more, all) = rounds_for-message m ms later in absurd (omega arith)
receive-frames (suc rounds) h peer [] [] v short shorts enough = last_end rounds peer
receive-frames (suc rounds) h peer [] (ms ∷ later) v short shorts enough =
    receive-round rounds peer _ (links (ms ∷ later)) _ (next_link peer ms later)
    ∙ ap (push []) (
        receive-frames rounds new_header peer ms later new_header-IsHeader shorts.0 shorts.1
          (omega arith))
    ∙ push-nonempty [] (all_of ms later) listening
receive-frames (suc rounds) h peer (m ∷ ms) later v short shorts enough =
    let (more, all) = rounds_for-message m ms later in
    let h' = (header_data (length m) h).1 in
    receive-round rounds peer _ (links later) _
      (read_data-frame h peer m (frames h' ms) eof (links later) v short.0)
    ∙ ap (push m) (
        receive-frames rounds h' h' ms later (header_data-IsHeader (length m) h v) short.1 shorts
          (omega arith))
    ∙ push-nonempty m (all_of ms later) listening
    ∙ ap (λ ns. (nonempty ns, listening)) (sym all)

-- Senders one after another, each of which is drained and then ends the connection, and a receiver with
-- any header: after a round for each message and for each end, the thread has put into the queue just
-- the messages that are not empty, in order, and listens again. Messages are shorter than 2 ^ 31 bytes.
pub receive-links :
    (rounds : ℕ) (peer : TcpHeader) (ms : List Bytes) (later : List (List Bytes))
    → All IsShort ms
    → All (All IsShort) later
    → rounds_for ms later ≤ rounds
    → receive rounds peer (link (frames new_header ms) eof) (links later)
      ≡ (nonempty (all_of ms later), listening)
receive-links rounds peer ms later short shorts enough =
    receive-frames rounds new_header peer ms later new_header-IsHeader short shorts enough
