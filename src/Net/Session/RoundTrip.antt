-- ===== src/Net/Session/RoundTrip.antt =====
-- What one session writes the other reads, and every reading ends.
use bre_utils.Prelude.{
  ℕ, zero, suc, ◌<◌, ◌^◌, ◌≡◌, ◌≢◌, refl, ap, sym, ◌∙◌, true, List, [], ◌∷◌, ◌++◌, All, Bytes,
  length, take, drop, le→ltb, take-append_length, drop-append_length, length-append, length-drop,
  arith,
}
use bre_utils.Net.Header.{
  TcpHeader, header_size, parse, header_data, IsHeader, parse-header_data, header_data-IsHeader,
  parse-IsHeader, length-header_data,
}
use bre_utils.Net.Session.{
  Reading, Event, sends, receives, IsEvent, closed, out_of_fuel, stop, onto_message, after_header,
  read_messages, read_stream, written, sent,
}

file_size-header_data :
    (size : ℕ) (h : TcpHeader) → size < 2 ^ 32 → (header_data size h).1.file_size ≡ size
unfolding header_data
file_size-header_data size h fits = omega arith

after_header-message :
    (h : TcpHeader) (m rest : Bytes) (r : Reading)
    → h.file_size ≡ length m
    → length m < 2 ^ 31
    → after_header (true, h) (m ++ rest) r ≡ onto_message m r
unfolding after_header
after_header-message h m rest r size fits =
    rw (size, length-append m rest, take-append_length m rest (length m) refl) (ground arith)

read_frame :
    (fuel : ℕ) (h peer : TcpHeader) (m rest : Bytes)
    → IsHeader h
    → length m < 2 ^ 31
    → read_messages (suc fuel) peer ((header_data (length m) h).0 ++ (m ++ rest))
      ≡ onto_message m (read_messages fuel (header_data (length m) h).1 rest)
unfolding read_messages
read_frame fuel h peer m rest v fits =
    let (front, h') = header_data (length m) h in
    let n = length-header_data (length m) h v in
    let enough =
      le→ltb (length (front ++ (m ++ rest))) 32
        (omega (arith, n, length-append front (m ++ rest))) in
    let size = file_size-header_data (length m) h (omega arith) in
    rw
      (
        enough,
        take-append_length front (m ++ rest) 32 (sym n),
        drop-append_length front (m ++ rest) 32 (sym n),
        parse-header_data (length m) h peer v (omega arith),
        size,
        drop-append_length m rest (length m) refl,
      )
      (after_header-message h' m rest (read_messages fuel h' rest) size fits)

read_nothing : (fuel : ℕ) (peer : TcpHeader) → read_messages (suc fuel) peer [] ≡ stop closed
unfolding read_messages
read_nothing fuel peer = refl

read_messages-written :
    (events : List Event) (fuel : ℕ) (h peer : TcpHeader)
    → IsHeader h
    → All IsEvent events
    → length (written h events) < fuel
    → read_messages fuel peer (written h events)
      ≡ record { messages = sent events; ending = closed }
unfolding written sent
read_messages-written events zero h peer v ok_events enough = absurd (omega arith)
read_messages-written [] (suc fuel) h peer v ok_events enough = read_nothing fuel peer
read_messages-written (sends m ∷ events) (suc fuel) h peer v (fits, more) enough =
    let (front, h') = header_data (length m) h in
    let out = written h' events in
    read_frame fuel h peer m out v fits
    ∙ ap (onto_message m) (
        read_messages-written events fuel h' h' (header_data-IsHeader (length m) h v) more (
          omega (
            arith,
            length-header_data (length m) h v,
            length-append front (m ++ out),
            length-append m out,
          )))
read_messages-written (receives bytes ∷ events) (suc fuel) h peer v (full, more) enough =
    read_messages-written events (suc fuel) (parse bytes h).1 peer (parse-IsHeader bytes h full v)
      more enough

-- A session whose header the peer accepts sends messages shorter than 2 ^ 31 bytes, while headers
-- arrive from the peer in between, good ones or not. What it writes the peer reads back, whatever
-- header the peer had: just the messages sent, in order, and then the end of the connection.
pub read_stream-written :
    (events : List Event) (h peer : TcpHeader)
    → IsHeader h
    → All IsEvent events
    → read_stream peer (written h events) ≡ record { messages = sent events; ending = closed }
unfolding read_stream
read_stream-written events h peer v ok_events =
    read_messages-written events (suc (length (written h events))) h peer v ok_events (omega arith)

read_messages-ends :
    (fuel : ℕ) (h : TcpHeader) (bytes : Bytes)
    → length bytes < fuel
    → (read_messages fuel h bytes).ending ≢ out_of_fuel
unfolding read_messages after_header
read_messages-ends zero h bytes enough = absurd (omega arith)
read_messages-ends (suc fuel) h bytes enough =
    let p = parse (take header_size bytes) h in
    let body = drop header_size bytes in
    let rest = read_messages-ends fuel p.1 (drop p.1.file_size body) in
    ground (arith, rest, length-drop p.1.file_size body, length-drop header_size bytes)

-- The reading of any bytes at all ends within its fuel.
read_stream-ends : (h : TcpHeader) (bytes : Bytes) → (read_stream h bytes).ending ≢ out_of_fuel
unfolding read_stream
read_stream-ends h bytes = read_messages-ends (suc (length bytes)) h bytes (omega arith)
