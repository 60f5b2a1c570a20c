-- ===== src/Net/Session/Tests.antt =====
-- Runs of the framing, and the theorems at inputs that meet their hypotheses.
use bre_utils.Prelude.{
  All, Bytes, ◌≡◌, ◌++◌, ◌^◌, ◌+◌, refl, [], ◌∷◌, List, codes, replicate, starts_with, arith,
}
use bre_utils.Net.Header.{to_bytes, of_bytes, new_header, header_data, parse, new_header-IsHeader}
use bre_utils.Net.Session.{
  Event, sends, receives, sent, written, read_stream, read_messages, after_header, closed,
  bad_header,
}
use bre_utils.BlockQueue.{new_queue, push, pop, take_front}
use bre_utils.Net.Session.Writer
use bre_utils.Net.Session.Log.{IsFine, AllApart, owed}
use bre_utils.Net.Session.Order.{read_stream-run}
use bre_utils.Net.Session.RoundTrip.{read_stream-written}

-- The header of a message of 300 bytes.
header_300 : (header_data 300 new_header).0 ≡ codes "BREZ" ++ (44 ∷ 1 ∷ 0 ∷ 0 ∷ replicate 24 0)
unfolding header_data
header_300 = refl

-- A size of 2 ^ 32 or more is cut.
header_cut : (header_data (2 ^ 32 + 5) new_header).1.file_size ≡ 5
unfolding header_data
header_cut = refl

abbrev talk : List Event
talk =
    sends (codes "hello")
    ∷ receives (codes "BREZ" ++ replicate 28 7)
    ∷ sends []
    ∷ receives (replicate 32 0)
    ∷ sends (codes "again")
    ∷ []

refused : read_stream new_header (replicate 40 0) ≡ record { messages = []; ending = bad_header }
unfolding read_stream read_messages after_header parse starts_with
refused = refl

read_stream-written_example :
    read_stream new_header (written new_header talk)
    ≡ record { messages = sent talk; ending = closed }
read_stream-written_example =
    read_stream-written talk new_header new_header new_header-IsHeader (omega arith)

-- Two messages, a header of the peer that is parsed while the first is sent, and one message that is still
-- in the queue at `Stop`.
abbrev meeting : List Writer.Event
meeting =
    Writer.sends (codes "hello")
    ∷ Writer.runs
    ∷ Writer.receives (codes "BREZ" ++ replicate 28 7)
    ∷ Writer.runs
    ∷ Writer.stores
    ∷ Writer.sends []
    ∷ Writer.runs
    ∷ Writer.runs
    ∷ Writer.runs
    ∷ Writer.runs
    ∷ Writer.runs
    ∷ Writer.runs
    ∷ Writer.runs
    ∷ Writer.sends (codes "late")
    ∷ Writer.runs
    ∷ Writer.stops
    ∷ Writer.runs
    ∷ []

-- What is in the queue when `Stop` is called is not written.
queue_lost : (Writer.run (Writer.start 0).0 meeting).queue_send.queue ≡ codes "late" ∷ []
unfolding Writer.run Writer.step Writer.start Writer.generate_session_id Writer.send Writer.stop
    Writer.popped_front Writer.set_size Writer.copy_size Writer.write_header Writer.advance
    Writer.parse_size Writer.store_data new_queue push pop take_front to_bytes of_bytes parse
    starts_with
queue_lost = refl

-- A header that arrives between `FileSize = size` and the `memcpy`: the size of the message that arrives
-- is sent for that of the message that is written.
size_overwritten :
    (Writer.run (Writer.start 0).0 (
      Writer.sends (codes "hello")
      ∷ Writer.runs
      ∷ Writer.runs
      ∷ Writer.receives (codes "BREZ" ++ (9 ∷ 0 ∷ 0 ∷ 0 ∷ replicate 24 0))
      ∷ Writer.runs
      ∷ Writer.runs
      ∷ Writer.runs
      ∷ [])).wire
    ≡ codes "BREZ" ++ (9 ∷ 0 ∷ 0 ∷ 0 ∷ replicate 24 0) ++ codes "hello"
unfolding Writer.run Writer.step Writer.start Writer.generate_session_id Writer.send Writer.stop
    Writer.popped_front Writer.set_size Writer.copy_size Writer.write_header Writer.advance
    Writer.parse_size Writer.store_data new_queue push pop take_front to_bytes of_bytes parse
    starts_with
size_overwritten = refl

meeting-IsFine : All IsFine meeting
meeting-IsFine = omega arith

meeting-AllApart : AllApart (Writer.start 0).0 meeting
unfolding AllApart Writer.run Writer.step Writer.start Writer.generate_session_id Writer.send
    Writer.stop Writer.popped_front Writer.set_size Writer.copy_size Writer.write_header
    Writer.advance Writer.parse_size Writer.store_data new_queue push pop take_front to_bytes
    of_bytes parse starts_with
meeting-AllApart = ground arith

meeting_whole : owed (Writer.run (Writer.start 0).0 meeting).place ≡ []
unfolding owed Writer.run Writer.step Writer.start Writer.generate_session_id Writer.send
    Writer.stop Writer.popped_front Writer.set_size Writer.copy_size Writer.write_header
    Writer.advance Writer.parse_size Writer.store_data new_queue push pop take_front to_bytes
    of_bytes parse starts_with
meeting_whole = refl

read_stream-run_example :
    let r = read_stream new_header (Writer.run (Writer.start 0).0 meeting).wire in
    (r.ending ≡ closed)
    × (later : List Bytes) × (r.messages ++ later ≡ Writer.accepted (Writer.start 0).0 meeting)
read_stream-run_example =
    read_stream-run 0 meeting new_header meeting-IsFine meeting-AllApart meeting_whole
