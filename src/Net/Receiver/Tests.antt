-- ===== src/Net/Receiver/Tests.antt =====
-- Runs of `TCPReceiver`, and the theorems at inputs that meet their hypotheses.
use bre_utils.Prelude.{
  ◌≡◌, ◌++◌, refl, true, List, [], ◌∷◌, Bytes, codes, replicate, arith, starts_with, All, ◌≤◌,
}
use bre_utils.Net.Header.{TcpHeader, new_header, header_data, parse}
use bre_utils.Net.Sender.{
  Event, sends, runs, closes, throws, constructs, create, connect, connect_tries, created, send,
  advance, look, write_header, write, throw, close, step, run, messages, frames,
}
use bre_utils.Net.Sender.Order.{IsQueued}
use bre_utils.Net.Receiver.{eof, broken, returns, read_data, read_body, receive, listening}
use bre_utils.Net.Receiver.RoundTrip.{
  link, IsShort, nonempty, all_of, links, rounds_for, receive-links,
}
use bre_utils.Net.Receiver.Begin.{Begins, receive-run}

abbrev three_bytes : TcpHeader
three_bytes = record { content = codes "BREZ" ++ (3 ∷ replicate 27 0); file_size = 3 }

-- A block that is no header is not refused: the size of the last message is used again.
stale_header :
    read_data three_bytes (link (replicate 32 7 ++ codes "abcd") eof) []
    ≡ returns (codes "abc") three_bytes (link (codes "d") eof) []
unfolding read_data read_body parse starts_with
stale_header = refl

abbrev first : List Bytes
first = codes "abc" ∷ [] ∷ codes "d" ∷ []

enough_rounds : rounds_for first ((codes "e" ∷ []) ∷ []) ≤ 6
unfolding rounds_for
enough_rounds = omega arith

receive-links_example :
    receive 6 new_header (link (frames new_header first) eof) (links ((codes "e" ∷ []) ∷ []))
    ≡ (nonempty (all_of first ((codes "e" ∷ []) ∷ [])), listening)
receive-links_example =
    receive-links 6 new_header first ((codes "e" ∷ []) ∷ []) (omega arith) (omega arith)
      enough_rounds

abbrev talk : List Event
talk = constructs ∷ sends (codes "abc") ∷ runs ∷ runs ∷ throws ∷ sends (codes "d") ∷ closes ∷ []

talk-IsQueued : All IsQueued talk
talk-IsQueued = (tt, (tt, (tt, (tt, (tt, (tt, (tt, tt)))))))

talk-IsShort : All IsShort (messages talk)
unfolding messages
talk-IsShort = omega arith

talk_written :
    codes "BR" ++ (codes "EZ" ++ (3 ∷ replicate 27 0)) ≡ (run (create (true ∷ [])) talk).wire
unfolding run step create connect connect_tries created send advance look write_header write
    header_data throw close
talk_written = refl

receive-run_example :
    Begins (receive 3 new_header (link (codes "BR") broken) []).0 (nonempty (messages talk))
receive-run_example =
    receive-run (true ∷ []) talk 3 new_header (codes "BR") (codes "EZ" ++ (3 ∷ replicate 27 0))
      broken talk-IsQueued talk-IsShort talk_written
