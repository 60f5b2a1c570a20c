-- ===== src/Net/Sender/Tests.antt =====
-- Runs of `TCPSender`, and the theorems at inputs that meet their hypotheses.
use bre_utils.Prelude.{
  ◌≡◌, ◌++◌, refl, true, false, List, [], ◌∷◌, codes, replicate, arith, length, All, ◌*◌, ◌+◌, ◌≤◌,
}
use bre_utils.Net.Header.{new_header, header_data}
use bre_utils.Net.Sender.{
  Event, sends, runs, closes, constructs, direct_header, direct_body, connect_tries, connect,
  create, created, send, write_header, write, look, advance, close, step, run, messages, frames,
}
use bre_utils.Net.Sender.Drain.{Drained, IsOpen, run-Drained}

third_try : connect (false ∷ false ∷ true ∷ []) ≡ true
unfolding connect connect_tries
third_try = refl

-- The thread looks before the constructor has ended, and ends; what is sent is never written.
thread_too_early :
    (run
      (create (true ∷ []))
      (runs ∷ constructs ∷ sends (codes "a") ∷ runs ∷ closes ∷ runs ∷ [])).wire
    ≡ []
unfolding run step create connect connect_tries created send advance look close
thread_too_early = refl

-- A direct message between the header and the bytes of another.
direct_between :
    (run (created (create (true ∷ []))) (
      sends (codes "abc")
      ∷ runs
      ∷ runs
      ∷ direct_header 1
      ∷ direct_body (codes "z")
      ∷ runs
      ∷ [])).wire
    ≡ ((codes "BREZ" ++ (3 ∷ replicate 27 0)) ++ (codes "BREZ" ++ (1 ∷ replicate 27 0)))
      ++ codes "zabc"
unfolding run step create connect connect_tries created send advance look write_header write
    header_data
direct_between = refl

abbrev talk : List Event
talk = sends (codes "abc") ∷ runs ∷ sends [] ∷ runs ∷ sends (codes "d") ∷ runs ∷ []

second_try : connect (false ∷ true ∷ []) ≡ true
unfolding connect connect_tries
second_try = refl

talk-IsOpen : All IsOpen talk
talk-IsOpen = (tt, (tt, (tt, (tt, (tt, (tt, tt))))))

talk_turns : 3 * length (messages talk) + 3 ≤ 12
unfolding messages
talk_turns = omega arith

run-Drained_example :
    Drained
      (run (created (create (false ∷ true ∷ []))) (talk ++ closes ∷ replicate 12 runs))
      (frames new_header (messages talk))
run-Drained_example = run-Drained (false ∷ true ∷ []) talk 12 second_try talk-IsOpen talk_turns
