-- ===== src/Net/Sender/Order.antt =====
-- What the sender writes is what `Send` was given, in order.
use bre_utils.Prelude.{
  ◌≡◌, refl, ap, sym, subst, ◌⊎◌, inl, inr, ◌∙◌, Bool, List, [], ◌∷◌, ◌++◌, append_assoc,
  append-nil, Bytes, All,
}
use bre_utils.Net.Header.{TcpHeader, new_header}
use bre_utils.Net.Sender.{
  Place, unstarted, waiting, ended, holding, headed, Sender, create, send, created, close, advance,
  throw, Event, sends, direct, direct_body, direct_header, constructs, runs, throws, closes, step,
  run, messages, frames,
}
use bre_utils.Net.Sender.Frames.{
  unwritten, after_frames, frames-append, Owes, send-Owes, advance-Owes, create-Owes,
}

-- No `SendDirect`.
abbrev pub IsQueued : Event → Type 0
IsQueued (sends m) = Unit
IsQueued runs = Unit
IsQueued closes = Unit
IsQueued throws = Unit
IsQueued constructs = Unit
IsQueued _ = ⊥

-- The thread has ended by an exception, in the middle of the messages.
record Torn (h : TcpHeader) (ms : List Bytes) (s : Sender) : Type 0 where
  over : s.place ≡ ended
  rest : Bytes
  cut : s.wire ++ rest ≡ frames h ms

still : {h : TcpHeader} {ms : List Bytes} {s : Sender} → Torn h ms s → Torn h ms (advance ended s)
unfolding advance
still t = t

thrown : {h : TcpHeader} {ms : List Bytes} {s : Sender} → Torn h ms s → Torn h ms (throw ended s)
unfolding throw
thrown t = t

throw-Owes :
    (h : TcpHeader) (ms : List Bytes) (p : Place) (s : Sender)
    → s.place ≡ p
    → Owes h ms s
    → Owes h ms (throw p s) ⊎ Torn h ms (throw p s)
unfolding throw
throw-Owes h ms unstarted s e o = inl o
throw-Owes h ms waiting s e o = inl o
throw-Owes h ms ended s e o = inl o
throw-Owes h ms (holding m) s e o = inr (record { over = refl; rest = unwritten s; cut = o.bytes })
throw-Owes h ms (headed m) s e o = inr (record { over = refl; rest = unwritten s; cut = o.bytes })

-- What is on the wire is the begin of the frames of the messages.
abbrev pub IsBegin : Bytes → TcpHeader → List Bytes → Type 0
IsBegin wire h ms = (rest : Bytes) × (wire ++ rest ≡ frames h ms)

push_back : (ms ns : List Bytes) (m : Bytes) → (ms ++ m ∷ []) ++ ns ≡ ms ++ m ∷ ns
push_back ms ns m = append_assoc ms (m ∷ []) ns

run-Torn :
    (h : TcpHeader) (ms : List Bytes) (s : Sender) (es : List Event)
    → All IsQueued es
    → Torn h ms s
    → IsBegin (run s es).wire h (ms ++ messages es)
unfolding run step send created close messages
run-Torn h ms s [] i t = (t.rest, t.cut ∙ ap (frames h) (sym (append-nil ms)))
run-Torn h ms s (sends m ∷ es) i t =
    subst (λ ns. IsBegin (run (send m s) es).wire h ns) (push_back ms (messages es) m)
      (run-Torn h (ms ++ m ∷ []) (send m s) es i.1 (record {
        over = t.over;
        rest = t.rest ++ frames (after_frames h ms) (m ∷ []);
        cut =
            sym (append_assoc s.wire t.rest (frames (after_frames h ms) (m ∷ [])))
            ∙ ap (◌++ frames (after_frames h ms) (m ∷ [])) t.cut
            ∙ sym (frames-append h ms (m ∷ []));
      }))
run-Torn h ms s (closes ∷ es) i t =
    run-Torn h ms (close s) es i.1 (record { over = t.over; rest = t.rest; cut = t.cut })
run-Torn h ms s (constructs ∷ es) i t =
    run-Torn h ms (created s) es i.1 (record { over = t.over; rest = t.rest; cut = t.cut })
run-Torn h ms s (runs ∷ es) i t =
    run-Torn h ms (step s runs) es i.1 (subst (λ p. Torn h ms (advance p s)) (sym t.over) (still t))
run-Torn h ms s (throws ∷ es) i t =
    run-Torn h ms (step s throws) es i.1
      (subst (λ p. Torn h ms (throw p s)) (sym t.over) (thrown t))
run-Torn h ms s (direct m ∷ es) i t = elim i.0 [ ]
run-Torn h ms s (direct_body m ∷ es) i t = elim i.0 [ ]
run-Torn h ms s (direct_header n ∷ es) i t = elim i.0 [ ]

run-Owes :
    (h : TcpHeader) (ms : List Bytes) (s : Sender) (es : List Event)
    → All IsQueued es
    → Owes h ms s
    → IsBegin (run s es).wire h (ms ++ messages es)
unfolding run step created close messages
run-Owes h ms s [] i o = (unwritten s, o.bytes ∙ ap (frames h) (sym (append-nil ms)))
run-Owes h ms s (sends m ∷ es) i o =
    subst (λ ns. IsBegin (run (send m s) es).wire h ns) (push_back ms (messages es) m)
      (run-Owes h (ms ++ m ∷ []) (send m s) es i.1 (send-Owes h ms s m o))
run-Owes h ms s (closes ∷ es) i o =
    run-Owes h ms (close s) es i.1 (record { bytes = o.bytes; last = o.last })
run-Owes h ms s (constructs ∷ es) i o =
    run-Owes h ms (created s) es i.1 (record { bytes = o.bytes; last = o.last })
run-Owes h ms s (runs ∷ es) i o = run-Owes h ms (step s runs) es i.1 (advance-Owes h ms s o)
run-Owes h ms s (throws ∷ es) i o = elim (throw-Owes h ms s.place s refl o) [
  | inl going ↦ run-Owes h ms (throw s.place s) es i.1 going
  | inr torn ↦ run-Torn h ms (throw s.place s) es i.1 torn
]
run-Owes h ms s (direct m ∷ es) i o = elim i.0 [ ]
run-Owes h ms s (direct_body m ∷ es) i o = elim i.0 [ ]
run-Owes h ms s (direct_header n ∷ es) i o = elim i.0 [ ]

-- For every interleaving of `Send`, `Close`, the end of the constructor and the thread, whether
-- `Connect` succeeded or not and whether a write throws or not, without `SendDirect`: what has been
-- written is the begin of the messages that `Send` was given, in order, each behind its header.
pub run-IsBegin :
    (outcomes : List Bool) (es : List Event)
    → All IsQueued es
    → IsBegin (run (create outcomes) es).wire new_header (messages es)
run-IsBegin outcomes es i = run-Owes new_header [] (create outcomes) es i (create-Owes outcomes)
