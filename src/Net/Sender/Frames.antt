-- ===== src/Net/Sender/Frames.antt =====
-- What the sender has written and what it still owes are the messages so far.
use bre_utils.Prelude.{
  ◌≡◌, refl, ap, sym, ◌∙◌, Bool, true, false, List, [], ◌∷◌, ◌++◌, append_assoc, Bytes, length,
  if◌then◌else◌,
}
use bre_utils.Net.Header.{TcpHeader, new_header, header_data}
use bre_utils.Net.Sender.{
  Place, unstarted, waiting, ended, holding, headed, Sender, connect, create, send, write_header,
  write, look, advance, frames,
}

-- What is still to be written.
unfoldable pub unwritten_at : Place → TcpHeader → List Bytes → Bytes
unwritten_at (holding m) h ms = frames h (m ∷ ms)
unwritten_at (headed m) h ms = m ++ frames h ms
unwritten_at _ h ms = frames h ms

abbrev pub unwritten : Sender → Bytes
unwritten s = unwritten_at s.place s.header s.queue

-- All that is written, and all that is to be written.
abbrev pub total : Sender → Bytes
total s = s.wire ++ unwritten s

-- The header when the messages have been written.
unfoldable pub after_frames : TcpHeader → List Bytes → TcpHeader
after_frames h [] = h
after_frames h (m ∷ ms) = after_frames (header_data (length m) h).1 ms

pub frames-append :
    (h : TcpHeader) (ms ns : List Bytes)
    → frames h (ms ++ ns) ≡ frames h ms ++ frames (after_frames h ms) ns
unfolding frames after_frames
frames-append h [] ns = refl
frames-append h (m ∷ ms) ns =
    let (front, h') = header_data (length m) h in
    ap (λ t. front ++ (m ++ t)) (frames-append h' ms ns)
    ∙ ap (◌++◌ front) (sym (append_assoc m (frames h' ms) (frames (after_frames h' ms) ns)))
    ∙ sym (append_assoc front (m ++ frames h' ms) (frames (after_frames h' ms) ns))

pub after_frames-append :
    (h : TcpHeader) (ms ns : List Bytes)
    → after_frames h (ms ++ ns) ≡ after_frames (after_frames h ms) ns
unfolding after_frames
after_frames-append h [] ns = refl
after_frames-append h (m ∷ ms) ns = after_frames-append (header_data (length m) h).1 ms ns

-- The header when everything has been written.
unfoldable pub last_at : Place → TcpHeader → List Bytes → TcpHeader
last_at (holding m) h ms = after_frames h (m ∷ ms)
last_at _ h ms = after_frames h ms

-- The messages so far: written, or still to be written.
pub record Owes (h : TcpHeader) (ms : List Bytes) (s : Sender) : Type 0 where
  pub bytes : total s ≡ frames h ms
  pub last : last_at s.place s.header s.queue ≡ after_frames h ms

-- What a turn leaves as it is.
abbrev Kept : Sender → Sender → Type 0
Kept t s =
    (total t ≡ total s) × (last_at t.place t.header t.queue ≡ last_at s.place s.header s.queue)

advance-Kept :
    (p : Place) (q : List Bytes) (h : TcpHeader) (c : Bool) (w : Bytes)
    → let s : Sender = record { is_closed = c; queue = q; header = h; place = p; wire = w } in
      Kept (advance p s) s
unfolding advance unwritten_at write write_header frames look last_at after_frames
advance-Kept unstarted q h c w = (refl, refl)
advance-Kept ended q h c w = (refl, refl)
advance-Kept waiting [] h true w = (refl, refl)
advance-Kept waiting [] h false w = (refl, refl)
advance-Kept waiting (m ∷ q) h c w = (refl, refl)
advance-Kept (holding m) q h c w =
    let (front, h') = header_data (length m) h in (append_assoc w front (m ++ frames h' q), refl)
advance-Kept (headed m) q h c w = (append_assoc w m (frames h q), refl)

sent_last :
    (p : Place) (h : TcpHeader) (q : List Bytes) (m : Bytes)
    → (unwritten_at p h (q ++ m ∷ []) ≡ unwritten_at p h q ++ frames (last_at p h q) (m ∷ []))
      × (last_at p h (q ++ m ∷ []) ≡ after_frames (last_at p h q) (m ∷ []))
unfolding unwritten_at last_at
sent_last unstarted h q m = (frames-append h q (m ∷ []), after_frames-append h q (m ∷ []))
sent_last waiting h q m = (frames-append h q (m ∷ []), after_frames-append h q (m ∷ []))
sent_last ended h q m = (frames-append h q (m ∷ []), after_frames-append h q (m ∷ []))
sent_last (holding n) h q m =
    (frames-append h (n ∷ q) (m ∷ []), after_frames-append h (n ∷ q) (m ∷ []))
sent_last (headed n) h q m = (
  ap (◌++◌ n) (frames-append h q (m ∷ []))
      ∙ sym (append_assoc n (frames h q) (frames (after_frames h q) (m ∷ []))),
  after_frames-append h q (m ∷ []),
)

pub send-Owes :
    (h : TcpHeader) (ms : List Bytes) (s : Sender) (m : Bytes)
    → Owes h ms s
    → Owes h (ms ++ m ∷ []) (send m s)
unfolding send
send-Owes h ms s m o =
    let (more, after) = sent_last s.place s.header s.queue m in
    record {
      bytes =
          ap (◌++◌ s.wire) more
          ∙ sym (
              append_assoc s.wire (unwritten s)
                (frames (last_at s.place s.header s.queue) (m ∷ [])))
          ∙ ap (◌++ frames (last_at s.place s.header s.queue) (m ∷ [])) o.bytes
          ∙ ap (λ k. frames h ms ++ frames k (m ∷ [])) o.last
          ∙ sym (frames-append h ms (m ∷ []));
      last =
          after
          ∙ ap (λ k. after_frames k (m ∷ [])) o.last
          ∙ sym (after_frames-append h ms (m ∷ []));
    }

pub advance-Owes :
    (h : TcpHeader) (ms : List Bytes) (s : Sender) → Owes h ms s → Owes h ms (advance s.place s)
advance-Owes h ms s o =
    let (same, after) = advance-Kept s.place s.queue s.header s.is_closed s.wire in
    record { bytes = same ∙ o.bytes; last = after ∙ o.last }

begun :
    (connected : Bool)
    → Owes new_header [] (record {
      is_closed = true;
      queue = [];
      header = new_header;
      place = if connected then waiting else unstarted;
      wire = [];
    })
unfolding frames after_frames unwritten_at last_at
begun true = record { bytes = refl; last = refl }
begun false = record { bytes = refl; last = refl }

pub create-Owes : (outcomes : List Bool) → Owes new_header [] (create outcomes)
unfolding create
create-Owes outcomes = begun (connect outcomes)
