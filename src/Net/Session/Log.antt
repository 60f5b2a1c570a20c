-- ===== src/Net/Session/Log.antt =====
-- What a session has written, as a log of the messages sent and the headers that arrived.
use bre_utils.Prelude.{
  ℕ, ◌<◌, ◌%◌, ◌^◌, ◌≡◌, Bool, true, false, Option, none, some, starts_with, refl, ap, sym, ◌∙◌,
  List, [], ◌∷◌, ◌++◌, All, append_assoc, Bytes, length,
}
use bre_utils.Net.Header.{TcpHeader, header_size, magic, new_header, header_data, parse}
use bre_utils.Net.Session
use bre_utils.Net.Session.{IsEvent, written, sent, read_stream, closed, Reading}
use bre_utils.Net.Session.Writer.{
  Place, holding, sized, copied, headed, TcpSession, Event, sends, receives, stores, runs, stops,
  throws, step,
}

unfoldable pub header_after : TcpHeader → List Session.Event → TcpHeader
header_after h [] = h
header_after h (Session.sends m ∷ es) = header_after (header_data (length m) h).1 es
header_after h (Session.receives bytes ∷ es) = header_after (parse bytes h).1 es

written-append :
    (h : TcpHeader) (es fs : List Session.Event)
    → written h (es ++ fs) ≡ written h es ++ written (header_after h es) fs
unfolding written header_after
written-append h [] fs = refl
written-append h (Session.sends m ∷ es) fs =
    let (front, h') = header_data (length m) h in
    let out = written (header_after h' es) fs in
    ap (λ t. front ++ (m ++ t)) (written-append h' es fs)
    ∙ ap (◌++◌ front) (sym (append_assoc m (written h' es) out))
    ∙ sym (append_assoc front (m ++ written h' es) out)
written-append h (Session.receives bytes ∷ es) fs = written-append (parse bytes h).1 es fs

header_after-append :
    (h : TcpHeader) (es fs : List Session.Event)
    → header_after h (es ++ fs) ≡ header_after (header_after h es) fs
unfolding header_after
header_after-append h [] fs = refl
header_after-append h (Session.sends m ∷ es) fs =
    header_after-append (header_data (length m) h).1 es fs
header_after-append h (Session.receives bytes ∷ es) fs = header_after-append (parse bytes h).1 es fs

pub sent-append : (es fs : List Session.Event) → sent (es ++ fs) ≡ sent es ++ sent fs
unfolding sent
sent-append [] fs = refl
sent-append (Session.sends m ∷ es) fs = ap (◌∷◌ m) (sent-append es fs)
sent-append (Session.receives bytes ∷ es) fs = sent-append es fs

-- The message that the thread holds, and the bytes that it owes.
unfoldable pub held : Place → List Bytes
held (holding m) = m ∷ []
held (sized m) = m ∷ []
held (copied m) = m ∷ []
held _ = []

unfoldable pub owed : Place → Bytes
owed (headed m) = m
owed _ = []

-- The header as the place of the thread leaves it.
unfoldable pub header_at : Place → TcpHeader → TcpHeader
header_at (copied m) h = (header_data (length m) h).1
header_at _ h = h

-- In `GetHeaderData` the size has the value that it was set to.
unfoldable pub HasSize : ℕ → Place → Type 0
HasSize n (sized m) = n ≡ length m % 2 ^ 32
HasSize n _ = Unit

-- `Parse` stores only what it has accepted.
unfoldable pub IsParsed : Option Bytes → Type 0
IsParsed none = Unit
IsParsed (some bytes) = (length bytes ≡ header_size) × (starts_with magic bytes ≡ true)

-- The session has written what the log says, and has the other messages still. The size in the header is
-- anything, but where it was just set.
pub record Owes (ms : List Bytes) (s : TcpSession) : Type 0 where
  pub log : List Session.Event
  pub fits : All IsEvent log
  pub bytes : s.wire ++ owed s.place ≡ written new_header log
  pub last : s.header.content ≡ (header_at s.place (header_after new_header log)).content
  pub size : HasSize s.header.file_size s.place
  pub parsed : IsParsed s.parsing
  pub order : sent log ++ (held s.place ++ s.queue_send.queue) ≡ ms

abbrev pub IsShort : Bytes → Type 0
IsShort m = length m < 2 ^ 31

-- A message whose size is an `int`, a header's block or its storing, a turn or `Stop`; no write throws.
abbrev pub IsFine : Event → Type 0
IsFine (sends m) = IsShort m
IsFine (receives bytes) = length bytes ≡ header_size
IsFine runs = Unit
IsFine stops = Unit
IsFine stores = Unit
IsFine throws = ⊥

-- Whether the thread is between `FileSize = size` and the `memcpy`, and between that and the return of
-- the header.
abbrev pub sizing : Place → Bool
sizing (sized m) = true
sizing _ = false

abbrev pub returning : Place → Bool
returning (copied m) = true
returning _ = false

-- `Parse` does not write the size in the first of these two gaps, nor the data in the second.
abbrev pub IsApart : TcpSession → Event → Type 0
IsApart s (receives bytes) = sizing s.place ≡ false
IsApart s stores = returning s.place ≡ false
IsApart s _ = Unit

unfoldable pub AllApart : TcpSession → List Event → Type 0
AllApart s [] = Unit
AllApart s (e ∷ es) = IsApart s e × AllApart (step s e) es

-- The session and the messages so far, those that it still has being short.
pub record Valid (ms : List Bytes) (s : TcpSession) : Type 0 where
  pub owes : Owes ms s
  pub short : All IsShort (held s.place ++ s.queue_send.queue)

module _ (log : List Session.Event) where
  -- The log with one event more.
  pub written-one :
      (e : Session.Event)
      → written new_header (log ++ e ∷ [])
        ≡ written new_header log ++ written (header_after new_header log) (e ∷ [])
  written-one e = written-append new_header log (e ∷ [])

  pub header-one :
      (e : Session.Event)
      → header_after new_header (log ++ e ∷ [])
        ≡ header_after (header_after new_header log) (e ∷ [])
  header-one e = header_after-append new_header log (e ∷ [])
