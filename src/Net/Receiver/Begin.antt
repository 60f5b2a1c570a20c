-- ===== src/Net/Receiver/Begin.antt =====
-- The receiver gets the begin of what the sender was given, wherever the connection is cut.
use bre_utils.Prelude.{
  ℕ, zero, suc, ◌<◌, ◌≤◌, ◌≡◌, refl, ap, sym, ap₂, ◌∙◌, subst, Bool, List, [], ◌∷◌, ◌++◌, All,
  Bytes, length, ltb, lt→ltb, ltb→lt, ltb→le, Bool-cases, inl, inr, length-append, append_assoc,
  arith,
}
use bre_utils.Net.Header.{
  TcpHeader, header_size, new_header, header_data, IsHeader, header_data-IsHeader,
  length-header_data, new_header-IsHeader,
}
use bre_utils.Net.Sender.{Event, messages, create, run, frames}
use bre_utils.Net.Sender.Order.{IsQueued, run-IsBegin}
use bre_utils.Net.Receiver.{
  Cut, eof, broken, Link, listens, throws, start_connect, failed, read_body, read_data, Ending,
  push, receive,
}
use bre_utils.Net.Receiver.RoundTrip.{
  nonempty, IsShort, link, read_data-header, read_data-frame, file_size-header_data, receive-round,
}

-- Where a text with a longer begin splits.
split_begin :
    (ys xs rest zs : Bytes)
    → xs ++ rest ≡ ys ++ zs
    → length ys ≤ length xs
    → (ts : Bytes) × (xs ≡ ys ++ ts) × (ts ++ rest ≡ zs)
split_begin [] xs rest zs e h = (xs, refl, e)
split_begin (y ∷ ys) [] rest zs e h = absurd (omega arith)
split_begin (y ∷ ys) (x ∷ xs) rest zs e h =
    let same : x ≡ y = cc e in
    let tails : xs ++ rest ≡ ys ++ zs = cc e in
    let (ts, front, back) = split_begin ys xs rest zs tails (omega arith) in
    (ts, ap₂ (◌∷◌) same front, back)

-- A read that fails with no other connection to come puts nothing into the queue.
failed-receive :
    (rounds : ℕ) (h k : TcpHeader) (l : Link) (cut : Cut)
    → read_data h l [] ≡ failed k cut []
    → (receive (suc rounds) h l []).0 ≡ []
unfolding failed start_connect
failed-receive rounds h k l eof e = ap (λ r. r.0) (receive-round rounds h l [] listens e)
failed-receive rounds h k l broken e = ap (λ r. r.0) (receive-round rounds h l [] throws e)

short_header :
    (h : TcpHeader) (bytes : Bytes) (cut : Cut)
    → length bytes < header_size
    → read_data h (link bytes cut) [] ≡ failed h cut []
unfolding read_data
short_header h bytes cut few = rw (lt→ltb (length bytes) 32 few) refl

short_body :
    (h : TcpHeader) (body : Bytes) (cut : Cut)
    → length body < h.file_size
    → read_body h body cut [] ≡ failed h cut []
unfolding read_body
short_body h body cut few = rw (lt→ltb (length body) h.file_size few) refl

-- One list is the begin of the other.
abbrev pub Begins : List Bytes → List Bytes → Type 0
Begins ms ns = (tail : List Bytes) × (ms ++ tail ≡ ns)

push-Begins :
    (m : Bytes) (r : List Bytes × Ending) (ms : List Bytes)
    → Begins r.0 (nonempty ms)
    → Begins (push m r).0 (nonempty (m ∷ ms))
unfolding push nonempty
push-Begins [] r ms b = b
push-Begins (c ∷ m) r ms (tail, e) = (tail, ap (◌∷◌ (c ∷ m)) e)

-- Nothing is the begin of everything.
nothing-Begins : (ms ns : List Bytes) → ms ≡ [] → Begins ms ns
nothing-Begins ms ns e = (ns, ap (λ l. l ++ ns) e)

no_rounds : (peer : TcpHeader) (l : Link) → (receive 0 peer l []).0 ≡ []
unfolding receive
no_rounds peer l = refl

header_cut :
    (rounds : ℕ) (peer : TcpHeader) (ms : List Bytes) (wire : Bytes) (cut : Cut)
    → length wire < header_size
    → Begins (receive (suc rounds) peer (link wire cut) []).0 (nonempty ms)
header_cut rounds peer ms wire cut few =
    nothing-Begins _ (nonempty ms)
      (failed-receive rounds peer peer (link wire cut) cut (short_header peer wire cut few))

body_cut :
    (rounds : ℕ) (h peer : TcpHeader) (m : Bytes) (ms : List Bytes) (body : Bytes) (cut : Cut)
    → IsHeader h
    → IsShort m
    → length body < length m
    → Begins
        (receive (suc rounds) peer (link ((header_data (length m) h).0 ++ body) cut) []).0
        (nonempty ms)
body_cut rounds h peer m ms body cut v short few =
    let (front, h') = header_data (length m) h in
    let size : h'.file_size ≡ length m = file_size-header_data (length m) h (omega arith) in
    nothing-Begins _ (nonempty ms) (
      failed-receive rounds peer h' (link (front ++ body) cut) cut (
        read_data-header h peer (length m) body cut [] v short
        ∙ short_body h' body cut (omega arith)))

receive-Begins :
    (rounds : ℕ) (h peer : TcpHeader) (ms : List Bytes) (wire rest : Bytes) (cut : Cut)
    → IsHeader h
    → All IsShort ms
    → wire ++ rest ≡ frames h ms
    → Begins (receive rounds peer (link wire cut) []).0 (nonempty ms)
unfolding frames
receive-Begins zero h peer ms wire rest cut v short e =
    nothing-Begins _ (nonempty ms) (no_rounds peer (link wire cut))
receive-Begins (suc rounds) h peer [] wire rest cut v short e =
    let n : length (wire ++ rest) ≡ 0 = ap length e in
    header_cut rounds peer [] wire cut (omega (arith, length-append wire rest))
receive-Begins (suc rounds) h peer (m ∷ ms) wire rest cut v short e =
    let (front, h') = header_data (length m) h in
    let n : length front ≡ 32 = length-header_data (length m) h v in
    elim (Bool-cases (ltb (length wire) header_size)) [
      | inl few ↦ header_cut rounds peer (m ∷ ms) wire cut (ltb→lt (length wire) header_size few)
      | inr enough ↦
          let whole = ltb→le (length wire) header_size enough in
          let (body, w, tails) = split_begin front wire rest (m ++ frames h' ms) e (omega arith) in
          subst (λ t. Begins (receive (suc rounds) peer (link t cut) []).0 (nonempty (m ∷ ms)))
            (sym w)
            (elim (Bool-cases (ltb (length body) (length m))) [
              | inl few ↦
                  body_cut rounds h peer m (m ∷ ms) body cut v short.0
                    (ltb→lt (length body) (length m) few)
              | inr fits ↦
                  let (wire', b, more) =
                    split_begin m body rest (frames h' ms) tails
                      (ltb→le (length body) (length m) fits) in
                  let read =
                    receive-round rounds peer _ [] _
                      (read_data-frame h peer m wire' cut [] v short.0) in
                  subst
                    (λ t.
                      Begins (receive (suc rounds) peer (link (front ++ t) cut) []).0
                        (nonempty (m ∷ ms)))
                    (sym b)
                    (subst (λ r. Begins r.0 (nonempty (m ∷ ms))) (sym read)
                      (push-Begins m (receive rounds h' (link wire' cut) []) ms (
                        receive-Begins rounds h' h' ms wire' rest cut
                          (header_data-IsHeader (length m) h v) short.1 more)))
            ])
    ]

-- For every interleaving of `Send`, `Close` and the sending thread, whether `Connect` succeeds and
-- whether a write throws or not, and wherever the connection is cut, cleanly or by an error: the
-- messages that the receiver has put into its queue after any number of rounds are the first of those
-- that `Send` was given, in order, the empty ones left out. Messages are shorter than 2 ^ 31 bytes, and
-- there is no `SendDirect`.
pub receive-run :
    (outcomes : List Bool) (es : List Event) (rounds : ℕ) (peer : TcpHeader) (wire rest : Bytes)
    (cut : Cut)
    → All IsQueued es
    → All IsShort (messages es)
    → wire ++ rest ≡ (run (create outcomes) es).wire
    → Begins (receive rounds peer (link wire cut) []).0 (nonempty (messages es))
receive-run outcomes es rounds peer wire rest cut queued short e =
    let (owed, f) = run-IsBegin outcomes es queued in
    receive-Begins rounds new_header peer (messages es) wire (rest ++ owed) cut new_header-IsHeader
      short (sym (append_assoc wire rest owed) ∙ ap (λ t. t ++ owed) e ∙ f)
