-- ===== src/Net/Session/Arrivals.antt =====
-- Each turn of the reading thread at the header keeps the session's log.
use bre_utils.Prelude.{
  ℕ, ◌≡◌, refl, ap, sym, ◌∙◌, Bool, true, false, Option, none, some, List, [], ◌∷◌, ◌++◌,
  All-append, append-nil, Bytes, length, starts_with, Bool-cases, inl, inr, arith,
}
use bre_utils.Net.Header.{TcpHeader, header_size, magic, new_header, parse}
use bre_utils.Net.Session
use bre_utils.Net.Session.{IsEvent, written, sent, read_stream, closed, Reading}
use bre_utils.Net.Session.Writer.{
  Place, testing, ended, holding, sized, copied, headed, TcpSession, parse_size, store_data,
  receives, stores, step,
}
use bre_utils.Net.Session.Log.{
  header_after, sent-append, held, header_at, HasSize, IsParsed, sizing, returning, Valid,
  written-one, header-one,
}

parse-marked :
    (bytes : Bytes) (h : TcpHeader)
    → length bytes ≡ header_size
    → (parse bytes h).0 ≡ true
    → starts_with magic bytes ≡ true
unfolding parse
parse-marked bytes h full e = elim (Bool-cases (starts_with magic bytes)) [
  | inl marked ↦ marked
  | inr other ↦ absurd (ground (arith, full, other, e))
]

parse-content :
    (bytes : Bytes) (h : TcpHeader)
    → length bytes ≡ header_size
    → starts_with magic bytes ≡ true
    → (parse bytes h).1.content ≡ bytes
unfolding parse
parse-content bytes h full marked = rw (full, marked) refl

HasSize-other : (n : ℕ) (p : Place) → sizing p ≡ false → HasSize n p
unfolding HasSize
HasSize-other n (sized m) e = cc
HasSize-other n (holding m) e = tt
HasSize-other n (copied m) e = tt
HasSize-other n (headed m) e = tt
HasSize-other n testing e = tt
HasSize-other n ended e = tt

header_at-other : (p : Place) (h : TcpHeader) → returning p ≡ false → header_at p h ≡ h
unfolding header_at
header_at-other (copied m) h e = cc
header_at-other (sized m) h e = refl
header_at-other (holding m) h e = refl
header_at-other (headed m) h e = refl
header_at-other testing h e = refl
header_at-other ended h e = refl

begun_parse :
    (ms : List Bytes) (s : TcpSession) (bytes : Bytes) (r : Bool × TcpHeader)
    → sizing s.place ≡ false
    → length bytes ≡ header_size
    → (r.0 ≡ true → starts_with magic bytes ≡ true)
    → Valid ms s
    → Valid ms (parse_size r bytes s)
unfolding parse_size IsParsed
begun_parse ms s bytes (false, h) apart full marked v = v
begun_parse ms s bytes (true, h) apart full marked v =
    let o = v.owes in
    record {
      owes = record {
        log = o.log;
        fits = o.fits;
        bytes = o.bytes;
        last = o.last;
        size = HasSize-other h.file_size s.place apart;
        parsed = (full, marked refl);
        order = o.order;
      };
      short = v.short;
    }

pub receive-Valid :
    (ms : List Bytes) (s : TcpSession) (bytes : Bytes)
    → sizing s.place ≡ false
    → length bytes ≡ header_size
    → Valid ms s
    → Valid ms (step s (receives bytes))
unfolding step
receive-Valid ms s bytes apart full v =
    begun_parse ms s bytes (parse bytes s.header) apart full (parse-marked bytes s.header full) v

stored-Valid :
    (ms : List Bytes) (s : TcpSession) (o : Option Bytes)
    → IsParsed o
    → returning s.place ≡ false
    → Valid ms s
    → Valid ms (store_data o s)
unfolding store_data IsParsed written sent header_after
stored-Valid ms s none parsed apart v = v
stored-Valid ms s (some bytes) parsed apart v =
    let o = v.owes in
    let log = o.log ++ Session.receives bytes ∷ [] in
    let known = header_after new_header o.log in
    record {
      owes = record {
        log = log;
        fits = All-append IsEvent o.log (Session.receives bytes ∷ []) o.fits (parsed.0, tt);
        bytes =
            o.bytes
            ∙ sym (append-nil (written new_header o.log))
            ∙ sym (written-one o.log (Session.receives bytes));
        last =
            sym (parse-content bytes known parsed.0 parsed.1)
            ∙ ap (λ h. h.content) (sym (header-one o.log (Session.receives bytes)))
            ∙ ap (λ h. h.content)
                (sym (header_at-other s.place (header_after new_header log) apart));
        size = o.size;
        parsed = tt;
        order =
            ap (λ l. l ++ (held s.place ++ s.queue_send.queue))
              (sent-append o.log (Session.receives bytes ∷ []) ∙ append-nil (sent o.log))
            ∙ o.order;
      };
      short = v.short;
    }

pub store-Valid :
    (ms : List Bytes) (s : TcpSession)
    → returning s.place ≡ false
    → Valid ms s
    → Valid ms (step s stores)
unfolding step
store-Valid ms s apart v = stored-Valid ms s s.parsing v.owes.parsed apart v
