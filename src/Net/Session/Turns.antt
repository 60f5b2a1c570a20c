-- ===== src/Net/Session/Turns.antt =====
-- Each turn of the writing thread keeps the session's log.
use bre_utils.Prelude.{
  ℕ, ◌%◌, ◌^◌, ◌≡◌, refl, ap, ap₂, sym, ◌∙◌, subst, Bool, true, false, List, [], ◌∷◌, ◌++◌, All,
  All-append, append_assoc, append-nil, Bytes, length, take, drop, if◌then◌else◌,
}
use bre_utils.BlockQueue.{BlockQueue, pop, take_front}
use bre_utils.Net.Header.{TcpHeader, new_header, header_data, to_bytes}
use bre_utils.Net.Session
use bre_utils.Net.Session.{IsEvent, written, sent, read_stream, closed, Reading}
use bre_utils.Net.Session.Writer.{
  Place, testing, ended, holding, sized, copied, headed, TcpSession, popped_front, set_size,
  copy_size, write_header, advance,
}
use bre_utils.Net.Session.Log.{
  header_after, sent-append, held, owed, header_at, HasSize, IsShort, Valid, written-one,
  header-one,
}

-- The thread sets the size.
size-Valid :
    (ms : List Bytes) (s : TcpSession) (m : Bytes)
    → s.place ≡ holding m
    → Valid ms s
    → Valid ms (record s { header = set_size (length m) s.header; place = sized m })
unfolding set_size held owed header_at HasSize
size-Valid ms s m at v =
    let o = v.owes in
    let queue = s.queue_send.queue in
    record {
      owes = record {
        log = o.log;
        fits = o.fits;
        bytes = ap (λ p. s.wire ++ owed p) (sym at) ∙ o.bytes;
        last = o.last ∙ ap (λ p. (header_at p (header_after new_header o.log)).content) at;
        size = refl;
        parsed = o.parsed;
        order = ap (λ p. sent o.log ++ (held p ++ queue)) (sym at) ∙ o.order;
      };
      short = subst (λ p. All IsShort (held p ++ queue)) at v.short;
    }

-- It copies the size into the data.
copy-Valid :
    (ms : List Bytes) (s : TcpSession) (m : Bytes)
    → s.place ≡ sized m
    → Valid ms s
    → Valid ms (record s { header = copy_size s.header; place = copied m })
unfolding copy_size held owed header_at HasSize header_data
copy-Valid ms s m at v =
    let o = v.owes in
    let queue = s.queue_send.queue in
    let size : s.header.file_size ≡ length m % 2 ^ 32 =
      subst (HasSize s.header.file_size) at o.size in
    let last : s.header.content ≡ (header_after new_header o.log).content =
      o.last ∙ ap (λ p. (header_at p (header_after new_header o.log)).content) at in
    record {
      owes = record {
        log = o.log;
        fits = o.fits;
        bytes = ap (λ p. s.wire ++ owed p) (sym at) ∙ o.bytes;
        last = ap₂ (λ c n. take 4 c ++ (to_bytes 4 n ++ drop 8 c)) last size;
        size = tt;
        parsed = o.parsed;
        order = ap (λ p. sent o.log ++ (held p ++ queue)) (sym at) ∙ o.order;
      };
      short = subst (λ p. All IsShort (held p ++ queue)) at v.short;
    }

-- It writes the header: the message goes into the log.
header-Valid :
    (ms : List Bytes) (s : TcpSession) (m : Bytes)
    → s.place ≡ copied m
    → Valid ms s
    → Valid ms (write_header m s)
unfolding write_header written sent header_after held owed header_at HasSize header_data
header-Valid ms s m at v =
    let o = v.owes in
    let queue = s.queue_send.queue in
    let known = header_after new_header o.log in
    let nothing : s.wire ≡ written new_header o.log =
      sym (append-nil s.wire) ∙ ap (λ p. s.wire ++ owed p) (sym at) ∙ o.bytes in
    let last : s.header.content ≡ (header_data (length m) known).1.content =
      o.last ∙ ap (λ p. (header_at p known).content) at in
    let fits : IsShort m × All IsShort queue =
      subst (λ p. All IsShort (held p ++ queue)) at v.short in
    record {
      owes = record {
        log = o.log ++ Session.sends m ∷ [];
        fits = All-append IsEvent o.log (Session.sends m ∷ []) o.fits (fits.0, tt);
        bytes =
            append_assoc s.wire s.header.content m
            ∙ ap (λ w. w ++ (s.header.content ++ m)) nothing
            ∙ ap₂ (λ c t. written new_header o.log ++ (c ++ t)) last (sym (append-nil m))
            ∙ sym (written-one o.log (Session.sends m));
        last = last ∙ ap (λ h. h.content) (sym (header-one o.log (Session.sends m)));
        size = tt;
        parsed = o.parsed;
        order =
            ap (λ l. l ++ queue) (sent-append o.log (Session.sends m ∷ []))
            ∙ append_assoc (sent o.log) (m ∷ []) queue
            ∙ ap (λ p. sent o.log ++ (held p ++ queue)) (sym at)
            ∙ o.order;
      };
      short = fits.1;
    }

body-Valid :
    (ms : List Bytes) (s : TcpSession) (m : Bytes)
    → s.place ≡ headed m
    → Valid ms s
    → Valid ms (record s { place = testing; wire = s.wire ++ m })
unfolding held owed header_at HasSize
body-Valid ms s m at v =
    let o = v.owes in
    let queue = s.queue_send.queue in
    record {
      owes = record {
        log = o.log;
        fits = o.fits;
        bytes = append-nil (s.wire ++ m) ∙ ap (λ p. s.wire ++ owed p) (sym at) ∙ o.bytes;
        last = o.last ∙ ap (λ p. (header_at p (header_after new_header o.log)).content) at;
        size = tt;
        parsed = o.parsed;
        order = ap (λ p. sent o.log ++ (held p ++ queue)) (sym at) ∙ o.order;
      };
      short = subst (λ p. All IsShort (held p ++ queue)) at v.short;
    }

-- The thread leaves the test with these messages before it.
left-Valid :
    (ms : List Bytes) (s : TcpSession) (p : Place) (q : BlockQueue Bytes)
    → s.place ≡ testing
    → owed p ≡ []
    → held p ++ q.queue ≡ s.queue_send.queue
    → ((n : ℕ) → HasSize n p)
    → ((h : TcpHeader) → header_at p h ≡ h)
    → Valid ms s
    → Valid ms (record s { queue_send = q; place = p })
unfolding held owed header_at HasSize
left-Valid ms s p q at nothing same size idle v =
    let o = v.owes in
    let queue = s.queue_send.queue in
    let known = header_after new_header o.log in
    record {
      owes = record {
        log = o.log;
        fits = o.fits;
        bytes = ap (λ t. s.wire ++ t) nothing ∙ ap (λ r. s.wire ++ owed r) (sym at) ∙ o.bytes;
        last =
            o.last
            ∙ ap (λ r. (header_at r known).content) at
            ∙ ap (λ h. h.content) (sym (idle known));
        size = size s.header.file_size;
        parsed = o.parsed;
        order =
            ap (λ l. sent o.log ++ l) same
            ∙ ap (λ r. sent o.log ++ (held r ++ queue)) (sym at)
            ∙ o.order;
      };
      short =
          subst (All IsShort) (sym same) (subst (λ r. All IsShort (held r ++ queue)) at v.short);
    }

pop-Valid :
    (ms : List Bytes) (s : TcpSession) (queue : List Bytes)
    → s.place ≡ testing
    → s.queue_send.queue ≡ queue
    → Valid ms s
    → Valid ms (popped_front (take_front s.queue_send queue) s)
unfolding popped_front take_front held owed header_at HasSize
pop-Valid ms s [] at e v = v
pop-Valid ms s (m ∷ queue) at e v =
    left-Valid ms s (holding m) (record s.queue_send { queue = queue }) at refl (sym e) (λ n. tt)
      (λ h. refl) v

test-Valid :
    (ms : List Bytes) (s : TcpSession) (stopped : Bool)
    → s.place ≡ testing
    → Valid ms s
    → Valid ms (if stopped then record s { place = ended } else popped_front (pop s.queue_send) s)
unfolding pop held owed header_at HasSize
test-Valid ms s true at v = left-Valid ms s ended s.queue_send at refl refl (λ n. tt) (λ h. refl) v
test-Valid ms s false at v = pop-Valid ms s s.queue_send.queue at refl v

pub advance-Valid :
    (ms : List Bytes) (s : TcpSession) (p : Place)
    → s.place ≡ p
    → Valid ms s
    → Valid ms (advance p s)
unfolding advance
advance-Valid ms s testing at v = test-Valid ms s s.is_closed at v
advance-Valid ms s (holding m) at v = size-Valid ms s m at v
advance-Valid ms s (sized m) at v = copy-Valid ms s m at v
advance-Valid ms s (copied m) at v = header-Valid ms s m at v
advance-Valid ms s (headed m) at v = body-Valid ms s m at v
advance-Valid ms s ended at v = v
