-- ===== src/Net/Session/Order.antt =====
-- What the peer of a session reads is the begin of what the session was given.
use bre_utils.Prelude.{
  ℕ, ◌≡◌, refl, ap, sym, ◌∙◌, subst, Bool, true, false, List, [], ◌∷◌, ◌++◌, All, All-append,
  append_assoc, append-nil, Bytes, length, leb, if◌then◌else◌,
}
use bre_utils.BlockQueue.{BlockQueue, Turn, pushed, waits, new_queue, push}
use bre_utils.Net.Header.{TcpHeader, new_header, new_header-IsHeader}
use bre_utils.Net.Session.{written, sent, read_stream, closed}
use bre_utils.Net.Session.RoundTrip.{read_stream-written}
use bre_utils.Net.Session.Writer.{
  TcpSession, start, send, stop, advance, Event, sends, receives, stores, runs, stops, throws, step,
  run, taken, accepted,
}
use bre_utils.Net.Session.Log.{
  header_after, held, owed, header_at, HasSize, IsParsed, IsShort, IsFine, AllApart, Valid,
}
use bre_utils.Net.Session.Turns.{advance-Valid}
use bre_utils.Net.Session.Arrivals.{receive-Valid, store-Valid}

-- A turn of `Push`, by whether the queue is full.
abbrev push_turn : Bool → Bytes → BlockQueue Bytes → Turn Bytes × BlockQueue Bytes
push_turn full m q = if full then (waits, q) else (pushed, record q { queue = q.queue ++ m ∷ [] })

-- A message that the queue takes, or a full queue.
pushed-Valid :
    (ms : List Bytes) (s : TcpSession) (m : Bytes) (full : Bool)
    → IsShort m
    → Valid ms s
    → Valid
        (ms ++ (if full then [] else m ∷ []))
        (record s { queue_send = (push_turn full m s.queue_send).1 })
pushed-Valid ms s m true fits v = subst (λ l. Valid l s) (sym (append-nil ms)) v
pushed-Valid ms s m false fits v =
    let o = v.owes in
    let queue = s.queue_send.queue in
    let more : held s.place ++ (queue ++ m ∷ []) ≡ (held s.place ++ queue) ++ m ∷ [] =
      sym (append_assoc (held s.place) queue (m ∷ [])) in
    record {
      owes = record {
        log = o.log;
        fits = o.fits;
        bytes = o.bytes;
        last = o.last;
        size = o.size;
        parsed = o.parsed;
        order =
            ap (λ l. sent o.log ++ l) more
            ∙ sym (append_assoc (sent o.log) (held s.place ++ queue) (m ∷ []))
            ∙ ap (λ l. l ++ m ∷ []) o.order;
      };
      short =
          subst (All IsShort) (sym more)
            (All-append IsShort (held s.place ++ queue) (m ∷ []) v.short (fits, tt));
    }

send-Valid :
    (ms : List Bytes) (s : TcpSession) (m : Bytes)
    → IsShort m
    → Valid ms s
    → Valid (ms ++ taken m s.queue_send) (send m s)
unfolding send push taken
send-Valid ms s m fits v =
    pushed-Valid ms s m (leb s.queue_send.capacity (length s.queue_send.queue)) fits v

run-Valid :
    (ms : List Bytes) (s : TcpSession) (es : List Event)
    → All IsFine es
    → AllApart s es
    → Valid ms s
    → Valid (ms ++ accepted s es) (run s es)
unfolding run step stop accepted AllApart
run-Valid ms s [] a p v = subst (λ l. Valid l s) (sym (append-nil ms)) v
run-Valid ms s (sends m ∷ es) a p v =
    subst (λ l. Valid l (run (send m s) es))
      (append_assoc ms (taken m s.queue_send) (accepted (send m s) es))
      (run-Valid (ms ++ taken m s.queue_send) (send m s) es a.1 p.1 (send-Valid ms s m a.0 v))
run-Valid ms s (receives bytes ∷ es) a p v =
    run-Valid ms (step s (receives bytes)) es a.1 p.1 (receive-Valid ms s bytes p.0 a.0 v)
run-Valid ms s (stores ∷ es) a p v =
    run-Valid ms (step s stores) es a.1 p.1 (store-Valid ms s p.0 v)
run-Valid ms s (runs ∷ es) a p v =
    run-Valid ms (advance s.place s) es a.1 p.1 (advance-Valid ms s s.place refl v)
run-Valid ms s (stops ∷ es) a p v = run-Valid ms (stop s) es a.1 p.1 (record {
  owes = record {
    log = v.owes.log;
    fits = v.owes.fits;
    bytes = v.owes.bytes;
    last = v.owes.last;
    size = v.owes.size;
    parsed = v.owes.parsed;
    order = v.owes.order;
  };
  short = v.short;
})
run-Valid ms s (throws ∷ es) a p v = elim a.0 [ ]

start-Valid : (counter : ℕ) → Valid [] (start counter).0
unfolding start written header_after sent held owed header_at HasSize IsParsed new_queue
start-Valid counter = record {
  owes = record {
    log = [];
    fits = tt;
    bytes = refl;
    last = refl;
    size = tt;
    parsed = tt;
    order = refl;
  };
  short = tt;
}

-- For every interleaving of `Send`, waiting on a full queue included, of `Stop`, of the two assignments
-- of `Parse` and of the writing thread's statements, without a write that throws, whenever the thread is
-- not between a header and its bytes: what the session has written a peer reads, whatever header it
-- had, as the first of the messages that the queue took, in order, and then the end of the connection.
-- The condition on the header, which has no lock, is that `Parse` does not set the size between the
-- assignment of the size in `GetHeaderData` and the `memcpy`, nor the data between the `memcpy` and the
-- return. Messages are shorter than 2 ^ 31 bytes, and a header that arrives is a block of its size.
pub read_stream-run :
    (counter : ℕ) (es : List Event) (peer : TcpHeader)
    → All IsFine es
    → AllApart (start counter).0 es
    → owed (run (start counter).0 es).place ≡ []
    → let r = read_stream peer (run (start counter).0 es).wire in
      (r.ending ≡ closed)
      × (later : List Bytes) × (r.messages ++ later ≡ accepted (start counter).0 es)
read_stream-run counter es peer fine apart whole =
    let s = run (start counter).0 es in
    let o = (run-Valid [] (start counter).0 es fine apart (start-Valid counter)).owes in
    let wrote : s.wire ≡ written new_header o.log =
      sym (append-nil s.wire) ∙ ap (λ t. s.wire ++ t) (sym whole) ∙ o.bytes in
    let reading =
      ap (read_stream peer) wrote
      ∙ read_stream-written o.log new_header peer new_header-IsHeader o.fits in
    (
      ap (λ r. r.ending) reading,
      held s.place ++ s.queue_send.queue,
      ap (λ r. r.messages ++ (held s.place ++ s.queue_send.queue)) reading ∙ o.order,
    )
