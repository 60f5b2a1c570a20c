-- ===== src/Net/Sender/Drain.antt =====
-- `Close` waits until every message is written.
use bre_utils.Prelude.{
  ℕ, zero, suc, ◌≡◌, refl, ap, sym, subst, ◌*◌, ◌+◌, ◌≤◌, replicate, arith, ◌∙◌, Bool, true, false,
  List, [], ◌∷◌, ◌++◌, append_assoc, append-nil, length-append, Bytes, length, if◌then◌else◌, All,
}
use bre_utils.Net.Header.{TcpHeader, new_header, header_data}
use bre_utils.Net.Sender.{
  Place, unstarted, waiting, ended, holding, headed, Sender, connect, create, send, write_header,
  write, created, close, look, advance, Event, sends, direct, direct_body, direct_header,
  constructs, runs, throws, closes, step, run, messages, frames,
}
use bre_utils.Net.Sender.Frames.{unwritten_at, after_frames, last_at, Owes, send-Owes, advance-Owes}

-- The turns until the thread is back at the queue; an unstarted or ended thread has none.
unfoldable pub turns_at : Place → ℕ
turns_at (holding m) = 3
turns_at (headed m) = 2
turns_at _ = 1

unfoldable pub Going : Place → Type 0
Going unstarted = ⊥
Going ended = ⊥
Going _ = Unit

-- The thread has ended and has written all of it.
abbrev pub Drained : Sender → Bytes → Type 0
Drained t wire = (t.place ≡ ended) × (t.queue ≡ []) × (t.wire ≡ wire)

stays_ended : (n : ℕ) (s : Sender) → s.place ≡ ended → run s (replicate n runs) ≡ s
unfolding run step advance
stays_ended zero s e = refl
stays_ended (suc n) s e = ap (λ p. run (advance p s) (replicate n runs)) e ∙ stays_ended n s e

has_turns : (p : Place) → 1 ≤ turns_at p
unfolding turns_at
has_turns unstarted = omega arith
has_turns waiting = omega arith
has_turns ended = omega arith
has_turns (holding m) = omega arith
has_turns (headed m) = omega arith

abbrev closed_at : Place → List Bytes → TcpHeader → Bytes → Sender
closed_at p q h w = record { is_closed = true; queue = q; header = h; place = p; wire = w }

drain :
    (n : ℕ) (p : Place) (q : List Bytes) (h : TcpHeader) (w : Bytes)
    → Going p
    → 3 * length q + turns_at p ≤ n
    → Drained (run (closed_at p q h w) (replicate n runs)) (w ++ unwritten_at p h q)
unfolding run step advance look write write_header unwritten_at frames Going turns_at
drain zero p q h w g enough = absurd (omega (arith, has_turns p))
drain (suc n) unstarted q h w g enough = elim g [ ]
drain (suc n) ended q h w g enough = elim g [ ]
drain (suc n) waiting [] h w g enough =
    subst (λ t. Drained t (w ++ [])) (sym (stays_ended n (closed_at ended [] h w) refl))
      (refl, refl, sym (append-nil w))
drain (suc n) waiting (m ∷ q) h w g enough = drain n (holding m) q h w g (omega arith)
drain (suc n) (holding m) q h w g enough =
    let (front, h') = header_data (length m) h in
    subst (λ v. Drained (run (closed_at (headed m) q h' (w ++ front)) (replicate n runs)) v)
      (append_assoc w front (m ++ frames h' q))
      (drain n (headed m) q h' (w ++ front) g (omega arith))
drain (suc n) (headed m) q h w g enough =
    subst (λ v. Drained (run (closed_at waiting q h (w ++ m)) (replicate n runs)) v)
      (append_assoc w m (frames h q)) (drain n waiting q h (w ++ m) g (omega arith))

-- Before `Close`, when no write throws.
abbrev pub IsOpen : Event → Type 0
IsOpen (sends m) = Unit
IsOpen runs = Unit
IsOpen _ = ⊥

-- The thread goes on, and has no more to do than what was sent.
record Works (ms : List Bytes) (p : Place) (q : List Bytes) : Type 0 where
  going : Going p
  work : 3 * length q + turns_at p ≤ 3 * length ms + 1

advance-Works :
    (ms : List Bytes) (p : Place) (q : List Bytes) (h : TcpHeader) (w : Bytes)
    → Works ms p q
    → let s : Sender = record { is_closed = false; queue = q; header = h; place = p; wire = w } in
      ((advance p s).is_closed ≡ false) × Works ms (advance p s).place (advance p s).queue
unfolding advance look write write_header Going turns_at
advance-Works ms unstarted q h w v = elim v.going [ ]
advance-Works ms ended q h w v = elim v.going [ ]
advance-Works ms waiting [] h w v = (refl, v)
advance-Works ms waiting (m ∷ q) h w v =
    (refl, record { going = tt; work = let k = v.work in omega arith })
advance-Works ms (holding m) q h w v =
    (refl, record { going = tt; work = let k = v.work in omega arith })
advance-Works ms (headed m) q h w v =
    (refl, record { going = tt; work = let k = v.work in omega arith })

record Open (ms : List Bytes) (s : Sender) : Type 0 where
  owes : Owes new_header ms s
  alive : s.is_closed ≡ false
  works : Works ms s.place s.queue

advance-Open : (ms : List Bytes) (s : Sender) → Open ms s → Open ms (advance s.place s)
advance-Open ms s o =
    let at : Sender = record s { is_closed = false } in
    let same : at ≡ s = ap (λ c. record s { is_closed = c }) (sym o.alive) in
    let (alive, works) = advance-Works ms s.place s.queue s.header s.wire o.works in
    record {
      owes = advance-Owes new_header ms s o.owes;
      alive = subst (λ t. (advance s.place t).is_closed ≡ false) same alive;
      works = subst (λ t. Works ms (advance s.place t).place (advance s.place t).queue) same works;
    }

send-Open : (ms : List Bytes) (s : Sender) (m : Bytes) → Open ms s → Open (ms ++ m ∷ []) (send m s)
unfolding send
send-Open ms s m o = record {
  owes = send-Owes new_header ms s m o.owes;
  alive = o.alive;
  works = record {
    going = o.works.going;
    work =
        let k = o.works.work in
        omega (arith, length-append s.queue (m ∷ []), length-append ms (m ∷ []));
  };
}

run-Open :
    (ms : List Bytes) (s : Sender) (es : List Event)
    → All IsOpen es
    → Open ms s
    → Open (ms ++ messages es) (run s es)
unfolding run step messages
run-Open ms s [] i o = subst (λ ns. Open ns s) (sym (append-nil ms)) o
run-Open ms s (sends m ∷ es) i o =
    subst (λ ns. Open ns (run (send m s) es)) (append_assoc ms (m ∷ []) (messages es))
      (run-Open (ms ++ m ∷ []) (send m s) es i.1 (send-Open ms s m o))
run-Open ms s (runs ∷ es) i o = run-Open ms (advance s.place s) es i.1 (advance-Open ms s o)
run-Open ms s (direct m ∷ es) i o = elim i.0 [ ]
run-Open ms s (direct_body m ∷ es) i o = elim i.0 [ ]
run-Open ms s (direct_header n ∷ es) i o = elim i.0 [ ]
run-Open ms s (constructs ∷ es) i o = elim i.0 [ ]
run-Open ms s (throws ∷ es) i o = elim i.0 [ ]
run-Open ms s (closes ∷ es) i o = elim i.0 [ ]

run-append : (s : Sender) (es fs : List Event) → run s (es ++ fs) ≡ run (run s es) fs
unfolding run
run-append s [] fs = refl
run-append s (e ∷ es) fs = run-append (step s e) es fs

started :
    Open []
      (record { is_closed = false; queue = []; header = new_header; place = waiting; wire = [] })
unfolding frames after_frames unwritten_at last_at Going turns_at
started = record {
  owes = record { bytes = refl; last = refl };
  alive = refl;
  works = record { going = tt; work = omega arith };
}

constructed-Open :
    (outcomes : List Bool) → connect outcomes ≡ true → Open [] (created (create outcomes))
unfolding create created
constructed-Open outcomes e =
    subst
      (λ c. Open [] (record {
        is_closed = false;
        queue = [];
        header = new_header;
        place = if c then waiting else unstarted;
        wire = [];
      }))
      (sym e) started

-- When `Connect` succeeds and the constructor has ended before the thread first looks at the queue, and
-- no write throws: however the calls of `Send` and the thread's turns interleave, after `Close` the
-- thread has ended when it has had three turns for each message and three more, and every message that
-- was sent before `Close` has been written, in order, each behind its header.
pub run-Drained :
    (outcomes : List Bool) (es : List Event) (n : ℕ)
    → connect outcomes ≡ true
    → All IsOpen es
    → 3 * length (messages es) + 3 ≤ n
    → Drained
        (run (created (create outcomes)) (es ++ closes ∷ replicate n runs))
        (frames new_header (messages es))
unfolding run step close
run-Drained outcomes es n connected i enough =
    let s = run (created (create outcomes)) es in
    let o : Open (messages es) s =
      run-Open [] (created (create outcomes)) es i (constructed-Open outcomes connected) in
    let work = o.works.work in
    subst (λ t. Drained t (frames new_header (messages es)))
      (sym (run-append (created (create outcomes)) es (closes ∷ replicate n runs)))
      (subst (Drained (run (close s) (replicate n runs))) o.owes.bytes
        (drain n s.place s.queue s.header s.wire o.works.going (omega arith)))
