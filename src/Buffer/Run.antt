-- ===== src/Buffer/Run.antt =====
-- A client's calls on a `Buffer` against a plain byte queue.
use bre_utils.Prelude.{
  ℕ, ◌+◌, ◌≤◌, ◌≡◌, refl, ap, List, [], ◌∷◌, ◌++◌, Bytes, Option, none, some, ltb, ltb→lt, ltb→le,
  Bool-cases, inl, inr, Option-cases, length, take, drop, arith, Result, ok, err, if◌then◌else◌,
}
use bre_utils.Buffer.{
  Buffer, Error, out_of_range, max_size, append, retrieve, retrieve_until, retrieve_all, clear,
}
use bre_utils.Buffer.Inv.{IsValid, contents}
use bre_utils.Buffer.Refine.{append_refines}
use bre_utils.Buffer.Read.{retrieve_refines, retrieve-out_of_range, retrieve_all_refines}
use bre_utils.Prelude.{find?}
use bre_utils.Buffer.Until.{retrieve_until_found, retrieve_until-none}

pub data Op : Type 0 where
  put : Bytes → Op
  get : ℕ → Op
  get_until : Bytes → Op
  get_all reset : Op

-- What a call returns: bytes, or the exception. `put` and `reset` return nothing.
abbrev pub Reply : Type 0
Reply = Result Error Bytes

-- After a call that throws the buffer is as before.
after : Buffer → Result Error (Bytes × Buffer) → Reply × Buffer
after b (ok (out, b')) = (ok out, b')
after b (err e) = (err e, b)

after_append : Buffer → Result Error Buffer → Reply × Buffer
after_append b (ok b') = (ok [], b')
after_append b (err e) = (err e, b)

unfoldable pub step : Buffer → Op → Reply × Buffer
unfolding after after_append
step b (put str) = after_append b (append b str)
step b (get len) = after b (retrieve b len)
step b (get_until end) = after b (retrieve_until b end)
step b get_all = let (out, b') = retrieve_all b in (ok out, b')
step b reset = (ok [], clear b)

unfoldable pub run : Buffer → List Op → List Reply
unfolding step
run b [] = []
run b (op ∷ ops) = let (r, b') = step b op in r ∷ run b' ops

-- The specification: a queue of bytes.
queue_found : Bytes → Bytes → Option ℕ → Reply × Bytes
queue_found q end none = (ok [], q)
queue_found q end (some i) = (ok (take (i + length end) q), drop (i + length end) q)

unfoldable pub queue_step : Bytes → Op → Reply × Bytes
unfolding queue_found
queue_step q (put str) = (ok [], q ++ str)
queue_step q (get len) =
    if ltb (length q) len then (err out_of_range, q) else (ok (take len q), drop len q)
queue_step q (get_until end) = queue_found q end (find? end q)
queue_step q get_all = (ok q, [])
queue_step q reset = (ok [], [])

unfoldable pub queue_run : Bytes → List Op → List Reply
unfolding queue_step
queue_run q [] = []
queue_run q (op ∷ ops) = let (r, q') = queue_step q op in r ∷ queue_run q' ops

-- How many bytes a list of calls appends.
abbrev pub appended : List Op → ℕ
appended [] = 0
appended (put str ∷ ops) = length str + appended ops
appended (get _ ∷ ops) = appended ops
appended (get_until _ ∷ ops) = appended ops
appended (get_all ∷ ops) = appended ops
appended (reset ∷ ops) = appended ops

appended_split : (op : Op) (ops : List Op) → appended (op ∷ ops) ≡ appended (op ∷ []) + appended ops
appended_split (put str) ops = omega arith
appended_split _ ops = omega arith

-- One call: the same reply, and again a valid buffer that holds the queue.
record Steps (b : Buffer) (op : Op) : Type 0 where
  next : Buffer
  done : step b op ≡ ((queue_step (contents b) op).0, next)
  valid : IsValid next
  holds : contents next ≡ (queue_step (contents b) op).1
  low : next.write_pos ≤ b.write_pos + appended (op ∷ [])

step_refines :
    {b : Buffer} (op : Op) → IsValid b → b.write_pos + appended (op ∷ []) ≤ max_size → Steps b op
unfolding step queue_step clear
step_refines {b} (put str) v h =
    let (b', e, valid, holds, low) = append_refines str v (omega arith) in
    record { next = b'; done = rw e; valid = valid; holds = holds; low = omega arith }
step_refines {b} (get len) v h = elim (Bool-cases (ltb (length (contents b)) len)) [
  | inl few ↦ record {
    next = b;
    done = rw (few, retrieve-out_of_range len v (ltb→lt _ _ few));
    valid = v;
    holds = rw few;
    low = omega arith;
  }
  | inr enough ↦
      let (b', e, valid, holds, low) = retrieve_refines len v (ltb→le _ _ enough) in
      record {
        next = b';
        done = rw (enough, e);
        valid = valid;
        holds = rw enough holds;
        low = omega arith;
      }
]
step_refines {b} (get_until end) v h = elim (Option-cases (find? end (contents b))) [
  | inl absent ↦ record {
    next = b;
    done = rw (absent, retrieve_until-none end v absent);
    valid = v;
    holds = rw absent;
    low = omega arith;
  }
  | inr (i, found) ↦
      let (b', e, valid, rest, low) = retrieve_until_found end i v found in
      record {
        next = b';
        done = rw (found, e);
        valid = valid;
        holds = rw found rest;
        low = omega arith;
      }
]
step_refines {b} get_all v h =
    let (e, valid, holds) = retrieve_all_refines v in
    record {
      next = clear b;
      done = ap (λ (r : Bytes × Buffer). (ok r.0, r.1)) e;
      valid = valid;
      holds = holds;
      low = omega arith;
    }
step_refines {b} reset v h =
    let (e, valid, holds) = retrieve_all_refines v in
    record {
      next = clear b;
      done = refl;
      valid = valid;
      holds = holds;
      low = omega (arith, v.ordered);
    }

-- No sequence of calls of `Append`, `Retrieve`, `RetrieveUntil`, `RetrieveAll` and `Clear` tells a
-- valid buffer from the queue of its unread bytes, if all the bytes that the calls append still fit
-- a vector behind its write offset: every call returns or throws the same.
pub run_refines :
    (ops : List Op) {b : Buffer}
    → IsValid b
    → b.write_pos + appended ops ≤ max_size
    → run b ops ≡ queue_run (contents b) ops
unfolding run queue_run
run_refines [] v h = refl
run_refines (op ∷ ops) {b} v h =
    let s = step_refines op v (omega (arith, appended_split op ops)) in
    let rest = run_refines ops s.valid (omega (arith, s.low, appended_split op ops)) in
    rw (s.done, rest, s.holds)
