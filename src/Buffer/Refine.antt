-- ===== src/Buffer/Refine.antt =====
-- `Append` puts its bytes behind the unread ones, whether it writes in place, moves the unread bytes
-- to the front or grows the vector.
use bre_utils.Prelude.{
  ℕ, ◌+◌, ◌-◌, ◌≤◌, ◌<◌, ◌≡◌, ap, sym, ◌∙◌, ◌++◌, Bytes, ltb, ltb→lt, ltb→le, Bool-cases, inl, inr,
  length, take, drop, append_assoc, replicate, length-append, length-take, length-replicate,
  take-append_length, drop-append_le, take-append_le, take_all, arith, Result, ok,
}
use bre_utils.Buffer.{
  Buffer, max_size, add_size, blit, writable_bytes, readable_bytes, peek, expand_buffer, append,
  store, Error,
}
use bre_utils.Buffer.Inv.{
  IsValid, contents, length-contents, peek_all, blit_lem, length-blit, writable_bytes_lem,
  readable_bytes_lem,
}

-- Two pieces up to a cut, and what follows it.
cut-append :
    (xs ys zs : Bytes) (r w n : ℕ)
    → r ≤ w
    → w ≤ length xs
    → n ≡ w + length ys
    → drop r (take n (take w xs ++ (ys ++ zs))) ≡ drop r (take w xs) ++ ys
cut-append xs ys zs r w n h k e =
    let l = length-take w xs in
    ap (drop r) (
      ap (take n) (sym (append_assoc (take w xs) ys zs))
      ∙ take-append_length (take w xs ++ ys) zs n (omega (arith, length-append (take w xs) ys)))
    ∙ drop-append_le (take w xs) ys r (omega arith)

pub store_lem :
    {b : Buffer} (str : Bytes)
    → IsValid b
    → b.write_pos + length str ≤ length b.buffer
    → IsValid (store b str) × (contents (store b str) ≡ contents b ++ str)
unfolding store
store_lem {b} str v h = (
  omega (arith, length-blit b.buffer b.write_pos str),
  ap (λ xs. drop b.read_pos (take (add_size b.write_pos (length str)) xs))
        (blit_lem b.buffer b.write_pos str h)
      ∙ cut-append b.buffer str _ b.read_pos b.write_pos _ (omega arith) (omega arith)
          (omega arith),
)

-- What `expandBuffer` leaves: the same unread bytes, and room for `len` more.
record Expanded (b : Buffer) (len : ℕ) (r : Result Error Buffer) : Type 0 where
  buf : Buffer
  done : r ≡ ok buf
  valid : IsValid buf
  same : contents buf ≡ contents b
  room : buf.write_pos + len ≤ length buf.buffer
  low : buf.write_pos ≤ b.write_pos

grown : Bytes → ℕ → Bytes
grown xs n = take n xs ++ replicate (n - length xs) 0

expand_grow :
    {b : Buffer} (len : ℕ)
    → IsValid b
    → b.write_pos + len ≤ max_size
    → length b.buffer - b.write_pos + b.read_pos < len
    → Expanded b len (expand_buffer b len)
unfolding expand_buffer grown
expand_grow {b} len v h k =
    let n : ℕ = b.write_pos + len in
    let all : take n b.buffer ≡ b.buffer = take_all b.buffer n (omega arith) in
    let size : length (grown b.buffer n) ≡ n = omega (
      arith,
      length-append (take n b.buffer) (replicate (n - length b.buffer) 0),
      length-take n b.buffer,
      length-replicate {A = ℕ} (n - length b.buffer) 0,
    ) in
    record {
      buf = record b { buffer = grown b.buffer n };
      done = ground (arith, writable_bytes_lem v);
      valid = record { ordered = omega arith; inside = omega arith; small = omega arith };
      same = ap (drop b.read_pos) (
          take-append_le (take n b.buffer) (replicate (n - length b.buffer) 0) b.write_pos
            (omega (arith, ap length all))
          ∙ ap (take b.write_pos) all);
      room = omega arith;
      low = omega arith;
    }

expand_move :
    {b : Buffer} (len : ℕ)
    → IsValid b
    → len ≤ length b.buffer - b.write_pos + b.read_pos
    → Expanded b len (expand_buffer b len)
unfolding expand_buffer peek
expand_move {b} len v k =
    let moved : Bytes = peek b (readable_bytes b) in
    let all : moved ≡ contents b = peek_all v in
    let size : length moved ≡ readable_bytes b =
      omega (arith, ap length all, length-contents v, readable_bytes_lem v) in
    record {
      buf = record { buffer = blit b.buffer 0 moved; read_pos = 0; write_pos = readable_bytes b };
      done = ground (arith, writable_bytes_lem v);
      valid = omega (arith, length-blit b.buffer 0 moved, readable_bytes_lem v);
      same =
          ap (take (readable_bytes b)) (blit_lem b.buffer 0 moved (omega arith))
          ∙ take-append_length moved _ (readable_bytes b) (omega arith)
          ∙ all;
      room = omega (arith, length-blit b.buffer 0 moved, readable_bytes_lem v);
      low = omega (arith, readable_bytes_lem v);
    }

expand_buffer_lem :
    {b : Buffer} (len : ℕ)
    → IsValid b
    → b.write_pos + len ≤ max_size
    → Expanded b len (expand_buffer b len)
expand_buffer_lem {b} len v h =
    let room = length b.buffer - b.write_pos + b.read_pos in
    elim (Bool-cases (ltb room len)) [
      | inl short ↦ expand_grow len v h (ltb→lt room len short)
      | inr fits ↦ expand_move len v (ltb→le room len fits)
    ]

-- `Append(str)` on a valid buffer, if `str` fits a vector behind the write offset: it succeeds, keeps
-- the invariant, adds `str` at the end of the unread bytes, and moves the write offset up by at most
-- the length of `str`.
pub append_refines :
    {b : Buffer} (str : Bytes)
    → IsValid b
    → b.write_pos + length str ≤ max_size
    → (b' : Buffer) × (append b str ≡ ok b')
      × IsValid b'
      × (contents b' ≡ contents b ++ str)
      × (b'.write_pos ≤ b.write_pos + length str)
unfolding append store
append_refines {b} str v h = elim (Bool-cases (ltb (writable_bytes b) (length str))) [
  | inl short ↦
      let e = expand_buffer_lem (length str) v h in
      let s = store_lem str e.valid e.room in
      (
        store e.buf str,
        rw (short, e.done),
        s.0,
        s.1 ∙ ap (λ (xs : Bytes). xs ++ str) e.same,
        omega (arith, e.low, e.room, e.valid.small),
      )
  | inr fits ↦
      let wide = ltb→le (writable_bytes b) (length str) fits in
      let s = store_lem str v (omega (arith, writable_bytes_lem v)) in
      (store b str, rw fits, s.0, s.1, omega arith)
]
