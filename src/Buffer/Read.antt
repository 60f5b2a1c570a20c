-- ===== src/Buffer/Read.antt =====
-- `Retrieve`, `RetrieveAll` and `Clear` against the unread bytes.
use bre_utils.Prelude.{
  ℕ, ◌+◌, ◌≤◌, ◌<◌, ◌≡◌, refl, ap, sym, ◌∙◌, [], le→ltb, lt→ltb, length, take, drop, drop-drop,
  arith, ok, err,
}
use bre_utils.Buffer.{Buffer, out_of_range, add_size, readable_bytes, clear, retrieve, retrieve_all}
use bre_utils.Buffer.Inv.{
  IsValid, contents, length-contents, peek_lem, peek_all, readable_bytes_lem, clear-IsValid,
}

pub readable_bytes-contents : {b : Buffer} → IsValid b → readable_bytes b ≡ length (contents b)
readable_bytes-contents v = omega (arith, readable_bytes_lem v, length-contents v)

-- `Retrieve(len)` on a valid buffer with `len` unread bytes or more returns the first `len` of them,
-- leaves the others, keeps the invariant and does not move the write offset.
pub retrieve_refines :
    {b : Buffer} (len : ℕ)
    → IsValid b
    → len ≤ length (contents b)
    → (b' : Buffer) × (retrieve b len ≡ ok (take len (contents b), b'))
      × IsValid b'
      × (contents b' ≡ drop len (contents b))
      × (b'.write_pos ≡ b.write_pos)
unfolding retrieve
retrieve_refines {b} len v h =
    let enough : len ≤ readable_bytes b = omega (arith, readable_bytes-contents v) in
    let index : add_size b.read_pos len ≡ b.read_pos + len = omega (arith, readable_bytes_lem v) in
    (
      record b { read_pos = add_size b.read_pos len },
      rw (le→ltb _ _ enough, peek_lem len v enough),
      omega (arith, readable_bytes_lem v),
      ap (λ n. drop n (take b.write_pos b.buffer)) index
          ∙ sym (drop-drop (take b.write_pos b.buffer) b.read_pos len),
      refl,
    )

-- `Retrieve(len)` on a valid buffer with fewer than `len` unread bytes throws `out_of_range`.
pub retrieve-out_of_range :
    {b : Buffer} (len : ℕ)
    → IsValid b
    → length (contents b) < len
    → retrieve b len ≡ err out_of_range
unfolding retrieve
retrieve-out_of_range {b} len v h =
    rw (lt→ltb (readable_bytes b) len (omega (arith, readable_bytes-contents v)))

pub contents-clear : (b : Buffer) → contents (clear b) ≡ []
unfolding clear
contents-clear b = refl

-- `RetrieveAll` on a valid buffer returns the unread bytes, and leaves a valid buffer with none.
pub retrieve_all_refines :
    {b : Buffer}
    → IsValid b
    → (retrieve_all b ≡ (contents b, clear b)) × IsValid (clear b) × (contents (clear b) ≡ [])
unfolding retrieve_all
retrieve_all_refines {b} v = (rw (peek_all v), clear-IsValid v, contents-clear b)
