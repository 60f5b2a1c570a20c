-- ===== src/Buffer/Inv.antt =====
-- The representation invariant of `Buffer`: the offsets are in order and inside the vector, so no
-- `size_t` operation wraps and no copy leaves the vector.
use bre_utils.Prelude.{
  ℕ, zero, suc, ◌+◌, ◌-◌, ◌≤◌, ◌≡◌, refl, ap, [], ◌∷◌, ◌++◌, Bytes, length, take, drop, length-take,
  length-replicate, length-drop, take-drop, take-take, take_all, sym, ◌∙◌, arith,
}
use bre_utils.Buffer.{Buffer, max_size, blit, init, writable_bytes, readable_bytes, peek, clear}

pub record IsValid (b : Buffer) : Type 0 where
  pub ordered : b.read_pos ≤ b.write_pos
  pub inside : b.write_pos ≤ length b.buffer
  pub small : length b.buffer ≤ max_size

pub readable_bytes_lem : {b : Buffer} → IsValid b → readable_bytes b ≡ b.write_pos - b.read_pos
unfolding readable_bytes
readable_bytes_lem v = omega arith

pub writable_bytes_lem : {b : Buffer} → IsValid b → writable_bytes b ≡ length b.buffer - b.write_pos
unfolding writable_bytes
writable_bytes_lem v = omega arith

pub length-blit : (xs : Bytes) (pos : ℕ) (src : Bytes) → length (blit xs pos src) ≡ length xs
unfolding blit
length-blit [] pos src = refl
length-blit (x ∷ xs) zero [] = refl
length-blit (x ∷ xs) zero (c ∷ cs) = ap suc (length-blit xs zero cs)
length-blit (x ∷ xs) (suc pos) src = ap suc (length-blit xs pos src)

-- A copy that fits replaces just the bytes from `pos` on.
pub blit_lem :
    (xs : Bytes) (pos : ℕ) (src : Bytes)
    → pos + length src ≤ length xs
    → blit xs pos src ≡ take pos xs ++ (src ++ drop (length src) (drop pos xs))
unfolding blit
blit_lem [] zero [] h = refl
blit_lem [] (suc pos) [] h = absurd (omega arith)
blit_lem [] pos (c ∷ cs) h = absurd (omega arith)
blit_lem (x ∷ xs) zero [] h = refl
blit_lem (x ∷ xs) zero (c ∷ cs) h = ap (◌∷◌ c) (blit_lem xs zero cs (omega arith))
blit_lem (x ∷ xs) (suc pos) src h = ap (◌∷◌ x) (blit_lem xs pos src (omega arith))

-- What a client sees of a buffer: its unread bytes.
abbrev pub contents : Buffer → Bytes
contents b = drop b.read_pos (take b.write_pos b.buffer)

pub length-contents : {b : Buffer} → IsValid b → length (contents b) ≡ b.write_pos - b.read_pos
length-contents {b} v =
    omega
      (arith, length-drop b.read_pos (take b.write_pos b.buffer), length-take b.write_pos b.buffer)

pub peek_lem :
    {b : Buffer} (n : ℕ) → IsValid b → n ≤ readable_bytes b → peek b n ≡ take n (contents b)
unfolding peek
peek_lem {b} n v h =
    take-drop b.buffer b.read_pos n
    ∙ ap (drop b.read_pos) (
        sym (take-take b.buffer (b.read_pos + n) b.write_pos (omega (arith, readable_bytes_lem v))))
    ∙ sym (take-drop (take b.write_pos b.buffer) b.read_pos n)

-- All the unread bytes.
pub peek_all : {b : Buffer} → IsValid b → peek b (readable_bytes b) ≡ contents b
peek_all {b} v =
    peek_lem (readable_bytes b) v (omega arith)
    ∙ take_all (contents b) (readable_bytes b)
        (omega (arith, length-contents v, readable_bytes_lem v))

-- A new buffer of a size that fits a vector satisfies the invariant.
pub init-IsValid : (size : ℕ) → size ≤ max_size → IsValid (init size)
unfolding init
init-IsValid size h = omega (arith, length-replicate {A = ℕ} size 0)

pub clear-IsValid : {b : Buffer} → IsValid b → IsValid (clear b)
unfolding clear
clear-IsValid v = omega arith
