-- ===== src/Buffer.antt =====
-- breUtils/Buffer.hpp, `class Buffer`: a byte queue in a vector with a read and a write offset.
-- A method that changes `*this` returns the new buffer; one that throws returns `err`.
-- Two buffers are two values here: `Append` of a buffer to itself is not modelled.
pub mod Inv
pub mod Refine
pub mod Read
pub mod Until
pub mod Run
mod Tests
use bre_utils.Prelude.{
  ℕ, zero, suc, ◌+◌, ◌-◌, ◌%◌, ◌^◌, List, [], ◌∷◌, ◌++◌, Option, none, some, Bytes, length, take,
  drop, replicate, ltb, if◌then◌else◌, Result, ok, err, ◌>>=◌, Bool, find?,
}

pub record Buffer : Type 0 where
  pub buffer : Bytes
  pub read_pos : ℕ
  pub write_pos : ℕ

-- `std::out_of_range` of `Retrieve`, and `std::length_error` of `std::vector::resize`.
pub data Error : Type 0 where
  out_of_range length_error : Error

-- `std::vector<char>::max_size()`
abbrev pub max_size : ℕ
max_size = 2 ^ 63 - 1

-- `size_t` arithmetic
abbrev pub add_size : ℕ → ℕ → ℕ
add_size a b = (a + b) % 2 ^ 64

abbrev pub sub_size : ℕ → ℕ → ℕ
sub_size a b = (a + 2 ^ 64 - b) % 2 ^ 64

-- `std::copy` of `src` to the place `pos` of a vector. `Inv` shows that no call writes past its end.
unfoldable pub blit : Bytes → ℕ → Bytes → Bytes
blit [] pos src = []
blit (x ∷ xs) zero [] = x ∷ xs
blit (x ∷ xs) zero (c ∷ cs) = c ∷ blit xs zero cs
blit (x ∷ xs) (suc pos) src = x ∷ blit xs pos src

-- `std::vector<char>::resize`
unfoldable pub resize : Bytes → ℕ → Result Error Bytes
resize xs n =
    if ltb max_size n then err length_error else ok (take n xs ++ replicate (n - length xs) 0)

unfoldable pub init : ℕ → Buffer
init size = record { buffer = replicate size 0; read_pos = 0; write_pos = 0 }

-- The move constructor: the new buffer, and what is left of `other`.
unfoldable pub move_from : Buffer → Buffer × Buffer
move_from other = (other, record { buffer = []; read_pos = 0; write_pos = 0 })

-- The move assignment: the two buffers afterwards. The flag is `this == &other`.
unfoldable pub move_assign : Bool → Buffer → Buffer → Buffer × Buffer
unfolding move_from
move_assign same this other = if same then (this, other) else move_from other

unfoldable pub writable_bytes : Buffer → ℕ
writable_bytes b = sub_size (length b.buffer) b.write_pos

unfoldable pub readable_bytes : Buffer → ℕ
readable_bytes b = sub_size b.write_pos b.read_pos

-- `std::string(Peek(), len)`
unfoldable pub peek : Buffer → ℕ → Bytes
peek b len = take len (drop b.read_pos b.buffer)

unfoldable pub retrieve : Buffer → ℕ → Result Error (Bytes × Buffer)
unfolding readable_bytes peek
retrieve b len =
    if ltb (readable_bytes b) len
    then err out_of_range
    else ok (peek b len, record b { read_pos = add_size b.read_pos len })

-- `RetrieveUntil` once the search is done; `none` is `npos`.
unfoldable pub retrieve_found : Buffer → Bytes → Option ℕ → Result Error (Bytes × Buffer)
unfolding retrieve
retrieve_found b end none = ok ([], b)
retrieve_found b end (some pos) = retrieve b (add_size pos (length end))

unfoldable pub retrieve_until : Buffer → Bytes → Result Error (Bytes × Buffer)
unfolding retrieve_found readable_bytes peek
retrieve_until b end = retrieve_found b end (find? end (peek b (readable_bytes b)))

unfoldable pub clear : Buffer → Buffer
clear b = record b { read_pos = 0; write_pos = 0 }

unfoldable pub retrieve_all : Buffer → Bytes × Buffer
unfolding peek readable_bytes clear
retrieve_all b = (peek b (readable_bytes b), clear b)

-- `expandBuffer`: grow, or move the unread bytes to the front.
unfoldable pub expand_buffer : Buffer → ℕ → Result Error Buffer
unfolding writable_bytes readable_bytes resize blit
expand_buffer b len =
    if ltb (add_size (writable_bytes b) b.read_pos) len
    then (resize b.buffer (add_size b.write_pos len) >>= λ bytes. ok (record b { buffer = bytes }))
    else ok (record {
      buffer = blit b.buffer 0 (take (readable_bytes b) (drop b.read_pos b.buffer));
      read_pos = 0;
      write_pos = readable_bytes b;
    })

-- The `Append` to which the others come down; `str` holds the `len` bytes.
unfoldable pub store : Buffer → Bytes → Buffer
unfolding blit
store b str = record b {
  buffer = blit b.buffer b.write_pos str;
  write_pos = add_size b.write_pos (length str);
}

unfoldable pub append : Buffer → Bytes → Result Error Buffer
unfolding writable_bytes expand_buffer store
append b str =
    if ltb (writable_bytes b) (length str)
    then (expand_buffer b (length str) >>= λ b'. ok (store b' str))
    else ok (store b str)

-- `Append(const Buffer&)`, for another buffer than `*this`.
unfoldable pub append_buffer : Buffer → Buffer → Result Error Buffer
unfolding append peek readable_bytes
append_buffer b other = append b (peek other (readable_bytes other))
