-- ===== src/Encoding/Base64/RoundTrip.antt =====
-- `Decode` after `Encode`.
use bre_utils.Prelude.{
  ℕ, zero, suc, ◌+◌, ◌-◌, ◌*◌, ◌/◌, ◌%◌, ◌^◌, ◌<◌, ◌≡◌, refl, ap, ap₂, sym, ◌∙◌, bit_or, Bool, true,
  false, ◌&&◌, not, [], ◌∷◌, ◌++◌, Bytes, IsByte, length, set, replicate, ==_iff, length-append,
  append_assoc, ◌==◌, lt→ltb, le→ltb, find?, starts_with, Result, ok, err, holds_below, holds_at,
  All, arith,
}
use bre_utils.Prelude.Bits.{bit_or-shifted}
use bre_utils.Encoding.Base64.{
  Error, Output, symbol, encode, pad, lookup, write, round, decode_from, has, cut, decode,
}
use bre_utils.Encoding.Base64.Groups.{group_text, encode-group_text, set-append}

abbrev is_ok : Result Error ℕ → ℕ → Bool
is_ok (ok v) n = v == n
is_ok (err _) n = false

is_ok→eq : (r : Result Error ℕ) (n : ℕ) → is_ok r n ≡ true → r ≡ ok n
is_ok→eq (ok v) n h = ap ok ((==_iff v n).0 h)
is_ok→eq (err e) n h = cc

symbol_table : holds_below 64 (λ i. is_ok (lookup (symbol i)) i && not (symbol i == pad)) ≡ true
unfolding holds_below lookup symbol
symbol_table = refl

lookup-symbol : (i : ℕ) → i < 64 → (lookup (symbol i) ≡ ok i) × ((symbol i == pad) ≡ false)
lookup-symbol i h =
    let t = holds_at 64 _ i symbol_table h in
    (is_ok→eq (lookup (symbol i)) i (ground arith), ground arith)

lookup-pad : lookup pad ≡ ok 0
unfolding lookup
lookup-pad = refl

abbrev out_of : Bytes → ℕ → Output
out_of text overrun = record { text = text; overrun = overrun }

write_inside :
    (pre xs : Bytes) (n j v o : ℕ)
    → j ≡ length pre + n
    → n < length xs
    → write j v (out_of (pre ++ xs) o) ≡ out_of (pre ++ set xs n (v % 2 ^ 8)) o
unfolding write
write_inside pre xs n j v o e h = rw (
  lt→ltb j (length (pre ++ xs)) (omega (arith, length-append pre xs)),
  set-append pre xs n j (v % 2 ^ 8) e,
)

-- A zero at the place behind the string, and any byte further on.
write_end :
    (pre xs : Bytes) (j v o : ℕ)
    → j ≡ length pre + length xs
    → v % 2 ^ 8 ≡ 0
    → write j v (out_of (pre ++ xs) o) ≡ out_of (pre ++ xs) o
unfolding write
write_end pre xs j v o e z = rw (
  le→ltb j (length (pre ++ xs)) (omega (arith, length-append pre xs)),
  (==_iff j (length (pre ++ xs))).1 (omega (arith, length-append pre xs)),
  z,
)

write_outside :
    (pre xs : Bytes) (j v o : ℕ)
    → j ≡ length pre + length xs + 1
    → write j v (out_of (pre ++ xs) o) ≡ out_of (pre ++ xs) (o + 1)
unfolding write
write_outside pre xs j v o e =
    let other : (j == length (pre ++ xs)) ≡ false = ground (arith, length-append pre xs) in
    rw (le→ltb j (length (pre ++ xs)) (omega (arith, length-append pre xs)), other)

-- The three writes of a round, with three, two or one places left.
module _ (pre : Bytes) (j v0 v1 v2 o : ℕ) (e : j ≡ length pre) where
  writes : Bytes → Output
  writes xs = write (j + 2) v2 (write (j + 1) v1 (write j v0 (out_of (pre ++ xs) o)))

  writes_three :
      (r : Bytes)
      → writes (0 ∷ 0 ∷ 0 ∷ r) ≡ out_of (pre ++ v0 % 2 ^ 8 ∷ v1 % 2 ^ 8 ∷ v2 % 2 ^ 8 ∷ r) o
  unfolding writes
  writes_three r =
      ap (λ out. write (j + 2) v2 (write (j + 1) v1 out))
        (write_inside pre (0 ∷ 0 ∷ 0 ∷ r) 0 j v0 o (omega arith) (omega arith))
      ∙ ap (write (j + 2) v2)
          (write_inside pre (v0 % 2 ^ 8 ∷ 0 ∷ 0 ∷ r) 1 (j + 1) v1 o (omega arith) (omega arith))
      ∙ write_inside pre (v0 % 2 ^ 8 ∷ v1 % 2 ^ 8 ∷ 0 ∷ r) 2 (j + 2) v2 o (omega arith)
          (omega arith)

  writes_two : v2 % 2 ^ 8 ≡ 0 → writes (0 ∷ 0 ∷ []) ≡ out_of (pre ++ v0 % 2 ^ 8 ∷ v1 % 2 ^ 8 ∷ []) o
  unfolding writes
  writes_two z =
      ap (λ out. write (j + 2) v2 (write (j + 1) v1 out))
        (write_inside pre (0 ∷ 0 ∷ []) 0 j v0 o (omega arith) (omega arith))
      ∙ ap (write (j + 2) v2)
          (write_inside pre (v0 % 2 ^ 8 ∷ 0 ∷ []) 1 (j + 1) v1 o (omega arith) (omega arith))
      ∙ write_end pre (v0 % 2 ^ 8 ∷ v1 % 2 ^ 8 ∷ []) (j + 2) v2 o (omega arith) z

  writes_one : v1 % 2 ^ 8 ≡ 0 → writes (0 ∷ []) ≡ out_of (pre ++ v0 % 2 ^ 8 ∷ []) (o + 1)
  unfolding writes
  writes_one z =
      ap (λ out. write (j + 2) v2 (write (j + 1) v1 out))
        (write_inside pre (0 ∷ []) 0 j v0 o (omega arith) (omega arith))
      ∙ ap (write (j + 2) v2) (write_end pre (v0 % 2 ^ 8 ∷ []) (j + 1) v1 o (omega arith) z)
      ∙ write_outside pre (v0 % 2 ^ 8 ∷ []) (j + 2) v2 o (omega arith)

-- What the three bytes of a round are, from the four values that `Encode` made of them.
first_byte :
    (a b : ℕ)
    → IsByte a
    → IsByte b
    → bit_or (a / 4 * 2 ^ 2) ((a % 4 * 16 + b / 16) / 2 ^ 4) % 2 ^ 8 ≡ a
first_byte a b h k =
    let q : (a % 4 * 16 + b / 16) / 2 ^ 4 ≡ a % 4 = omega arith in
    rw (q, bit_or-shifted 2 (a / 4) (a % 4) (omega arith)) (omega arith)

second_byte :
    (a b c : ℕ)
    → IsByte a
    → IsByte b
    → IsByte c
    → bit_or ((a % 4 * 16 + b / 16) * 2 ^ 4) ((b % 16 * 4 + c / 64) / 2 ^ 2) % 2 ^ 8 ≡ b
second_byte a b c h k l =
    let q : (b % 16 * 4 + c / 64) / 2 ^ 2 ≡ b % 16 = omega arith in
    rw (q, bit_or-shifted 4 (a % 4 * 16 + b / 16) (b % 16) (omega arith)) (omega arith)

third_byte :
    (b c : ℕ) → IsByte b → IsByte c → bit_or ((b % 16 * 4 + c / 64) * 2 ^ 6) (c % 64) % 2 ^ 8 ≡ c
third_byte b c h k =
    rw (bit_or-shifted 6 (b % 16 * 4 + c / 64) (c % 64) (omega arith)) (omega arith)

-- The rounds of `Decode` on a group of `Encode`.
module _ (pre : Bytes) (j o : ℕ) (e : j ≡ length pre) where
  round_three :
      (a b c : ℕ) (r : Bytes)
      → IsByte a
      → IsByte b
      → IsByte c
      → round
          (a / 4)
          (a % 4 * 16 + b / 16)
          (b % 16 * 4 + c / 64)
          (c % 64)
          j
          (out_of (pre ++ 0 ∷ 0 ∷ 0 ∷ r) o)
        ≡ out_of (pre ++ a ∷ b ∷ c ∷ r) o
  unfolding round writes
  round_three a b c r h k l =
      writes_three pre j _ _ _ o e r
      ∙ rw (first_byte a b h k, second_byte a b c h k l, third_byte b c k l)

  round_two :
      (a b : ℕ)
      → IsByte a
      → IsByte b
      → round (a / 4) (a % 4 * 16 + b / 16) (b % 16 * 4) 0 j (out_of (pre ++ 0 ∷ 0 ∷ []) o)
        ≡ out_of (pre ++ a ∷ b ∷ []) o
  unfolding round writes
  round_two a b h k =
      let s = second_byte a b 0 h k (omega arith) in
      let z : b % 16 * 4 + 0 / 64 ≡ b % 16 * 4 = omega arith in
      let t = third_byte b 0 k (omega arith) in
      writes_two pre j _ _ (bit_or (b % 16 * 4 * 2 ^ 6) 0) o e (rw z at t)
      ∙ rw (first_byte a b h k, rw z at s)

  round_one :
      (a : ℕ)
      → IsByte a
      → round (a / 4) (a % 4 * 16) 0 0 j (out_of (pre ++ 0 ∷ []) o) ≡ out_of (pre ++ a ∷ []) (o + 1)
  unfolding round writes
  round_one a h =
      let f = first_byte a 0 h (omega arith) in
      let z : a % 4 * 16 + 0 / 16 ≡ a % 4 * 16 = omega arith in
      let s = second_byte a 0 0 h (omega arith) (omega arith) in
      writes_one pre j _ (bit_or (a % 4 * 16 * 2 ^ 4) (0 / 2 ^ 2)) (bit_or (0 * 2 ^ 6) 0) o e
        (rw z at s)
      ∙ rw (rw z at f)

-- How many places `=` stands for.
abbrev padding : ℕ → ℕ
padding n = (3 - n % 3) % 3

-- How many writes the last round does past the end: one, behind the zero at the end, for a length
-- that is one more than a multiple of three, else none.
abbrev pub stray : ℕ → ℕ
stray n = n % 3 % 2

decode_from-group_text :
    (s pre : Bytes) (j k o : ℕ)
    → All IsByte s
    → j ≡ length pre
    → k ≡ length s
    → decode_from (group_text s) j (out_of (pre ++ replicate k 0) o)
      ≡ ok (out_of (pre ++ s) (o + stray (length s)))
unfolding decode_from group_text
decode_from-group_text [] pre j zero o h e z = ap (λ n. ok (out_of (pre ++ []) n)) (omega arith)
decode_from-group_text [] pre j (suc k) o h e z = absurd (omega arith)
decode_from-group_text (a ∷ []) pre j k o h e z =
    let x = lookup-symbol (a / 4) (omega arith) in
    let y = lookup-symbol (a % 4 * 16) (omega arith) in
    rw (z, x.0, y.0, lookup-pad, round_one pre j o e a h.0)
      (ap (λ n. ok (out_of (pre ++ a ∷ []) n)) (omega arith))
decode_from-group_text (a ∷ b ∷ []) pre j k o h e z =
    let x = lookup-symbol (a / 4) (omega arith) in
    let y = lookup-symbol (a % 4 * 16 + b / 16) (omega arith) in
    let w = lookup-symbol (b % 16 * 4) (omega arith) in
    rw (z, x.0, y.0, w.0, lookup-pad, round_two pre j o e a b h.0 h.1.0)
      (ap (λ n. ok (out_of (pre ++ a ∷ b ∷ []) n)) (omega arith))
decode_from-group_text (a ∷ b ∷ c ∷ s) pre j k o h e z =
    let x = lookup-symbol (a / 4) (omega arith) in
    let y = lookup-symbol (a % 4 * 16 + b / 16) (omega arith) in
    let w = lookup-symbol (b % 16 * 4 + c / 64) (omega arith) in
    let u = lookup-symbol (c % 64) (omega arith) in
    let pre' : Bytes = pre ++ a ∷ b ∷ c ∷ [] in
    let t = round_three pre j o e a b c (replicate (length s) 0) h.0 h.1.0 h.1.1.0 in
    rw (z, x.0, y.0, w.0, u.0, t)
      (ap (λ text. decode_from (group_text s) (j + 3) (out_of text o))
          (sym (append_assoc pre (a ∷ b ∷ c ∷ []) (replicate (length s) 0)))
        ∙ decode_from-group_text s pre' (j + 3) (length s) o h.1.1.1
            (omega (arith, length-append pre (a ∷ b ∷ c ∷ []))) refl
        ∙ ap₂ (λ text n. ok (out_of text n)) (append_assoc pre (a ∷ b ∷ c ∷ []) s) (omega arith))

has-cons :
    (p : Bytes) (c : ℕ) (cs : Bytes) → starts_with p (c ∷ cs) ≡ false → has p (c ∷ cs) ≡ has p cs
unfolding has find?
has-cons p c cs h = ground arith

-- A symbol is no `=`.
has-symbol :
    (p : Bytes) (i : ℕ) (cs : Bytes) → i < 64 → has (pad ∷ p) (symbol i ∷ cs) ≡ has (pad ∷ p) cs
unfolding starts_with
has-symbol p i cs h = let x = lookup-symbol i h in has-cons (pad ∷ p) (symbol i) cs (ground arith)

cut-group_text : (s : Bytes) → All IsByte s → cut (group_text s) ≡ padding (length s)
unfolding group_text cut
cut-group_text [] h = unfold has find? in refl
cut-group_text (a ∷ []) h =
    rw
      (
        has-symbol (pad ∷ []) (a / 4) _ (omega arith),
        has-symbol (pad ∷ []) (a % 4 * 16) _ (omega arith),
      )
      (unfold has find? in refl)
cut-group_text (a ∷ b ∷ []) h =
    let x = λ (p : Bytes) (cs : Bytes). has-symbol p (a / 4) cs (omega arith) in
    let y = λ (p : Bytes) (cs : Bytes). has-symbol p (a % 4 * 16 + b / 16) cs (omega arith) in
    let z = λ (p : Bytes) (cs : Bytes). has-symbol p (b % 16 * 4) cs (omega arith) in
    rw (x (pad ∷ []) _, y (pad ∷ []) _, z (pad ∷ []) _, x [] _, y [] _, z [] _)
      (unfold has find? starts_with in refl)
cut-group_text (a ∷ b ∷ c ∷ s) h =
    let x = λ (p : Bytes) (cs : Bytes). has-symbol p (a / 4) cs (omega arith) in
    let y = λ (p : Bytes) (cs : Bytes). has-symbol p (a % 4 * 16 + b / 16) cs (omega arith) in
    let z = λ (p : Bytes) (cs : Bytes). has-symbol p (b % 16 * 4 + c / 64) cs (omega arith) in
    let w = λ (p : Bytes) (cs : Bytes). has-symbol p (c % 64) cs (omega arith) in
    rw
      (
        x (pad ∷ []) _,
        y (pad ∷ []) _,
        z (pad ∷ []) _,
        w (pad ∷ []) _,
        x [] _,
        y [] _,
        z [] _,
        w [] _,
      )
      (cut-group_text s h.1.1.1 ∙ omega arith)

length-group_text : (s : Bytes) → length (group_text s) ≡ (length s + 2) / 3 * 4
unfolding group_text
length-group_text [] = refl
length-group_text (a ∷ []) = refl
length-group_text (a ∷ b ∷ []) = refl
length-group_text (a ∷ b ∷ c ∷ s) = omega (arith, length-group_text s)

-- What `Encode` writes of a string of bytes, `Decode` reads back. If the length of the string is one
-- more than a multiple of three, `Decode` in doing so writes once past the end of its result, at the
-- place `size() + 1`; else it writes nothing there but a zero at `size()`, which is allowed.
pub decode-encode :
    (s : Bytes)
    → All IsByte s
    → decode (encode s) ≡ ok (record { text = s; overrun = stray (length s) })
unfolding decode
decode-encode s h =
    let c = cut-group_text s h in
    let n = length-group_text s in
    let enough = le→ltb (length (group_text s) / 4 * 3) (padding (length s)) (omega arith) in
    let size : length (group_text s) / 4 * 3 - padding (length s) ≡ length s = omega arith in
    rw (encode-group_text s h, decode, c, enough, size)
      (decode_from-group_text s [] 0 (length s) 0 h refl refl
        ∙ ap (λ n. ok (out_of s n)) (omega arith))
