-- ===== src/Encoding/Base64.antt =====
-- breUtils/encoding/base64.hpp, `class Base64`. A `char` is read as its unsigned value: the masks of
-- `Encode` cut off what the sign adds. The strings are shorter than 2 ^ 31, so that the `int`
-- indices do not overflow.
pub mod Groups
pub mod RoundTrip
mod Tests
use bre_utils.Prelude.{
  ℕ, zero, suc, ◌+◌, ◌-◌, ◌*◌, ◌/◌, ◌%◌, ◌^◌, bit_and, bit_or, Bool, true, false, ◌&&◌, ◌||◌,
  Option, none, some, List, [], ◌∷◌, ◌++◌, Bytes, codes, length, get_or, set, replicate, ltb, leb,
  ◌==◌, if◌then◌else◌, Result, ok, err, ◌>>=◌, find?, get_elem?,
}

abbrev pub base64_table : Bytes
base64_table = codes "ABCDEFGHIJKLMNOPQRSTUVWXYZabcdefghijklmnopqrstuvwxyz0123456789+/"

-- `base64Table[i]`; every index is cut to six bits.
unfoldable pub symbol : ℕ → ℕ
symbol i = get_or base64_table i 0

abbrev pub pad : ℕ
pad = b'='

-- The four indices of a group of three bytes.
unfoldable pub index0 : ℕ → ℕ
index0 a = bit_and (a / 2 ^ 2) 0x3f

unfoldable pub index1 : ℕ → ℕ → ℕ
index1 a b = bit_or (bit_and a 0x3 * 2 ^ 4) (bit_and (b / 2 ^ 4) 0xf)

unfoldable pub index2 : ℕ → ℕ → ℕ
index2 b c = bit_or (bit_and b 0xf * 2 ^ 2) (bit_and (c / 2 ^ 6) 0x3)

unfoldable pub index3 : ℕ → ℕ
index3 c = bit_and c 0x3f

-- The loop of `Encode` and what follows it, from the byte `str[j]` and the place `i` of the result on.
unfoldable pub encode_from : Bytes → ℕ → Bytes → Bytes
unfolding symbol index0 index1 index2 index3
encode_from (a ∷ b ∷ c ∷ rest) i res =
    let res0 = set res i (symbol (index0 a)) in
    let res1 = set res0 (i + 1) (symbol (index1 a b)) in
    let res2 = set res1 (i + 2) (symbol (index2 b c)) in
    encode_from rest (i + 4) (set res2 (i + 3) (symbol (index3 c)))
encode_from (a ∷ b ∷ []) i res =
    let res0 = set res i (symbol (index0 a)) in
    let res1 = set res0 (i + 1) (symbol (index1 a b)) in
    set res1 (i + 2) (symbol (bit_and b 0xf * 2 ^ 2))
encode_from (a ∷ []) i res =
    set (set res i (symbol (index0 a))) (i + 1) (symbol (bit_and a 0x3 * 2 ^ 4))
encode_from [] i res = res

unfoldable pub encode : Bytes → Bytes
unfolding encode_from
encode str = encode_from str 0 (replicate ((length str + 2) / 3 * 4) pad)

-- `table` of `Decode`: 123 entries.
abbrev pub decode_table : Bytes
decode_table =
    replicate 43 0
    ++ 62 ∷ 0 ∷ 0 ∷ 0 ∷ 63 ∷ (52 ∷ 53 ∷ 54 ∷ 55 ∷ 56 ∷ 57 ∷ 58 ∷ 59 ∷ 60 ∷ 61 ∷ [])
    ++ replicate 7 0
    ++ (0 ∷ 1 ∷ 2 ∷ 3 ∷ 4 ∷ 5 ∷ 6 ∷ 7 ∷ 8 ∷ 9 ∷ 10 ∷ 11 ∷ 12 ∷ 13 ∷ 14 ∷ 15 ∷ 16 ∷ 17 ∷ 18 ∷ 19 ∷ 20
        ∷ 21 ∷ 22 ∷ 23 ∷ 24 ∷ 25 ∷ [])
    ++ replicate 6 0
    ++ (26 ∷ 27 ∷ 28 ∷ 29 ∷ 30 ∷ 31 ∷ 32 ∷ 33 ∷ 34 ∷ 35 ∷ 36 ∷ 37 ∷ 38 ∷ 39 ∷ 40 ∷ 41 ∷ 42 ∷ 43 ∷ 44
        ∷ 45 ∷ 46 ∷ 47 ∷ 48 ∷ 49 ∷ 50 ∷ 51 ∷ [])

-- What ends a run of `Decode` early: the `std::length_error` of `std::string(strLen, 0)` at a
-- negative length, and a read past the table, which C++ leaves undefined.
pub data Error : Type 0 where
  length_error out_of_table : Error

-- The string under construction, and how many writes C++ leaves undefined for standing past its end
-- (the string itself is as if they were not done).
pub record Output : Type 0 where
  pub text : Bytes
  pub overrun : ℕ

-- `res[j] = v`. At the place `res.size()` a zero may be written, and nothing else.
unfoldable pub write : ℕ → ℕ → Output → Output
write j v out =
    if ltb j (length out.text)
    then record out { text = set out.text j (v % 2 ^ 8) }
    else if (j == length out.text) && (v % 2 ^ 8 == 0)
    then out
    else record out { overrun = out.overrun + 1 }

-- `table[c]`
unfoldable pub lookup : ℕ → Result Error ℕ
lookup c = elim (get_elem? decode_table c) [ none ↦ err out_of_table | some v ↦ ok v ]

-- One round: three bytes from four entries of the table.
unfoldable pub round : ℕ → ℕ → ℕ → ℕ → ℕ → Output → Output
unfolding write
round t0 t1 t2 t3 j out =
    let out0 = write j (bit_or (t0 * 2 ^ 2) (t1 / 2 ^ 4)) out in
    let out1 = write (j + 1) (bit_or (t1 * 2 ^ 4) (t2 / 2 ^ 2)) out0 in
    write (j + 2) (bit_or (t2 * 2 ^ 6) t3) out1

-- The rounds while `i < len - 2`: at least three characters are left. With just three the fourth
-- is the terminating zero.
unfoldable pub decode_from : Bytes → ℕ → Output → Result Error Output
decode_from (a ∷ b ∷ c ∷ d ∷ rest) j out = lookup a >>= λ t0. lookup b >>= λ t1.
    lookup c >>= λ t2. lookup d >>= λ t3. decode_from rest (j + 3) (round t0 t1 t2 t3 j out)
decode_from (a ∷ b ∷ c ∷ []) j out = lookup a >>= λ t0.
    lookup b >>= λ t1. lookup c >>= λ t2. lookup 0 >>= λ t3. ok (round t0 t1 t2 t3 j out)
decode_from _ j out = ok out

-- `code.find(text) != std::string::npos`
unfoldable pub has : Bytes → Bytes → Bool
has pattern text = elim (find? pattern text) [ none ↦ false | some _ ↦ true ]

-- What `=` takes off the length of the result.
unfoldable pub cut : Bytes → ℕ
cut code = if has (pad ∷ pad ∷ []) code then 2 else if has (pad ∷ []) code then 1 else 0

unfoldable pub decode : Bytes → Result Error Output
unfolding cut
decode code =
    let whole = length code / 4 * 3 in
    if ltb whole (cut code)
    then err length_error
    else decode_from code 0 (record { text = replicate (whole - cut code) 0; overrun = 0 })
