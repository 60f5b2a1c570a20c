-- ===== src/Encoding/Base64/Groups.antt =====
-- `Encode` without its buffer, a group of three bytes at a time, and the arithmetic of one group.
use bre_utils.Prelude.{
  ℕ, zero, suc, ◌+◌, ◌*◌, ◌/◌, ◌%◌, ◌^◌, ◌≡◌, refl, ap, sym, ◌∙◌, bit_and, true, ◌&&◌, [], ◌∷◌,
  ◌++◌, Bytes, IsByte, length, set, replicate, length-append, append_assoc, ◌==◌, holds_below,
  holds_at, All, arith,
}
use bre_utils.Prelude.Bits.{bit_or-shifted}
use bre_utils.Encoding.Base64.{symbol, index0, index1, index2, index3, encode_from, encode, pad}

-- The reference: RFC 4648 group by group, on numbers.
unfoldable pub group_text : Bytes → Bytes
group_text (a ∷ b ∷ c ∷ rest) =
    symbol (a / 4)
    ∷ symbol (a % 4 * 16 + b / 16)
    ∷ symbol (b % 16 * 4 + c / 64)
    ∷ symbol (c % 64)
    ∷ group_text rest
group_text (a ∷ b ∷ []) =
    symbol (a / 4) ∷ symbol (a % 4 * 16 + b / 16) ∷ symbol (b % 16 * 4) ∷ pad ∷ []
group_text (a ∷ []) = symbol (a / 4) ∷ symbol (a % 4 * 16) ∷ pad ∷ pad ∷ []
group_text [] = []

mask_table :
    holds_below 256 (λ c.
      (bit_and (c / 4) 0x3f == c / 4)
      && (bit_and c 0x3 == c % 4)
      && (bit_and (c / 16) 0xf == c / 16)
      && (bit_and c 0xf == c % 16)
      && (bit_and (c / 64) 0x3 == c / 64)
      && (bit_and c 0x3f == c % 64))
    ≡ true
unfolding holds_below
mask_table = refl

masks :
    (c : ℕ)
    → IsByte c
    → (bit_and (c / 4) 0x3f ≡ c / 4)
      × (bit_and c 0x3 ≡ c % 4)
      × (bit_and (c / 16) 0xf ≡ c / 16)
      × (bit_and c 0xf ≡ c % 16)
      × (bit_and (c / 64) 0x3 ≡ c / 64)
      × (bit_and c 0x3f ≡ c % 64)
masks c h = let t = holds_at 256 _ c mask_table h in ground arith

indices :
    (a b c : ℕ)
    → IsByte a
    → IsByte b
    → IsByte c
    → (index0 a ≡ a / 4)
      × (index1 a b ≡ a % 4 * 16 + b / 16)
      × (index2 b c ≡ b % 16 * 4 + c / 64)
      × (index3 c ≡ c % 64)
      × (bit_and a 0x3 * 2 ^ 4 ≡ a % 4 * 16)
      × (bit_and b 0xf * 2 ^ 2 ≡ b % 16 * 4)
unfolding index0 index1 index2 index3
indices a b c ha hb hc =
    let ma = masks a ha in
    let mb = masks b hb in
    let mc = masks c hc in
    (
      ma.0,
      rw (ma.1, mb.2) (bit_or-shifted 4 (a % 4) (b / 16) (omega arith)),
      rw (mb.3, mc.4) (bit_or-shifted 2 (b % 16) (c / 64) (omega arith)),
      mc.5,
      rw ma.1,
      rw mb.3,
    )

pub set-append :
    (pre xs : Bytes) (n i v : ℕ) → i ≡ length pre + n → set (pre ++ xs) i v ≡ pre ++ set xs n v
set-append [] xs n i v e = ap (λ k. set xs k v) (omega arith)
set-append (p ∷ pre) xs n zero v e = absurd (omega arith)
set-append (p ∷ pre) xs n (suc i) v e = ap (◌∷◌ p) (set-append pre xs n i v (omega arith))

-- The places of the result that a rest of the input fills.
abbrev places : Bytes → ℕ
places str = (length str + 2) / 3 * 4

encode_from-group_text :
    (str pre : Bytes) (i k : ℕ)
    → All IsByte str
    → i ≡ length pre
    → k ≡ places str
    → encode_from str i (pre ++ replicate k pad) ≡ pre ++ group_text str
unfolding encode_from group_text
encode_from-group_text [] pre i zero h e z = refl
encode_from-group_text [] pre i (suc k) h e z = absurd (omega arith)
encode_from-group_text (a ∷ []) pre i k h e z =
    let x = indices a 0 0 h.0 (omega arith) (omega arith) in
    rw (
      z,
      x.0,
      x.4,
      set-append pre (replicate 4 pad) 0 i (symbol (a / 4)) (omega arith),
      set-append pre _ 1 (i + 1) _ (omega arith),
    )
encode_from-group_text (a ∷ b ∷ []) pre i k h e z =
    let x = indices a b 0 h.0 h.1.0 (omega arith) in
    rw (
      z,
      x.0,
      x.1,
      x.5,
      set-append pre (replicate 4 pad) 0 i (symbol (a / 4)) (omega arith),
      set-append pre _ 1 (i + 1) _ (omega arith),
      set-append pre _ 2 (i + 2) _ (omega arith),
    )
encode_from-group_text (a ∷ b ∷ c ∷ str) pre i k h e z =
    let x = indices a b c h.0 h.1.0 h.1.1.0 in
    let more : k ≡ suc (suc (suc (suc (places str)))) = omega arith in
    let group : Bytes =
      symbol (a / 4)
      ∷ symbol (a % 4 * 16 + b / 16)
      ∷ symbol (b % 16 * 4 + c / 64)
      ∷ symbol (c % 64)
      ∷ [] in
    rw
      (
        more,
        x.0,
        x.1,
        x.2,
        x.3,
        set-append pre (replicate (suc (suc (suc (suc (places str))))) pad) 0 i (symbol (a / 4))
            (omega arith),
        set-append pre _ 1 (i + 1) _ (omega arith),
        set-append pre _ 2 (i + 2) _ (omega arith),
        set-append pre _ 3 (i + 3) _ (omega arith),
      )
      (ap (encode_from str (i + 4)) (sym (append_assoc pre group (replicate (places str) pad)))
        ∙ encode_from-group_text str (pre ++ group) (i + 4) (places str) h.1.1.1
            (omega (arith, length-append pre group)) refl
        ∙ append_assoc pre group (group_text str))

-- For a string of bytes, what `Encode` writes at computed places of a row of `=` is the text that
-- Base64 has group by group.
pub encode-group_text : (str : Bytes) → All IsByte str → encode str ≡ group_text str
unfolding encode
encode-group_text str h = encode_from-group_text str [] 0 (places str) h refl refl
