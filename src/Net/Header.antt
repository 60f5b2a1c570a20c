-- ===== src/Net/Header.antt =====
-- breUtils/net/TCPHeader.hpp, `TCPHeader`, on a machine whose integers are little-endian.
use bre_utils.Prelude.{
  ℕ, zero, suc, ◌+◌, ◌*◌, ◌/◌, ◌%◌, ◌^◌, ◌<◌, ◌≡◌, refl, ap, ◌∙◌, Bool, true, false, not, [], ◌∷◌,
  ◌++◌, Bytes, codes, length, take, drop, replicate, starts_with, starts_with_lem, ltb,
  if◌then◌else◌, Bool-cases, inl, inr, take-append_length, drop-append_length, length-append,
  length-drop, arith,
}

abbrev pub header_size : ℕ
header_size = 32

abbrev pub magic : Bytes
magic = codes "BREZ"

pub record TcpHeader : Type 0 where
  pub content : Bytes
  pub file_size : ℕ

-- `TCPHeader()`
abbrev pub new_header : TcpHeader
new_header = record { content = magic ++ replicate 28 0; file_size = 0 }

-- The bytes of an unsigned number, the lowest first, and back.
unfoldable pub to_bytes : ℕ → ℕ → Bytes
to_bytes zero v = []
to_bytes (suc n) v = v % 256 ∷ to_bytes n (v / 256)

unfoldable pub of_bytes : Bytes → ℕ
of_bytes [] = 0
of_bytes (b ∷ bs) = b + 256 * of_bytes bs

unfoldable pub parse : Bytes → TcpHeader → Bool × TcpHeader
unfolding of_bytes
parse bytes h =
    if ltb (length bytes) header_size
    then (false, h)
    else if not (starts_with magic bytes)
    then (false, h)
    else (true, record { content = bytes; file_size = of_bytes (take 4 (drop 4 bytes)) })

unfoldable pub header_data_size : TcpHeader → ℕ
header_data_size h = length h.content

-- The header as it is sent in front of `size` bytes; four bytes are copied to the fifth place.
unfoldable pub header_data : ℕ → TcpHeader → Bytes × TcpHeader
unfolding to_bytes
header_data size h =
    let file_size = size % 2 ^ 32 in
    let content = take 4 h.content ++ (to_bytes 4 file_size ++ drop 8 h.content) in
    (content, record { content = content; file_size = file_size })

unfoldable pub reset : TcpHeader → TcpHeader
reset h = record { content = magic ++ drop 4 h.content; file_size = 0 }

-- A header that the peer accepts.
pub record IsHeader (h : TcpHeader) : Type 0 where
  pub marked : starts_with magic h.content ≡ true
  pub full : length h.content ≡ header_size

pub new_header-IsHeader : IsHeader new_header
unfolding starts_with
new_header-IsHeader = record { marked = refl; full = refl }

starts_with-append : (p rest : Bytes) → starts_with p (p ++ rest) ≡ true
unfolding starts_with
starts_with-append [] rest = refl
starts_with-append (c ∷ p) rest = ground (arith, starts_with-append p rest)

length-to_bytes : (v : ℕ) → 4 ≡ length (to_bytes 4 v)
unfolding to_bytes
length-to_bytes v = refl

to_bytes_fits : (v : ℕ) → v < 2 ^ 32 → of_bytes (to_bytes 4 v) ≡ v
unfolding of_bytes to_bytes
to_bytes_fits v h = omega arith

take-magic : (h : TcpHeader) → IsHeader h → take 4 h.content ≡ magic
take-magic h v =
    ap (take 4) (starts_with_lem magic h.content v.marked)
    ∙ take-append_length magic (drop 4 h.content) 4 refl

-- The bytes of a size, and what follows them.
abbrev sized : ℕ → TcpHeader → Bytes
sized v h = to_bytes 4 v ++ drop 8 h.content

length-sized : (v : ℕ) (h : TcpHeader) → IsHeader h → length (sized v h) ≡ 28
unfolding to_bytes
length-sized v h i = omega (arith, i.full, length-drop 8 h.content)

header_data_lem :
    (size : ℕ) (h : TcpHeader)
    → IsHeader h
    → header_data size h ≡ (
      magic ++ sized (size % 2 ^ 32) h,
      record { content = magic ++ sized (size % 2 ^ 32) h; file_size = size % 2 ^ 32 },
    )
unfolding header_data
header_data_lem size h v =
    ap
      (λ front. (
        front ++ sized (size % 2 ^ 32) h,
        record { content = front ++ sized (size % 2 ^ 32) h; file_size = size % 2 ^ 32 },
      ))
      (take-magic h v)

parse-sized :
    (v : ℕ) (h other : TcpHeader)
    → IsHeader h
    → v < 2 ^ 32
    → parse (magic ++ sized v h) other
      ≡ (true, record { content = magic ++ sized v h; file_size = v })
unfolding parse
parse-sized v h other i fits =
    let full : length (magic ++ sized v h) ≡ 32 =
      omega (arith, length-append magic (sized v h), length-sized v h i) in
    let size : of_bytes (take 4 (drop 4 (magic ++ sized v h))) ≡ v =
      ap (λ t. of_bytes (take 4 t)) (drop-append_length magic (sized v h) 4 refl)
      ∙ ap of_bytes (take-append_length (to_bytes 4 v) (drop 8 h.content) 4 (length-to_bytes v))
      ∙ to_bytes_fits v fits in
    rw (full, starts_with-append magic (sized v h))
      (ap (λ n. (true, record { content = magic ++ sized v h; file_size = n })) size)

-- What `GetHeaderData` makes of a size below 2 ^ 32 `Parse` accepts, whatever header it parses into,
-- and then has the very members of the header that was sent.
pub parse-header_data :
    (size : ℕ) (h other : TcpHeader)
    → IsHeader h
    → size < 2 ^ 32
    → parse (header_data size h).0 other ≡ (true, (header_data size h).1)
parse-header_data size h other v fits =
    let whole : size % 2 ^ 32 ≡ size = omega arith in
    rw (header_data_lem size h v, whole) (parse-sized size h other v fits)

pub header_data-IsHeader : (size : ℕ) (h : TcpHeader) → IsHeader h → IsHeader (header_data size h).1
header_data-IsHeader size h v =
    let v' = size % 2 ^ 32 in
    rw (header_data_lem size h v) (record {
      marked = starts_with-append magic (sized v' h);
      full = omega (arith, length-append magic (sized v' h), length-sized v' h v);
    })

-- `Parse` of a block of the size of a header keeps the header one that the peer accepts.
pub parse-IsHeader :
    (bytes : Bytes) (h : TcpHeader)
    → length bytes ≡ header_size
    → IsHeader h
    → IsHeader (parse bytes h).1
unfolding parse
parse-IsHeader bytes h full v = elim (Bool-cases (starts_with magic bytes)) [
  | inl marked ↦ rw (full, marked) (record { marked = marked; full = full })
  | inr other ↦ rw (full, other) v
]

pub length-header_data :
    (size : ℕ) (h : TcpHeader) → IsHeader h → length (header_data size h).0 ≡ header_size
length-header_data size h v =
    rw (header_data_lem size h v) (
      omega
        (arith, length-append magic (sized (size % 2 ^ 32) h), length-sized (size % 2 ^ 32) h v))
