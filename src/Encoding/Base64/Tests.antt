-- ===== src/Encoding/Base64/Tests.antt =====
-- Runs of `Base64`, and the theorems at inputs that meet their hypotheses.
use bre_utils.Prelude.{◌≡◌, refl, [], ◌∷◌, codes, find?, arith, ok, err}
use bre_utils.Encoding.Base64.{length_error, encode, decode, decode_from, lookup, has, round}
use bre_utils.Encoding.Base64.Groups.{group_text, encode-group_text}
use bre_utils.Encoding.Base64.RoundTrip.{decode-encode, stray}

encode_texts :
    (encode (codes "Man") ≡ codes "TWFu")
    × (encode (codes "Ma") ≡ codes "TWE=")
    × (encode (codes "M") ≡ codes "TQ==")
unfolding encode
encode_texts = (refl, refl, refl)

decode_text : decode (codes "TWFuTQ==") ≡ ok (record { text = codes "ManM"; overrun = 1 })
unfolding decode decode_from lookup find? has round
decode_text = refl

-- With one `=` the last round writes a zero at the place behind its result, which is allowed.
decode_one_pad : decode (codes "TWFuTWE=") ≡ ok (record { text = codes "ManMa"; overrun = 0 })
unfolding decode decode_from lookup find? has round
decode_one_pad = refl

-- A lone `=` asks for a string of negative length.
decode_short : decode (codes "=") ≡ err length_error
unfolding decode find? has
decode_short = refl

encode-group_text_example : encode (0 ∷ 255 ∷ 128 ∷ 7 ∷ []) ≡ group_text (0 ∷ 255 ∷ 128 ∷ 7 ∷ [])
encode-group_text_example = encode-group_text (0 ∷ 255 ∷ 128 ∷ 7 ∷ []) (omega arith)

decode-encode_example :
    decode (encode (0 ∷ 255 ∷ 128 ∷ 7 ∷ []))
    ≡ ok (record { text = 0 ∷ 255 ∷ 128 ∷ 7 ∷ []; overrun = stray 4 })
decode-encode_example = decode-encode (0 ∷ 255 ∷ 128 ∷ 7 ∷ []) (omega arith)
