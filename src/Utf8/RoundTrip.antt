-- ===== src/Utf8/RoundTrip.antt =====
-- `from_utf8` is the inverse of `as_bytes`.
use polkadot_confidential_of.Base.{ℕ, ◌≡◌, refl, ap, ◌∙◌, List, [], ◌∷◌, ◌++◌, some, arith, All}
use polkadot_confidential_of.Utf8.{
  Str, IsScalar, encode_char, as_bytes, start, push, decode_byte, decode_from, from_utf8,
}

-- The bytes of one character are read back as that character, whatever follows.
decode_from-encode_char :
    (c : ℕ) (rest : List ℕ)
    → IsScalar c
    → decode_from start (encode_char c ++ rest) ≡ push c (decode_from start rest)
unfolding decode_from decode_byte encode_char
decode_from-encode_char c rest h = ground arith

-- Encoding a text and decoding its bytes gives the text back.
pub from_utf8-as_bytes : (s : Str) → All IsScalar s → from_utf8 (as_bytes s) ≡ some s
unfolding as_bytes from_utf8
from_utf8-as_bytes [] h = refl
from_utf8-as_bytes (c ∷ s) h =
    decode_from-encode_char c (as_bytes s) h.0 ∙ ap (push c) (from_utf8-as_bytes s h.1)

-- Two texts with the same bytes are one.
pub as_bytes_injective :
    (s t : Str) → All IsScalar s → All IsScalar t → as_bytes s ≡ as_bytes t → s ≡ t
as_bytes_injective s t hs ht e = cc (from_utf8-as_bytes s hs, from_utf8-as_bytes t ht)
