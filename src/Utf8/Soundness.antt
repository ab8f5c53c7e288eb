-- ===== src/Utf8/Soundness.antt =====
-- What `from_utf8` accepts is exactly the encoding of the text that it gives.
use polkadot_confidential_of.Base.{
  ℕ, ◌+◌, ◌/◌, ◌≤◌, ◌<◌, ◌≡◌, ◌⊎◌, refl, [], ◌∷◌, ◌++◌, append_assoc, Option, none, some, arith,
  All, ltb, ◌==◌, if◌then◌else◌, Bool-cases, inl, inr, zero, suc,
}
use polkadot_confidential_of.Utf8.{
  Str, Bytes, IsScalar, encode_char, as_bytes, Decoder, Step, reject, more, emit, start, push,
  lead_byte, next_byte, read_byte, decode_byte, decode_from, from_utf8, continuation,
}

-- The bytes of the unfinished character: the value tells how many they are.
abbrev prefix : ℕ → ℕ → Bytes
prefix zero v = []
prefix (suc zero) v =
    if ltb v 32
    then (0xC0 + v) ∷ []
    else if ltb v 1024
    then (0xE0 + v / 64) ∷ continuation v ∷ []
    else (0xF0 + v / 4096) ∷ continuation (v / 64) ∷ continuation v ∷ []
prefix (suc (suc zero)) v =
    if ltb v 16 then (0xE0 + v) ∷ [] else (0xF0 + v / 64) ∷ continuation v ∷ []
prefix (suc (suc (suc n))) v = (0xF0 + v) ∷ []

-- The bounds on the value and on the next byte that the decoder keeps.
abbrev Fits : ℕ → ℕ → ℕ → ℕ → Type 0
Fits zero v lo hi = Unit
Fits (suc zero) v lo hi =
    (2 ≤ v) × (v < 17408) × ((v < 864) ⊎ (896 ≤ v)) × (lo ≡ 0x80) × (hi ≡ 0xBF)
Fits (suc (suc zero)) v lo hi =
    (v < 272) × (lo ≡ (if v == 0 then 0xA0 else 0x80)) × (hi ≡ (if v == 13 then 0x9F else 0xBF))
Fits (suc (suc (suc zero))) v lo hi =
    (v < 5) × (lo ≡ (if v == 0 then 0x90 else 0x80)) × (hi ≡ (if v == 4 then 0x8F else 0xBF))
Fits (suc (suc (suc (suc n)))) v lo hi = ⊥

abbrev IsReached : Decoder → Type 0
IsReached d = Fits d.wanted d.value d.low d.high

abbrev spent : Decoder → Bytes
spent d = prefix d.wanted d.value

-- What a step must do: it extends the bytes of the character, or completes it.
abbrev Extends : Bytes → Step → Type 0
Extends p reject = Unit
Extends p (more d) = IsReached d × (spent d ≡ p)
Extends p (emit c) = IsScalar c × (encode_char c ≡ p)

lead_byte-Extends : (b : ℕ) → Extends (b ∷ []) (lead_byte b)
unfolding lead_byte encode_char
lead_byte-Extends b = ground arith

next_byte-Extends :
    (left v lo hi b : ℕ)
    → Fits (suc left) v lo hi
    → Extends (prefix (suc left) v ++ b ∷ []) (next_byte left v lo hi b)
unfolding next_byte encode_char
next_byte-Extends zero v lo hi b h = elim (Bool-cases (ltb v 32)) [
  | inl two ↦ rw two (ground arith)
  | inr longer ↦ elim (Bool-cases (ltb v 1024)) [
    | inl three ↦ rw (longer, three) (ground arith)
    | inr four ↦ rw (longer, four) (ground arith)
  ]
]
next_byte-Extends (suc zero) v lo hi b h = ground arith
next_byte-Extends (suc (suc zero)) v lo hi b h = ground arith
next_byte-Extends (suc (suc (suc n))) v lo hi b h = absurd h

read_byte-Extends :
    (n v lo hi b : ℕ) → Fits n v lo hi → Extends (prefix n v ++ b ∷ []) (read_byte n v lo hi b)
unfolding read_byte
read_byte-Extends zero v lo hi b h = lead_byte-Extends b
read_byte-Extends (suc n) v lo hi b h = next_byte-Extends n v lo hi b h

-- A text whose bytes are those already spent and the ones to come.
abbrev Encodes : Bytes → Str → Type 0
Encodes bs s = All IsScalar s × (as_bytes s ≡ bs)

push-eq-some :
    (c : ℕ) (o : Option Str) (s : Str) → push c o ≡ some s → (t : Str) × (o ≡ some t) × (c ∷ t ≡ s)
push-eq-some c none s e = cc
push-eq-some c (some t) s e = (t, refl, cc)

-- The end of the input is accepted between two characters only.
end-Encodes :
    (n v : ℕ) (s : Str) → (if n == 0 then some [] else none) ≡ some s → Encodes (prefix n v ++ []) s
unfolding as_bytes
end-Encodes zero v [] e = (tt, refl)
end-Encodes zero v (c ∷ s) e = cc
end-Encodes (suc n) v s e = ground arith

-- By the step taken at a byte, from the fact for the rest.
Extends-Encodes :
    (p bs : Bytes) (st : Step) (s : Str)
    → Extends p st
    → ((d : Decoder) (t : Str)
        → IsReached d
        → decode_from d bs ≡ some t
        → Encodes (spent d ++ bs) t)
    → elim st [ reject ↦ none | more d ↦ decode_from d bs | emit c ↦ push c (decode_from start bs) ]
      ≡ some s
    → Encodes (p ++ bs) s
unfolding as_bytes
Extends-Encodes p bs reject s h rest e = cc
Extends-Encodes p bs (more d) s h rest e = rw (← h.1) (rest d s h.0 e)
Extends-Encodes p bs (emit c) s h rest e =
    let (t, decoded, same) = push-eq-some c (decode_from start bs) s e in
    let (valid, encoded) = rest start t tt decoded in
    rw (← same) ((h.0, valid), rw (h.1, encoded) refl)

decode_from-Encodes :
    (bs : Bytes) (d : Decoder) (s : Str)
    → IsReached d
    → decode_from d bs ≡ some s
    → Encodes (spent d ++ bs) s
unfolding decode_from decode_byte
decode_from-Encodes [] d s h e = end-Encodes d.wanted d.value s e
decode_from-Encodes (b ∷ bs) d s h e = rw (append_assoc (spent d) (b ∷ []) bs) at (
    Extends-Encodes (spent d ++ b ∷ []) bs (decode_byte d b) s
      (read_byte-Extends d.wanted d.value d.low d.high b h) (decode_from-Encodes bs) e)

-- Bytes that decode are the encoding of the text that they decode to, which is valid.
pub from_utf8-Encodes :
    (bs : Bytes) (s : Str) → from_utf8 bs ≡ some s → All IsScalar s × (as_bytes s ≡ bs)
unfolding from_utf8
from_utf8-Encodes bs s e = decode_from-Encodes bs start s tt e
