-- ===== src/Utf8.antt =====
-- Rust's UTF-8 conversions, which the key store and the fetcher rely on: `str::as_bytes` and
-- `String::from_utf8`. A `String` is the list of its Unicode scalar values, a byte is a number
-- below 256.
use polkadot_confidential_of.Base.{
  ℕ, zero, suc, ◌+◌, ◌-◌, ◌*◌, ◌/◌, ◌%◌, ◌≤◌, ◌<◌, Bool, true, false, ◌&&◌, ◌⊎◌, List, [], ◌∷◌,
  ◌++◌, Option, none, some, leb, ltb, if◌then◌else◌, ◌==◌,
}
pub mod RoundTrip
pub mod Soundness

-- A text as the list of its scalar values.
abbrev pub Str : Type 0
Str = List ℕ

abbrev pub Bytes : Type 0
Bytes = List ℕ

-- A Unicode scalar value: a code point that is no surrogate.
pub record IsScalar (c : ℕ) : Type 0 where
  pub in_range : c < 0x110000
  pub not_surrogate : (c < 0xD800) ⊎ (0xE000 ≤ c)

abbrev continuation : ℕ → ℕ
continuation c = 0x80 + c % 64

encode_char : ℕ → Bytes
encode_char c =
    if ltb c 0x80
    then c ∷ []
    else if ltb c 0x800
    then (0xC0 + c / 64) ∷ continuation c ∷ []
    else if ltb c 0x10000
    then (0xE0 + c / 4096) ∷ continuation (c / 64) ∷ continuation c ∷ []
    else (0xF0 + c / 262144) ∷ continuation (c / 4096) ∷ continuation (c / 64) ∷ continuation c ∷ []

-- `str::as_bytes`
unfoldable pub as_bytes : Str → Bytes
unfolding encode_char
as_bytes [] = []
as_bytes (c ∷ s) = encode_char c ++ as_bytes s

-- The decoder between two bytes: the continuation bytes still wanted, the value so far, and the
-- range that the next byte must lie in.
pub record Decoder : Type 0 where
  pub wanted : ℕ
  pub value : ℕ
  pub low : ℕ
  pub high : ℕ

abbrev start : Decoder
start = record { wanted = 0; value = 0; low = 0x80; high = 0xBF }

pub data Step : Type 0 where
  reject : Step
  more : Decoder → Step
  emit : ℕ → Step

abbrev lead : ℕ → ℕ → ℕ → ℕ → Step
lead wanted value low high =
    more (record { wanted = wanted; value = value; low = low; high = high })

-- A lead byte. The ranges rule out overlong forms, surrogates and values past 0x10FFFF.
lead_byte : ℕ → Step
lead_byte b =
    if ltb b 0x80
    then emit b
    else if ltb b 0xC2
    then reject
    else if ltb b 0xE0
    then lead 1 (b - 0xC0) 0x80 0xBF
    else if ltb b 0xF0
    then lead 2 (b - 0xE0) (if b == 0xE0 then 0xA0 else 0x80) (if b == 0xED then 0x9F else 0xBF)
    else if ltb b 0xF5
    then lead 3 (b - 0xF0) (if b == 0xF0 then 0x90 else 0x80) (if b == 0xF4 then 0x8F else 0xBF)
    else reject

-- A continuation byte, with `left` more to come.
next_byte : ℕ → ℕ → ℕ → ℕ → ℕ → Step
next_byte left value low high b =
    if leb low b && leb b high
    then (if left == 0
        then emit (value * 64 + (b - 0x80))
        else lead left (value * 64 + (b - 0x80)) 0x80 0xBF)
    else reject

-- By the number of bytes that are wanted.
read_byte : ℕ → ℕ → ℕ → ℕ → ℕ → Step
unfolding lead_byte next_byte
read_byte zero value low high b = lead_byte b
read_byte (suc left) value low high b = next_byte left value low high b

decode_byte : Decoder → ℕ → Step
unfolding read_byte
decode_byte d b = read_byte d.wanted d.value d.low d.high b

abbrev push : ℕ → Option Str → Option Str
push c none = none
push c (some s) = some (c ∷ s)

decode_from : Decoder → Bytes → Option Str
unfolding decode_byte
decode_from d [] = if d.wanted == 0 then some [] else none
decode_from d (b ∷ bs) = elim (decode_byte d b) [
  | reject ↦ none
  | more d' ↦ decode_from d' bs
  | emit c ↦ push c (decode_from start bs)
]

-- `String::from_utf8`, with its error forgotten as the callers do
unfoldable pub from_utf8 : Bytes → Option Str
unfolding decode_from
from_utf8 = decode_from start
