-- ===== src/Prelude/Hex.antt =====
-- encoding/hex: a text that EncodeToString wrote is read back.
use jit_access_broker.Prelude.{
  ℕ, ◌+◌, ◌*◌, ◌/◌, ◌%◌, ◌<◌, ◌≡◌, refl, ap, some, List, [], ◌∷◌, length, arith, hex_digit,
  hex_char, hex_encode, hex_decode,
}

-- The list is a list of bytes.
abbrev pub IsBytes : List ℕ → Type 0
IsBytes [] = Unit {0}
IsBytes (b ∷ bytes) = (b < 256) × IsBytes bytes

hex_digit-hex_char : (n : ℕ) → n < 16 → hex_digit (hex_char n) ≡ some n
hex_digit-hex_char n h = ground arith

halves : (b : ℕ) → b < 256 → (b / 16 < 16) × (b % 16 < 16) × ((b / 16) * 16 + b % 16 ≡ b)
halves b h = (omega arith, omega arith, omega arith)

-- DecodeString answers the bytes that EncodeToString was given.
pub hex_decode-hex_encode : (b : List ℕ) → IsBytes b → hex_decode (hex_encode b) ≡ some b
unfolding hex_decode hex_encode
hex_decode-hex_encode [] h = refl
hex_decode-hex_encode (b ∷ bytes) (small, h) =
    let (high, low, whole) = halves b small in
    rw
      (
        hex_digit-hex_char (b / 16) high,
        hex_digit-hex_char (b % 16) low,
        hex_decode-hex_encode bytes h,
      )
      (ap (λ c. some (c ∷ bytes)) whole)

pub length-hex_encode : (b : List ℕ) → length (hex_encode b) ≡ length b + length b
unfolding hex_encode
length-hex_encode [] = refl
length-hex_encode (b ∷ bytes) = omega (arith, length-hex_encode bytes)
