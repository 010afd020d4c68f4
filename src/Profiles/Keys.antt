-- ===== src/Profiles/Keys.antt =====
-- The key of the profiles as the environment names it (db_secrets.rs), on its bytes. `b64_decode` is the
-- base64 library.
use snx_edge.Common.{
  ℕ, ◌+◌, ◌-◌, ◌*◌, ◌/◌, ◌%◌, ◌<◌, ◌≡◌, refl, ap, true, ◌&&◌, List, [], ◌∷◌, Option, none, some,
  Text, trim, length, leb, ltb, ◌==◌, all, All, arith, if◌then◌else◌,
}
use snx_edge.Errors.{Result, ok, err, internal}
use snx_edge.Profiles.Secrets.{is_some, and_then}

abbrev upper_nibble : ℕ → Option ℕ
upper_nibble b = if leb 65 b && leb b 70 then some (10 + b - 65) else none

abbrev lower_nibble : ℕ → Option ℕ
lower_nibble b = if leb 97 b && leb b 102 then some (10 + b - 97) else upper_nibble b

unfoldable pub hex_nibble : ℕ → Option ℕ
hex_nibble b = if leb 48 b && leb b 57 then some (b - 48) else lower_nibble b

-- `(hi << 4) | lo`: the low four bits of the first are clear.
abbrev join : Option ℕ → Option ℕ → Option (List ℕ) → Option (List ℕ)
join (some hi) (some lo) (some rest) = some ((hi * 16 + lo) ∷ rest)
join _ _ _ = none

unfoldable pub hex_decode : Text → Option (List ℕ)
hex_decode [] = some []
hex_decode (a ∷ []) = none
hex_decode (a ∷ b ∷ s) = join (hex_nibble a) (hex_nibble b) (hex_decode s)

abbrev or_hex : Option (List ℕ) → Result (List ℕ)
or_hex none = err internal
or_hex (some bytes) = ok bytes

abbrev or_base64 : Option (List ℕ) → Option (List ℕ) → Result (List ℕ)
or_base64 (some bytes) hex = ok bytes
or_base64 none hex = or_hex hex

abbrev pub key_length : ℕ
key_length = 32

module _ (b64_decode : Text → Option (List ℕ)) where
  abbrev pub key_bytes : Text → Result (List ℕ)
  key_bytes trimmed =
      if length trimmed == 64 && all (λ b. is_some (hex_nibble b)) trimmed
      then or_hex (hex_decode trimmed)
      else or_base64 (b64_decode trimmed) (hex_decode trimmed)

  abbrev pub check_length : List ℕ → Result (List ℕ)
  check_length bytes = if length bytes == key_length then ok bytes else err internal

  unfoldable pub decode_key : Text → Result (List ℕ)
  decode_key raw = and_then (key_bytes (trim raw)) check_length

-- Two digits for each byte, as `{:02x}` prints it.
abbrev pub hex_digit : ℕ → ℕ
hex_digit n = if ltb n 10 then 48 + n else 87 + n

abbrev pub hex_encode : List ℕ → Text
hex_encode [] = []
hex_encode (n ∷ bytes) = hex_digit (n / 16) ∷ hex_digit (n % 16) ∷ hex_encode bytes

abbrev pub AreBytes : List ℕ → Type 0
AreBytes bytes = All (λ n. n < 256) bytes

nibble-digit : (n : ℕ) → n < 16 → hex_nibble (hex_digit n) ≡ some n
unfolding hex_nibble
nibble-digit n h = ground arith

high : (n : ℕ) → n < 256 → n / 16 < 16
high n h = omega arith

low : (n : ℕ) → n % 16 < 16
low n = omega arith

hex_decode-encode : (bytes : List ℕ) → AreBytes bytes → hex_decode (hex_encode bytes) ≡ some bytes
unfolding hex_decode
hex_decode-encode [] h = refl
hex_decode-encode (n ∷ bytes) (small, rest) =
    rw
      (
        nibble-digit (n / 16) (high n small),
        nibble-digit (n % 16) (low n),
        hex_decode-encode bytes rest,
      )
      (ap (λ m. some (m ∷ bytes)) (whole n))
  where
    whole : (n : ℕ) → n / 16 * 16 + n % 16 ≡ n
    whole n = omega arith

hex_encode-digits :
    (bytes : List ℕ) → AreBytes bytes → all (λ b. is_some (hex_nibble b)) (hex_encode bytes) ≡ true
hex_encode-digits [] h = refl
hex_encode-digits (n ∷ bytes) (small, rest) =
    rw (nibble-digit (n / 16) (high n small), nibble-digit (n % 16) (low n))
      (hex_encode-digits bytes rest)

length-hex_encode : (bytes : List ℕ) → length (hex_encode bytes) ≡ 2 * length bytes
length-hex_encode [] = refl
length-hex_encode (n ∷ bytes) = omega (arith, length-hex_encode bytes)

-- A key that the environment gives as the 64 lower-case hexadecimal digits of 32 bytes, with white
-- space around them, is decoded to those bytes, whatever the base64 library makes of it.
pub decode_key-hex :
    (b64_decode : Text → Option (List ℕ)) (raw : Text) (bytes : List ℕ)
    → AreBytes bytes
    → length bytes ≡ 32
    → trim raw ≡ hex_encode bytes
    → decode_key b64_decode raw ≡ ok bytes
unfolding decode_key
decode_key-hex b64_decode raw bytes are size trimmed =
    rw
      (
        trimmed,
        hex_encode-digits bytes are,
        hex_decode-encode bytes are,
        length-hex_encode bytes,
        size,
        right,
      )
      refl
  where
    right : (length bytes == 32) ≡ true
    right = rw size refl
