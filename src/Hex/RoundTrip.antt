-- ===== src/Hex/RoundTrip.antt =====
-- STR_FROM_BYTES stays within its block, and BYTES_FROM_STR reads back what it has written.
use zproto.Base.{
  ℕ, ◌+◌, ◌-◌, ◌*◌, ◌/◌, ◌%◌, ◌≤◌, ◌<◌, ◌≡◌, refl, ap, ◌∙◌, none, some, [], ◌∷◌, arith,
}
use zproto.Base.{◌⊎◌, false, ltb, ◌≢◌, length, All}
use zproto.CharArray.{Bytes, c_string, strlen}
use zproto.CharArray.Laws.{IsByte, IsText, c_string_text}
use zproto.Hex.{
  hex_digit, scan_hex, bytes, store_byte, parse_pairs, bytes_from_str, digit_char, print_bytes,
  str_from_bytes,
}

-- The characters that are printed.
pub hex : Bytes → Bytes
hex [] = []
hex (b ∷ mem) = digit_char (b / 16) ∷ digit_char (b % 16) ∷ hex mem

print_bytes-hex :
    (room : ℕ) (mem : Bytes) → 2 * length mem + 1 ≤ room → print_bytes room mem ≡ some (hex mem)
unfolding print_bytes hex
print_bytes-hex room [] h = refl
print_bytes-hex room (b ∷ mem) h = ground (arith, print_bytes-hex (room - 2) mem)

-- Where the printed digits stand among the characters.
digit_char-range :
    (v : ℕ)
    → v < 16
    → ((48 ≤ digit_char v) × (digit_char v < 58)) ⊎ ((97 ≤ digit_char v) × (digit_char v < 103))
unfolding digit_char
digit_char-range v h = ground arith

hex_digit-digit_char : (v : ℕ) → v < 16 → hex_digit (digit_char v) ≡ some v
unfolding hex_digit digit_char
hex_digit-digit_char v h = ground arith

scan_hex-digits :
    (high low : ℕ)
    → high < 16
    → low < 16
    → scan_hex (digit_char high) (digit_char low) ≡ some (high * 16 + low)
unfolding scan_hex
scan_hex-digits high low h l = ground (
  arith,
  digit_char-range high h,
  digit_char-range low l,
  hex_digit-digit_char high h,
  hex_digit-digit_char low l,
)

hex-IsText : (mem : Bytes) → All IsByte mem → IsText (hex mem)
unfolding hex
hex-IsText [] h = tt
hex-IsText (b ∷ mem) h =
    let high = digit_char-range (b / 16) (omega (arith, h.0)) in
    let low = digit_char-range (b % 16) (omega arith) in
    ((omega arith, omega arith), ((omega arith, omega arith), hex-IsText mem h.1))

length-hex : (mem : Bytes) → length (hex mem) ≡ 2 * length mem
unfolding hex
length-hex [] = refl
length-hex (b ∷ mem) = omega (arith, length-hex mem)

-- STR_FROM_BYTES prints every block.
pub str_from_bytes-hex : (mem : Bytes) → str_from_bytes mem ≡ some (hex mem)
unfolding str_from_bytes
str_from_bytes-hex mem = print_bytes-hex (2 * length mem + 1) mem (omega arith)

pub c_string-hex : (mem : Bytes) → All IsByte mem → c_string (hex mem) ≡ hex mem
c_string-hex mem h = c_string_text _ (hex-IsText mem h)

parse_pairs-hex : (mem : Bytes) → All IsByte mem → parse_pairs (hex mem) ≡ bytes mem
unfolding parse_pairs hex store_byte
parse_pairs-hex [] h = refl
parse_pairs-hex (b ∷ mem) h =
    let e : scan_hex (digit_char (b / 16)) (digit_char (b % 16)) ≡ some b =
      scan_hex-digits (b / 16) (b % 16) (omega (arith, h.0)) (omega arith)
      ∙ ap some (omega arith) in
    let byte : ltb 255 b ≡ false = ground (arith, h.0) in rw (e, byte, parse_pairs-hex mem h.1) refl

pub bytes_from_str-hex :
    (mem : Bytes) → All IsByte mem → bytes_from_str (some (hex mem)) ≡ bytes mem
unfolding bytes_from_str strlen
bytes_from_str-hex mem h =
    let even : length (hex mem) % 2 ≡ 0 = omega (arith, length-hex mem) in
    rw (c_string_text _ (hex-IsText mem h), even) (parse_pairs-hex mem h)

-- Every block of bytes: STR_FROM_BYTES does not write past the block that it allocates, and
-- BYTES_FROM_STR makes of the string the bytes that were there.
pub bytes_from_str-str_from_bytes :
    (mem : Bytes)
    → All IsByte mem
    → ((str_from_bytes mem) ≢ none) × (bytes_from_str (str_from_bytes mem) ≡ bytes mem)
bytes_from_str-str_from_bytes mem h =
    rw (str_from_bytes-hex mem) ((λ e. cc), bytes_from_str-hex mem h)
