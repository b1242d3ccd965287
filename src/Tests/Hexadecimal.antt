-- ===== src/Tests/Hexadecimal.antt =====
-- The hexadecimal macros at concrete strings.
use zproto.Base.{◌≡◌, ◌≢◌, refl, none, some, [], ◌∷◌, arith}
use zproto.CharArray.{c_string, strlen}
use zproto.Hex.{
  hex_digit, scan_hex, store_byte, parse_pairs, digit_char, print_bytes, bytes, null,
  bytes_from_str, str_from_bytes,
}
use zproto.Hex.RoundTrip.{bytes_from_str-str_from_bytes}
use zproto.Hex.Strings.{IsBlock, bytes_from_str-IsBlock}

bytes_from_str-str_from_bytes_example :
    (str_from_bytes (98 ∷ 0 ∷ 255 ∷ []) ≢ none)
    × (bytes_from_str (str_from_bytes (98 ∷ 0 ∷ 255 ∷ [])) ≡ bytes (98 ∷ 0 ∷ 255 ∷ []))
bytes_from_str-str_from_bytes_example =
    bytes_from_str-str_from_bytes (98 ∷ 0 ∷ 255 ∷ []) (omega arith)

-- "7aFf"
bytes_from_str-IsBlock_example : IsBlock 2 (bytes_from_str (some (55 ∷ 97 ∷ 70 ∷ 102 ∷ [])))
unfolding hex_digit
bytes_from_str-IsBlock_example =
    bytes_from_str-IsBlock 2 (55 ∷ 97 ∷ 70 ∷ 102 ∷ []) refl
      ((7, refl), ((10, refl), ((15, refl), ((15, refl), tt))))

-- "7aF" has an odd length; " f" and "-0" are taken for numbers.
odd_string : bytes_from_str (some (55 ∷ 97 ∷ 70 ∷ [])) ≡ null
unfolding bytes_from_str strlen c_string
odd_string = refl

space_and_sign : bytes_from_str (some (32 ∷ 102 ∷ 45 ∷ 48 ∷ [])) ≡ bytes (15 ∷ 0 ∷ [])
unfolding bytes_from_str strlen c_string parse_pairs store_byte scan_hex hex_digit
space_and_sign = refl

printed_bytes : str_from_bytes (10 ∷ 255 ∷ []) ≡ some (48 ∷ 97 ∷ 102 ∷ 102 ∷ [])
unfolding str_from_bytes print_bytes digit_char
printed_bytes = refl
