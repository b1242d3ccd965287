-- ===== src/Hex.antt =====
-- The hexadecimal macros of src/zproto_example.c, BYTES_FROM_STR and STR_FROM_BYTES, which the
-- configuration format uses.
pub mod RoundTrip
pub mod Strings
use zproto.Base.{
  ℕ, ◌+◌, ◌-◌, ◌*◌, ◌/◌, ◌%◌, ◌^◌, Bool, ◌&&◌, ◌||◌, Option, none, some, List, [], ◌∷◌,
}
use zproto.Base.{◌==◌, ltb, leb, if◌then◌else◌, length}
use zproto.CharArray.{Bytes, c_string, strlen}

-- The value of a hexadecimal digit.
unfoldable pub hex_digit : ℕ → Option ℕ
hex_digit c =
    if leb 48 c && leb c 57
    then some (c - 48)
    else if leb 97 c && leb c 102
    then some (c - 87)
    else if leb 65 c && leb c 70
    then some (c - 55)
    else none

-- isspace
abbrev pub is_space : ℕ → Bool
is_space c = (leb 9 c && leb c 13) || c == 32

abbrev pub negated : Option ℕ → Option ℕ
negated none = none
negated (some v) = some ((2 ^ 32 - v) % 2 ^ 32)

abbrev pub two_digits : Option ℕ → Option ℕ → Option ℕ
two_digits none low = none
two_digits (some high) none = some high
two_digits (some high) (some low) = some (high * 16 + low)

-- sscanf (buff, "%x", &uint) on the two characters of `buff`, neither of them NUL; `none` where
-- nothing is assigned. The prefix 0x with no digit behind it counts as that.
unfoldable pub scan_hex : ℕ → ℕ → Option ℕ
scan_hex c d =
    if is_space c || c == 43
    then hex_digit d
    else if c == 45
    then negated (hex_digit d)
    else if c == 48 && (d == 120 || d == 88)
    then none
    else two_digits (hex_digit c) (hex_digit d)

-- The macro assigns a block; returns NULL from the function that it stands in; ends the program by
-- its assert; or uses `uint` without a value, which is undefined.
pub data Parsed : Type 0 where
  bytes : Bytes → Parsed
  null aborted undefined : Parsed

-- assert (uint <= 0xff); mem [i] = uint; and what the rest of the loop does.
unfoldable pub store_byte : Option ℕ → Parsed → Parsed
store_byte none rest = undefined
store_byte (some uint) rest = if ltb 255 uint then aborted else elim rest [
  | bytes mem ↦ bytes (uint ∷ mem)
  | null ↦ null
  | aborted ↦ aborted
  | undefined ↦ undefined
]

-- The loop over the pairs of characters.
unfoldable pub parse_pairs : Bytes → Parsed
parse_pairs [] = bytes []
parse_pairs (c ∷ []) = bytes []
parse_pairs (c ∷ d ∷ str) = store_byte (scan_hex c d) (parse_pairs str)

-- BYTES_FROM_STR
unfoldable pub bytes_from_str : Option Bytes → Parsed
bytes_from_str none = null
bytes_from_str (some str) = if strlen str % 2 == 0 then parse_pairs (c_string str) else null

-- A digit as "%x" prints it.
unfoldable pub digit_char : ℕ → ℕ
digit_char v = if ltb v 10 then 48 + v else 87 + v

abbrev pub printed : ℕ → Option Bytes → Option Bytes
printed b none = none
printed b (some rest) = some (digit_char (b / 16) ∷ digit_char (b % 16) ∷ rest)

-- The loop of sprintf (aux, "%02x", mem [i]), which writes two characters and a NUL; `room` is the
-- number of bytes from `aux` to the end of the block, and a write past it is a fault.
unfoldable pub print_bytes : ℕ → Bytes → Option Bytes
print_bytes room [] = some []
print_bytes room (b ∷ mem) =
    let rest = print_bytes (room - 2) mem in if ltb room 3 then none else printed b rest

-- STR_FROM_BYTES: the C string in the block of 2 * len + 1 bytes.
unfoldable pub str_from_bytes : Bytes → Option Bytes
str_from_bytes mem = print_bytes (2 * length mem + 1) mem
