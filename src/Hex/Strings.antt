-- ===== src/Hex/Strings.antt =====
-- BYTES_FROM_STR on strings from elsewhere, such as a configuration file.
use zproto.Base.{ℕ, zero, suc, ◌+◌, ◌*◌, ◌%◌, ◌<◌, ◌≡◌, some, [], ◌∷◌, arith}
use zproto.Base.{length, All, ltb, false}
use zproto.CharArray.{Bytes, strlen}
use zproto.CharArray.Laws.{IsByte, IsText, c_string_text}
use zproto.Hex.{
  hex_digit, scan_hex, Parsed, bytes, null, aborted, undefined, store_byte, parse_pairs,
  bytes_from_str,
}

-- A hexadecimal digit, in either case.
abbrev pub IsDigit : ℕ → Type 0
IsDigit c = (v : ℕ) × (hex_digit c ≡ some v)

-- The macro assigns a block of `n` bytes.
abbrev pub IsBlock : ℕ → Parsed → Type 0
IsBlock n (bytes mem) = (length mem ≡ n) × All IsByte mem
IsBlock n null = ⊥
IsBlock n aborted = ⊥
IsBlock n undefined = ⊥

hex_digit-small : (c v : ℕ) → hex_digit c ≡ some v → v < 16
unfolding hex_digit
hex_digit-small c v h = ground arith

pub IsDigit-IsText : (str : Bytes) → All IsDigit str → IsText str
unfolding hex_digit
IsDigit-IsText [] h = tt
IsDigit-IsText (c ∷ str) ((v, e), h) = (ground arith, IsDigit-IsText str h)

scan_hex-IsDigit :
    (c d v w : ℕ) → hex_digit c ≡ some v → hex_digit d ≡ some w → scan_hex c d ≡ some (v * 16 + w)
unfolding scan_hex hex_digit
scan_hex-IsDigit c d v w h k = ground arith

store_byte-IsBlock :
    (uint n : ℕ) (rest : Parsed)
    → uint < 256
    → IsBlock n rest
    → IsBlock (suc n) (store_byte (some uint) rest)
unfolding store_byte
store_byte-IsBlock uint n (bytes mem) h k =
    let byte : ltb 255 uint ≡ false = ground arith in rw byte (omega (arith, k.0), (h, k.1))
store_byte-IsBlock uint n null h k = elim k [ ]
store_byte-IsBlock uint n aborted h k = elim k [ ]
store_byte-IsBlock uint n undefined h k = elim k [ ]

parse_pairs-IsBlock :
    (n : ℕ) (str : Bytes) → length str ≡ 2 * n → All IsDigit str → IsBlock n (parse_pairs str)
unfolding parse_pairs
parse_pairs-IsBlock n [] e h = (omega arith, tt)
parse_pairs-IsBlock n (c ∷ []) e h = absurd (omega arith)
parse_pairs-IsBlock zero (c ∷ d ∷ str) e h = absurd (omega arith)
parse_pairs-IsBlock (suc n) (c ∷ d ∷ str) e ((v, p), ((w, q), h)) =
    let a = hex_digit-small c v p in
    let b = hex_digit-small d w q in
    rw (scan_hex-IsDigit c d v w p q) (
      store_byte-IsBlock (v * 16 + w) n (parse_pairs str) (omega arith)
        (parse_pairs-IsBlock n str (omega arith) h))

-- Of a string of hexadecimal digits BYTES_FROM_STR makes a block of half as many bytes, if their
-- number is even.
pub bytes_from_str-IsBlock :
    (n : ℕ) (str : Bytes)
    → length str ≡ 2 * n
    → All IsDigit str
    → IsBlock n (bytes_from_str (some str))
unfolding bytes_from_str strlen
bytes_from_str-IsBlock n str e h =
    let even : length str % 2 ≡ 0 = omega (arith, e) in
    rw (c_string_text str (IsDigit-IsText str h), even) (parse_pairs-IsBlock n str e h)
