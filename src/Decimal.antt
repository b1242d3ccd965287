-- ===== src/Decimal.antt =====
-- The C library's decimal conversions, as zproto_example_zpl and zproto_example_new_zpl use them:
-- printf of "%ld" and "%zu", and strtoll in base 10. A long and a long long have 64 bits; a value
-- is its bit pattern, so 2 ^ 64 - 1 is -1.
pub mod RoundTrip
use zproto.Base.{
  ℕ, zero, suc, ◌+◌, ◌-◌, ◌*◌, ◌/◌, ◌%◌, ◌^◌, Bool, ◌&&◌, ◌||◌, Option, none, some, [], ◌∷◌, ◌++◌,
}
use zproto.Base.{ltb, leb, ◌==◌, if◌then◌else◌}
use zproto.CharArray.{Bytes}
use zproto.Hex.{is_space}

-- The digits of `n`; the first number bounds how many there are.
unfoldable pub print_digits : ℕ → ℕ → Bytes
print_digits zero n = []
print_digits (suc f) n =
    let front = print_digits f (n / 10) in (if ltb n 10 then [] else front) ++ (48 + n % 10) ∷ []

-- "%zu" of a number below 2 ^ 64, which has at most 20 digits.
unfoldable pub print_unsigned : ℕ → Bytes
print_unsigned n = print_digits 20 n

-- "%ld"
unfoldable pub print_long : ℕ → Bytes
print_long n = if ltb n (2 ^ 63) then print_unsigned n else b'-' ∷ print_unsigned (2 ^ 64 - n)

abbrev pub is_digit : ℕ → Bool
is_digit c = leb 48 c && leb c 57

-- The number that the digits in front spell behind `value`, and what follows them.
unfoldable pub scan_digits : Bytes → ℕ → ℕ × Bytes
scan_digits [] value = (value, [])
scan_digits (c ∷ s) value =
    let rest = scan_digits s (value * 10 + (c - 48)) in if is_digit c then rest else (value, c ∷ s)

-- At least one digit.
unfoldable pub magnitude : Bytes → Option (ℕ × Bytes)
magnitude [] = none
magnitude (c ∷ s) = if is_digit c then some (scan_digits (c ∷ s) 0) else none

unfoldable pub skip_spaces : Bytes → Bytes
skip_spaces [] = []
skip_spaces (c ∷ s) = let rest = skip_spaces s in if is_space c then rest else c ∷ s

-- Values out of range are LLONG_MAX and LLONG_MIN.
abbrev pub positive : ℕ × Bytes → ℕ × Bytes
positive (v, rest) = (if ltb v (2 ^ 63) then v else 2 ^ 63 - 1, rest)

abbrev pub negative : ℕ × Bytes → ℕ × Bytes
negative (v, rest) = ((2 ^ 64 - (if ltb v (2 ^ 63) then v else 2 ^ 63)) % 2 ^ 64, rest)

abbrev pub or_nothing : Option (ℕ × Bytes) → Bytes → (ℕ × Bytes → ℕ × Bytes) → ℕ × Bytes
or_nothing none s sign = (0, s)
or_nothing (some found) s sign = sign found

-- The optional sign and the digits in `t`; `s` is where the string begins.
unfoldable pub scan_signed : Bytes → Bytes → ℕ × Bytes
scan_signed s [] = (0, s)
scan_signed s (c ∷ t) =
    if c == b'-'
    then or_nothing (magnitude t) s negative
    else if c == b'+'
    then or_nothing (magnitude t) s positive
    else or_nothing (magnitude (c ∷ t)) s positive

-- strtoll (s, &es, 10): the value, and the string at `es`.
unfoldable pub strtoll : Bytes → ℕ × Bytes
strtoll s = scan_signed s (skip_spaces s)
