-- ===== src/Decimal/RoundTrip.antt =====
-- strtoll reads back what "%ld" has printed, up to the end of the string.
use zproto.Base.{
  ℕ, zero, suc, ◌+◌, ◌-◌, ◌*◌, ◌/◌, ◌%◌, ◌^◌, ◌≤◌, ◌<◌, ◌≡◌, ◌≢◌, refl, ap, ◌∙◌, true, [], ◌∷◌,
  ◌++◌, arith, append_assoc, append-nil,
}
use zproto.Base.{ltb, Bool-cases, All, All-append, inl, inr, some}
use zproto.CharArray.{Bytes, c_string}
use zproto.CharArray.Laws.{IsText, c_string_text}
use zproto.Decimal.{
  print_digits, print_unsigned, print_long, scan_digits, magnitude, skip_spaces, scan_signed,
  strtoll,
}

-- 10 to the power of `f`.
abbrev pub power : ℕ → ℕ
power zero = 1
power (suc f) = 10 * power f

abbrev pub IsDigit : ℕ → Type 0
IsDigit c = (48 ≤ c) × (c ≤ 57)

print_digits-IsDigit : (f n : ℕ) → All IsDigit (print_digits f n)
unfolding print_digits
print_digits-IsDigit zero n = tt
print_digits-IsDigit (suc f) n = elim (Bool-cases (ltb n 10)) [
  | inl small ↦ rw small (omega arith)
  | inr large ↦ rw large (
      All-append IsDigit (print_digits f (n / 10)) ((48 + n % 10) ∷ [])
        (print_digits-IsDigit f (n / 10)) (omega arith))
]

append_last-ne-nil : (s : Bytes) (c : ℕ) → s ++ c ∷ [] ≢ []
append_last-ne-nil [] c h = cc
append_last-ne-nil (b ∷ s) c h = cc

pub print_digits-ne-nil : (f n : ℕ) → print_digits (suc f) n ≢ []
unfolding print_digits
print_digits-ne-nil f n = append_last-ne-nil _ (48 + n % 10)

scan_digits-digit :
    (c : ℕ) (s : Bytes) (v : ℕ)
    → IsDigit c
    → scan_digits (c ∷ s) v ≡ scan_digits s (v * 10 + (c - 48))
unfolding scan_digits
scan_digits-digit c s v h = ground arith

-- The digits of `n` in front of a text count as the value `n` behind which the text is read.
scan_digits-print_digits :
    (f n : ℕ) (tail : Bytes)
    → n < power (suc f)
    → scan_digits (print_digits (suc f) n ++ tail) 0 ≡ scan_digits tail n
unfolding print_digits
scan_digits-print_digits zero n tail h =
    let small : ltb n 10 ≡ true = ground arith in
    rw small
      (scan_digits-digit (48 + n % 10) tail 0 (omega arith) ∙ ap (scan_digits tail) (omega arith))
scan_digits-print_digits (suc f) n tail h = elim (Bool-cases (ltb n 10)) [
  | inl small ↦
      let below : n < 10 = ground arith in
      rw small
        (scan_digits-digit (48 + n % 10) tail 0 (omega arith) ∙ ap (scan_digits tail) (omega arith))
  | inr large ↦
      rw (large, append_assoc (print_digits (suc f) (n / 10)) ((48 + n % 10) ∷ []) tail)
        (scan_digits-print_digits f (n / 10) ((48 + n % 10) ∷ tail) (omega arith)
          ∙ (scan_digits-digit (48 + n % 10) tail (n / 10) (omega arith)
              ∙ ap (scan_digits tail) (omega arith)))
]

magnitude-digits : (s : Bytes) → s ≢ [] → All IsDigit s → magnitude s ≡ some (scan_digits s 0)
unfolding magnitude
magnitude-digits [] h k = absurd (h refl)
magnitude-digits (c ∷ s) h k = ground arith

pub magnitude-print_unsigned : (n : ℕ) → n < 2 ^ 64 → magnitude (print_unsigned n) ≡ some (n, [])
unfolding print_unsigned
magnitude-print_unsigned n h =
    magnitude-digits (print_digits 20 n) (print_digits-ne-nil 19 n) (print_digits-IsDigit 20 n)
    ∙ ap some (
        rw append-nil at (scan_digits-print_digits 19 n [] (omega arith))
        ∙ unfold scan_digits in refl)

scan_signed-digits :
    (s t : Bytes) (n : ℕ)
    → All IsDigit t
    → magnitude t ≡ some (n, [])
    → n < 2 ^ 63
    → scan_signed s t ≡ (n, [])
unfolding scan_signed
scan_signed-digits s [] n d h k = absurd (unfold magnitude in cc h)
scan_signed-digits s (c ∷ t) n d h k = ground arith

skip_spaces-digits : (s : Bytes) → All IsDigit s → skip_spaces s ≡ s
unfolding skip_spaces
skip_spaces-digits [] h = refl
skip_spaces-digits (c ∷ s) h = ground arith

scan_signed-minus :
    (n : ℕ) → 2 ^ 63 ≤ n → n < 2 ^ 64 → strtoll (b'-' ∷ print_unsigned (2 ^ 64 - n)) ≡ (n, [])
unfolding strtoll skip_spaces scan_signed
scan_signed-minus n h k = rw (magnitude-print_unsigned (2 ^ 64 - n) (omega arith)) (ground arith)

-- Every 64-bit pattern: strtoll reads the long that "%ld" has printed, to the end of the string.
pub strtoll-print_long : (n : ℕ) → n < 2 ^ 64 → strtoll (print_long n) ≡ (n, [])
unfolding print_long strtoll
strtoll-print_long n h = elim (Bool-cases (ltb n (2 ^ 63))) [
  | inl small ↦
      let d = print_digits-IsDigit 20 n in
      let below : n < 2 ^ 63 = ground arith in
      rw (small, skip_spaces-digits (print_unsigned n) (unfold print_unsigned in d))
        (scan_signed-digits _ _ n (unfold print_unsigned in d) (magnitude-print_unsigned n h) below)
  | inr large ↦ let above : 2 ^ 63 ≤ n = ground arith in rw large (scan_signed-minus n above h)
]

IsDigit-IsText : (s : Bytes) → All IsDigit s → IsText s
IsDigit-IsText [] h = tt
IsDigit-IsText (c ∷ s) h = (omega arith, IsDigit-IsText s h.1)

-- What is printed is a C string.
pub c_string-print_unsigned : (n : ℕ) → c_string (print_unsigned n) ≡ print_unsigned n
unfolding print_unsigned
c_string-print_unsigned n = c_string_text _ (IsDigit-IsText _ (print_digits-IsDigit 20 n))

pub c_string-print_long : (n : ℕ) → c_string (print_long n) ≡ print_long n
unfolding print_long
c_string-print_long n = elim (Bool-cases (ltb n (2 ^ 63))) [
  | inl small ↦ rw small (c_string-print_unsigned n)
  | inr large ↦ rw large (
      c_string_text (b'-' ∷ print_unsigned (2 ^ 64 - n)) (
        omega arith,
        unfold print_unsigned in IsDigit-IsText _ (print_digits-IsDigit 20 (2 ^ 64 - n)),
      ))
]

pub print_unsigned-IsDigit : (n : ℕ) → All IsDigit (print_unsigned n)
unfolding print_unsigned
print_unsigned-IsDigit n = print_digits-IsDigit 20 n

pub print_unsigned-ne-nil : (n : ℕ) → print_unsigned n ≢ []
unfolding print_unsigned
print_unsigned-ne-nil n = print_digits-ne-nil 19 n
