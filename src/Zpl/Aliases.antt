-- ===== src/Zpl/Aliases.antt =====
-- The keys "0", "1", … under which zproto_example_zpl puts the aliases.
use zproto.Base.{
  ℕ, ◌+◌, ◌^◌, ◌<◌, ◌≡◌, ◌≢◌, refl, sym, ap, ◌∙◌, none, true, false, Bool-cases, inl, inr, List, [],
  ◌∷◌, ◌++◌, All, All-append, length, same_bytes, same_bytes_iff, lookup, arith,
}
use zproto.CharArray.{Bytes, c_string}
use zproto.Decimal.{print_unsigned, magnitude}
use zproto.Decimal.RoundTrip.{
  magnitude-print_unsigned, c_string-print_unsigned, IsDigit, print_unsigned-IsDigit,
  print_unsigned-ne-nil,
}
use zproto.Zconfig.{has_slash, is_nil}
use zproto.Zconfig.Puts.{is_name, new_names}

abbrev pub alias_fields : ℕ → List Bytes → List (Bytes × Bytes)
alias_fields i [] = []
alias_fields i (alias ∷ rest) = (print_unsigned i, alias) ∷ alias_fields (i + 1) rest

print_unsigned_inj :
    (i j : ℕ) → i < 2 ^ 64 → j < 2 ^ 64 → print_unsigned i ≡ print_unsigned j → i ≡ j
print_unsigned_inj i j h k e =
    let same =
      sym (magnitude-print_unsigned i h) ∙ (ap magnitude e ∙ magnitude-print_unsigned j k) in
    cc

digits-has_slash : (s : Bytes) → All IsDigit s → has_slash s ≡ false
digits-has_slash [] h = refl
digits-has_slash (c ∷ s) h = ground (arith, digits-has_slash s h.1)

is_nil-false : (s : Bytes) → s ≢ [] → is_nil s ≡ false
is_nil-false [] h = absurd (h refl)
is_nil-false (c ∷ s) h = refl

print_unsigned-is_name : (i : ℕ) → is_name (print_unsigned i) ≡ true
print_unsigned-is_name i =
    let a = digits-has_slash (print_unsigned i) (print_unsigned-IsDigit i) in
    let b = is_nil-false (print_unsigned i) (print_unsigned-ne-nil i) in
    let d =
      (same_bytes_iff (c_string (print_unsigned i)) (print_unsigned i)).1
        (c_string-print_unsigned i) in
    rw (a, b, d) refl

-- All the keys are numbers below `i`.
abbrev Below : ℕ → List (Bytes × Bytes) → Type 0
Below i old = All (λ p. (j : ℕ) × (j < i) × (p.0 ≡ print_unsigned j)) old

lookup-Below :
    (i : ℕ) (old : List (Bytes × Bytes))
    → i < 2 ^ 64
    → Below i old
    → lookup (print_unsigned i) old ≡ none
unfolding lookup
lookup-Below i [] h k = refl
lookup-Below i ((n, v) ∷ old) h ((j, lt, e), k) =
    elim (Bool-cases (same_bytes n (print_unsigned i))) [
      | inl same ↦
          let equal = (same_bytes_iff n (print_unsigned i)).0 same in
          absurd (let twice = print_unsigned_inj i j h (omega arith) (sym equal ∙ e) in omega arith)
      | inr differ ↦ rw differ (lookup-Below i old h k)
    ]

Below-next : (i : ℕ) (old : List (Bytes × Bytes)) → Below i old → Below (i + 1) old
Below-next i [] h = tt
Below-next i (p ∷ old) ((j, lt, e), h) = ((j, omega arith, e), Below-next i old h)

alias_fields-new_behind :
    (l : List Bytes) (i : ℕ) (old : List (Bytes × Bytes))
    → i + length l < 2 ^ 64
    → Below i old
    → new_names old (alias_fields i l) ≡ true
alias_fields-new_behind [] i old h k = refl
alias_fields-new_behind (a ∷ l) i old h k =
    rw (print_unsigned-is_name i, lookup-Below i old (omega arith) k)
      (alias_fields-new_behind l (i + 1) (old ++ (print_unsigned i, c_string a) ∷ []) (omega arith)
        (All-append _ old ((print_unsigned i, c_string a) ∷ []) (Below-next i old k)
          ((i, omega arith, refl), tt)))

-- The keys of the aliases are names, and no two are the same.
pub alias_fields-new : (l : List Bytes) → length l < 2 ^ 64 → new_names [] (alias_fields 0 l) ≡ true
alias_fields-new l h = alias_fields-new_behind l 0 [] (omega arith) tt
