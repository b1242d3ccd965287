-- ===== src/NewZpl/Safe.antt =====
-- zproto_example_new_zpl on any tree of items: what its statements make, and that none of them is
-- undefined.
use zproto.Base.{
  ℕ, ◌/◌, ◌%◌, ◌^◌, ◌<◌, ◌≡◌, refl, inl, inr, false, Bool-cases, Option, none, some, [], ◌∷◌, All,
  length, replicate, arith, ◌==◌, ==_iff,
}
use zproto.CharArray.{Bytes, strlen}
use zproto.CharArray.Laws.{IsByte, IsArray, overwritten-IsArray, strncpy-zeros, c_string_text}
use zproto.Czmq.{Czmq}
use zproto.Zconfig.{Zconfig, codes}
use zproto.Hex.{Parsed, bytes_from_str}
use zproto.Hex.Strings.{IsDigit, IsBlock, IsDigit-IsText, bytes_from_str-IsBlock}
use zproto.Decimal.{strtoll, scan_signed, magnitude, positive, negative, or_nothing}
use zproto.NewZpl.{
  Created, created, null, aborted, undefined, ◌>>=◌, need, from_hex, whole, get_number, get_string,
  get_bytes,
}

-- The function returns NULL or an object with `P`; nothing ends the program and nothing is
-- undefined.
unfoldable pub Makes : {A : Type 0} → (A → Type 0) → Created A → Type 0
Makes P (created a) = P a
Makes P null = Unit {0}
Makes P aborted = ⊥
Makes P undefined = ⊥

pub Makes-then :
    {A B : Type 0} {P : A → Type 0} (Q : B → Type 0) (m : Created A) (f : A → Created B)
    → Makes P m
    → ((a : A) → P a → Makes Q (f a))
    → Makes Q (m >>= f)
unfolding Makes
Makes-then Q (created a) f h k = k a h
Makes-then Q null f h k = tt
Makes-then Q aborted f h k = absurd h
Makes-then Q undefined f h k = absurd h

pub Makes-created : {A : Type 0} (P : A → Type 0) (a : A) → P a → Makes P (created a)
unfolding Makes
Makes-created P a h = h

pub Makes-need : {A : Type 0} (o : Option A) → Makes (λ a. o ≡ some a) (need o)
unfolding Makes
Makes-need none = tt
Makes-need (some a) = refl

positive-small : (v : ℕ) (s : Bytes) → (positive (v, s)).0 < 2 ^ 64
positive-small v s = ground arith

negative-small : (v : ℕ) (s : Bytes) → (negative (v, s)).0 < 2 ^ 64
negative-small v s = omega arith

or_nothing-small :
    (o : Option (ℕ × Bytes)) (s : Bytes) (sign : ℕ × Bytes → ℕ × Bytes)
    → ((v : ℕ) (rest : Bytes) → (sign (v, rest)).0 < 2 ^ 64)
    → (or_nothing o s sign).0 < 2 ^ 64
or_nothing-small none s sign h = omega arith
or_nothing-small (some (v, rest)) s sign h = h v rest

scan_signed-small : (s t : Bytes) → (scan_signed s t).0 < 2 ^ 64
unfolding scan_signed
scan_signed-small s [] = omega arith
scan_signed-small s (c ∷ t) =
    let a = or_nothing-small (magnitude t) s negative negative-small in
    let b = or_nothing-small (magnitude t) s positive positive-small in
    let d = or_nothing-small (magnitude (c ∷ t)) s positive positive-small in
    ground (arith, a, b, d)

strtoll-small : (s : Bytes) → (strtoll s).0 < 2 ^ 64
unfolding strtoll
strtoll-small s = scan_signed-small s _

Makes-whole : (found : ℕ × Bytes) → found.0 < 2 ^ 64 → Makes (λ n. n < 2 ^ 64) (whole found)
unfolding Makes
Makes-whole (v, []) h = h
Makes-whole (v, c ∷ s) h = tt

Makes-IsBlock : (n : ℕ) (p : Parsed) → IsBlock n p → Makes (All IsByte) (from_hex p)
unfolding Makes
Makes-IsBlock n (Parsed.bytes mem) h = h.1
Makes-IsBlock n Parsed.null h = tt
Makes-IsBlock n Parsed.aborted h = h
Makes-IsBlock n Parsed.undefined h = h

Makes-odd :
    (str : Bytes)
    → All IsDigit str
    → (length str % 2 == 0) ≡ false
    → Makes (All IsByte) (from_hex (bytes_from_str (some str)))
unfolding Makes bytes_from_str strlen
Makes-odd str h odd = rw (c_string_text str (IsDigit-IsText str h), odd) tt

-- A block of hexadecimal digits: an odd number of them is refused.
pub Makes-hex :
    (str : Bytes) → All IsDigit str → Makes (All IsByte) (from_hex (bytes_from_str (some str)))
Makes-hex str h = elim (Bool-cases (length str % 2 == 0)) [
  | inl even ↦ Makes-IsBlock (length str / 2) _ (
      bytes_from_str-IsBlock (length str / 2) str
        (omega (arith, (==_iff (length str % 2) 0).0 even)) h)
  | inr odd ↦ Makes-odd str h odd
]

module _ ⦃z : Czmq⦄ ⦃c : Zconfig z⦄ where
  -- Every item of the name has hexadecimal digits for its value.
  abbrev pub HexItem : c.Tree → Bytes → Type 0
  HexItem t name = (i : c.Item) (s : Bytes) → c.zconfig_get t i name ≡ some s → All IsDigit s

  -- Values are bytes, and hexadecimal where the message holds octets.
  pub record Readable (t : c.Tree) : Type 0 where
    pub values : (i : c.Item) (name s : Bytes) → c.zconfig_get t i name ≡ some s → All IsByte s
    pub routing_id : HexItem t (codes "routing_id")
    pub flags : HexItem t (codes "flags")
    pub public_key : HexItem t (codes "public_key")
    pub address : HexItem t (codes "address")
    pub content : HexItem t (codes "content")

  module _ (t : c.Tree) (content : c.Item) (ok : Readable t) where
    pub Makes-number : (name : Bytes) → Makes (λ n. n < 2 ^ 64) (get_number t content name)
    unfolding get_number
    Makes-number name =
        Makes-then _ _ _ (Makes-need (c.zconfig_get t content name))
          (λ s e. Makes-whole (strtoll s) (strtoll-small s))

    pub Makes-string :
        (name cells : Bytes)
        → cells ≡ replicate 256 0
        → Makes IsArray (get_string t content name cells)
    unfolding get_string
    Makes-string name cells zeros =
        Makes-then _ _ _ (Makes-need (c.zconfig_get t content name)) (λ s e.
          rw (zeros, strncpy-zeros s)
            (Makes-created _ _ (overwritten-IsArray s (ok.values content name s e))))

    pub Makes-bytes :
        (name : Bytes) → HexItem t name → Makes (All IsByte) (get_bytes t content name)
    unfolding get_bytes
    Makes-bytes name h =
        Makes-then _ _ _ (Makes-need (c.zconfig_get t content name))
          (λ s e. Makes-hex s (h content s e))
