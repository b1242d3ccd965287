-- ===== src/Tests/Read.antt =====
-- zproto_example_new_zpl at a tree that was written by hand: a STRUCTURES message with a routing id.
use zproto.Base.{
  ℕ, ◌≡◌, refl, true, Bool-cases, inl, inr, some, [], ◌∷◌, All, replicate, ◌==◌, if◌then◌else◌,
  same_bytes, arith,
}
use mathlib.Core.Option
use mathlib.Core.Path.{subst}
use zproto.CharArray.{Bytes}
use zproto.CharArray.Laws.{IsByte}
use zproto.Hex.{hex_digit}
use zproto.Hex.Strings.{IsDigit}
use zproto.Zconfig.{codes}
use zproto.Example.View.{IsObject}
use zproto.NewZpl.{new_zpl}
use zproto.NewZpl.Safe.{Makes, Readable}
use zproto.NewZpl.AnyTree.{new_zpl-IsObject}
use zproto.Tests.Containers.{bare}
use zproto.Tests.Trees.{trees}
use zproto.Tests.Items.{Children, Store, find, get_value}

abbrev root_children : Children
root_children =
    (codes "message", codes "ZPROTO_EXAMPLE_STRUCTURES", 2)
    ∷ (codes "routing_id", codes "0aFF", 3)
    ∷ (codes "content", [], 1)
    ∷ []

abbrev content_children : Children
content_children = (codes "sequence", codes "65537", 4) ∷ []

abbrev written_store : Store
written_store = (5, λ i. if i == 0 then root_children else if i == 1 then content_children else [])

-- What holds of the values of a name.
abbrev Named : (Bytes → Type 0) → Bytes → Children → Type 0
Named P n [] = Unit {0}
Named P n ((m, w, j) ∷ rest) = (same_bytes m n ≡ true → P w) × Named P n rest

named-find :
    (P : Bytes → Type 0) (n : Bytes) (l : Children) (s : Bytes)
    → Named P n l
    → Option.map (λ (v, j). v) (find n l) ≡ some s
    → P s
named-find P n [] s h e = cc
named-find P n ((m, w, j) ∷ rest) s (h, k) e = elim (Bool-cases (same_bytes m n)) [
  | inl q ↦ (let first : some w ≡ some s = rw q at e in let same : w ≡ s = cc in subst P same (h q))
  | inr q ↦ named-find P n rest s k (rw q at e)
]

named-written :
    (P : Bytes → Type 0) (n : Bytes)
    → Named P n root_children
    → Named P n content_children
    → (i : ℕ) (s : Bytes) → get_value written_store i n ≡ some s
    → P s
named-written P n r k i s e = elim (Bool-cases (i == 0)) [
  | inl q ↦ named-find P n root_children s r (rw q at e)
  | inr q ↦ elim (Bool-cases (i == 1)) [
    | inl p ↦ named-find P n content_children s k (rw (q, p) at e)
    | inr p ↦ named-find P n [] s tt (rw (q, p) at e)
  ]
]

written-Readable : Readable written_store
unfolding same_bytes hex_digit
written-Readable = record {
  values = λ i n s e.
      named-written (All IsByte) n ((λ _. omega arith), ((λ _. omega arith), ((λ _. tt), tt)))
        ((λ _. omega arith), tt) i s e;
  routing_id =
      named-written (All IsDigit) (codes "routing_id")
        (
          (λ q. cc),
          ((λ q. ((_, refl), ((_, refl), ((_, refl), ((_, refl), tt))))), ((λ q. cc), tt)),
        )
        ((λ q. cc), tt);
  flags =
      named-written (All IsDigit) (codes "flags") ((λ q. cc), ((λ q. cc), ((λ q. cc), tt)))
        ((λ q. cc), tt);
  public_key =
      named-written (All IsDigit) (codes "public_key") ((λ q. cc), ((λ q. cc), ((λ q. cc), tt)))
        ((λ q. cc), tt);
  address =
      named-written (All IsDigit) (codes "address") ((λ q. cc), ((λ q. cc), ((λ q. cc), tt)))
        ((λ q. cc), tt);
  content =
      named-written (All IsDigit) (codes "content") ((λ q. cc), ((λ q. cc), ((λ q. tt), tt)))
        ((λ q. cc), tt);
}

abbrev kept : Bytes → Bytes → Bytes
kept cells mem = replicate 4 0

new_zpl-IsObject_example : Makes IsObject (new_zpl kept written_store 0)
new_zpl-IsObject_example =
    new_zpl-IsObject kept written_store 0 written-Readable (λ cells mem. (refl, omega arith))
