-- ===== src/Tests/Items.antt =====
-- A store of configuration items: items are numbers, and each has the list of its children with
-- their names and values.
use zproto.Base.{
  ℕ, ◌+◌, ◌<◌, ◌≡◌, ◌≢◌, refl, sym, ap, ◌∙◌, Option, none, some, Bool-cases, inl, inr, List, [],
  ◌∷◌, ◌++◌, ◌==◌, ==_iff, if◌then◌else◌, lookup, same_bytes, same_bytes_iff, arith,
}
use mathlib.Core.List.{map, map-append}
use mathlib.Core.Option
use zproto.CharArray.{Bytes, c_string}
use zproto.Czmq.{IsCString}
use zproto.Zconfig.{IsName}
use zproto.Tests.Containers.{bare}

-- Name, value and number of each child.
abbrev pub Children : Type 0
Children = List (Bytes × Bytes × ℕ)

-- The next number, and the children of each item.
abbrev pub Store : Type 0
Store = ℕ × (ℕ → Children)

abbrev pub update : (ℕ → Children) → ℕ → Children → ℕ → Children
update f i l j = if j == i then l else f j

update_other : (f : ℕ → Children) (i : ℕ) (l : Children) (j : ℕ) → j ≢ i → update f i l j ≡ f j
update_other f i l j h = ground arith

update_self : (f : ℕ → Children) (i : ℕ) (l : Children) → update f i l i ≡ l
update_self f i l = ground arith

abbrev pub pair : Bytes × Bytes × ℕ → Bytes × Bytes
pair (n, v, i) = (n, v)

abbrev pub find : Bytes → Children → Option (Bytes × ℕ)
find n [] = none
find n ((m, v, i) ∷ rest) = if same_bytes m n then some (v, i) else find n rest

abbrev pub put_child : Children → Bytes → Bytes → ℕ → Children
put_child [] n v i = (n, v, i) ∷ []
put_child ((m, w, j) ∷ rest) n v i =
    if same_bytes m n then (m, v, j) ∷ rest else (m, w, j) ∷ put_child rest n v i

abbrev pub children_of : Store → ℕ → List (Bytes × Bytes)
children_of (next, f) i = map pair (f i)

abbrev pub new_child : Store → Bytes → Option ℕ → ℕ × Store
new_child (next, f) n none = (next, (next + 1, update f next []))
new_child (next, f) n (some p) =
    (next, (next + 1, update (update f p (f p ++ (n, [], next) ∷ [])) next []))

abbrev pub put_value : Store → ℕ → Bytes → Bytes → Store
put_value (next, f) i n v =
    (next + 1, update (update f next []) i (put_child (f i) n (c_string v) next))

abbrev pub locate_child : Store → ℕ → Bytes → Option ℕ
locate_child (next, f) i n = Option.map (λ (v, j). j) (find n (f i))

abbrev pub get_value : Store → ℕ → Bytes → Option Bytes
get_value (next, f) i n = Option.map (λ (v, j). v) (find n (f i))

abbrev pub Known : Store → ℕ → Type 0
Known (next, f) i = i < next

find-lookup :
    (n : Bytes) (l : Children) → Option.map (λ (v, j). v) (find n l) ≡ lookup n (map pair l)
unfolding lookup
find-lookup n [] = refl
find-lookup n ((m, v, i) ∷ rest) = ground (arith, find-lookup n rest)

pub get_value-children :
    (t : Store) (i : ℕ) (n : Bytes)
    → Known t i
    → IsName n
    → get_value t i n ≡ lookup n (children_of t i)
get_value-children (next, f) i n h k = find-lookup n (f i)

find-none : (n : Bytes) (l : Children) → lookup n (map pair l) ≡ none → find n l ≡ none
unfolding lookup
find-none n [] h = refl
find-none n ((m, v, i) ∷ rest) h = ground (arith, find-none n rest)

pub locate_child-children :
    (t : Store) (i : ℕ) (n : Bytes)
    → Known t i
    → IsName n
    → lookup n (children_of t i) ≡ none
    → locate_child t i n ≡ none
locate_child-children (next, f) i n h k e = ap (Option.map (λ (v, j). j)) (find-none n (f i) e)

pub new_child-Known :
    (t : Store) (n : Bytes) (p : Option ℕ) → Known (new_child t n p).1 (new_child t n p).0
new_child-Known (next, f) n none = omega arith
new_child-Known (next, f) n (some p) = omega arith

pub new_child-empty :
    (t : Store) (n : Bytes) (p : Option ℕ)
    → children_of (new_child t n p).1 (new_child t n p).0 ≡ []
new_child-empty (next, f) n none = ap (map pair) (update_self f next [])
new_child-empty (next, f) n (some p) =
    ap (map pair) (update_self (update f p (f p ++ (n, [], next) ∷ [])) next [])

pub new_child-fresh :
    (t : Store) (n : Bytes) (p : Option ℕ) (j : ℕ)
    → Known t j
    → Known (new_child t n p).1 j × (j ≢ (new_child t n p).0)
new_child-fresh (next, f) n none j h = (omega arith, λ e. omega arith)
new_child-fresh (next, f) n (some p) j h = (omega arith, λ e. omega arith)

parent_children :
    (next : ℕ) (f : ℕ → Children) (n : Bytes) (p : ℕ)
    → p < next
    → (new_child (next, f) n (some p)).1.1 p ≡ f p ++ (n, [], next) ∷ []
parent_children next f n p h = ground arith

pub new_child-parent :
    (t : Store) (n : Bytes) (p : ℕ)
    → Known t p
    → IsCString n
    → children_of (new_child t n (some p)).1 p ≡ children_of t p ++ (n, []) ∷ []
new_child-parent (next, f) n p h k =
    ap (map pair) (parent_children next f n p h) ∙ map-append pair (f p) ((n, [], next) ∷ [])

find-append : (n : Bytes) (l m : Children) → find n l ≡ none → find n (l ++ m) ≡ find n m
find-append n [] m h = refl
find-append n ((k, v, i) ∷ rest) m h = ground (arith, find-append n rest m)

find-kept :
    (n : Bytes) (l m : Children) (v : Bytes) (i : ℕ)
    → find n l ≡ some (v, i)
    → find n (l ++ m) ≡ some (v, i)
find-kept n [] m v i h = cc
find-kept n ((k, w, j) ∷ rest) m v i h = ground (arith, find-kept n rest m v i)

pub new_child-located :
    (t : Store) (n : Bytes) (p : ℕ)
    → Known t p
    → IsName n
    → lookup n (children_of t p) ≡ none
    → locate_child (new_child t n (some p)).1 p n ≡ some (new_child t n (some p)).0
new_child-located (next, f) n p h k e =
    ap (λ l. Option.map (λ (v, j). j) (find n l)) (parent_children next f n p h)
    ∙ (ap (Option.map (λ (v, j). j))
          (find-append n (f p) ((n, [], next) ∷ []) (find-none n (f p) e))
        ∙ rw ((same_bytes_iff n n).1 refl) refl)

located :
    (n : Bytes) (l : Children) (j : ℕ)
    → Option.map (λ (v, i). i) (find n l) ≡ some j
    → (v : Bytes) × (find n l ≡ some (v, j))
located n l j h = go (find n l) h
  where
    go :
        (o : Option (Bytes × ℕ))
        → Option.map (λ (v, i). i) o ≡ some j
        → (v : Bytes) × (o ≡ some (v, j))
    go none e = cc
    go (some (v, i)) e = (v, cc)

append-kept :
    (n : Bytes) (l m : Children) (j : ℕ)
    → Option.map (λ (v, i). i) (find n l) ≡ some j
    → Option.map (λ (v, i). i) (find n (l ++ m)) ≡ some j
append-kept n l m j h =
    let (v, e) = located n l j h in ap (Option.map (λ (v, i). i)) (find-kept n l m v j e)

update-kept :
    (f : ℕ → Children) (p j i : ℕ) (l : Children) (m : Bytes)
    → (Option.map (λ (v, c). c) (find m (f p)) ≡ some i
        → Option.map (λ (v, c). c) (find m l) ≡ some i)
    → Option.map (λ (v, c). c) (find m (f j)) ≡ some i
    → Option.map (λ (v, c). c) (find m (update f p l j)) ≡ some i
update-kept f p j i l m k e = elim (Bool-cases (j == p)) [
  | inl q ↦
      rw q (k (ap (λ x. Option.map (λ (v, c). c) (find m (f x))) (sym ((==_iff j p).0 q)) ∙ e))
  | inr q ↦ rw q e
]

other-kept :
    (f : ℕ → Children) (next j i : ℕ) (l : Children) (m : Bytes)
    → j < next
    → Option.map (λ (v, c). c) (find m (f j)) ≡ some i
    → Option.map (λ (v, c). c) (find m (update f next l j)) ≡ some i
other-kept f next j i l m h e =
    ap (λ x. Option.map (λ (v, c). c) (find m x))
      (update_other f next l j (λ q. omega (arith, q, h)))
    ∙ e

pub new_child-kept :
    (t : Store) (n : Bytes) (p : Option ℕ) (j i : ℕ) (m : Bytes)
    → Known t j
    → locate_child t j m ≡ some i
    → locate_child (new_child t n p).1 j m ≡ some i
new_child-kept (next, f) n none j i m h e = other-kept f next j i [] m h e
new_child-kept (next, f) n (some p) j i m h e =
    other-kept (update f p (f p ++ (n, [], next) ∷ [])) next j i [] m h
      (update-kept f p j i _ m (append-kept m (f p) ((n, [], next) ∷ []) i) e)

pub new_child-other :
    (t : Store) (n : Bytes) (p : Option ℕ) (j : ℕ)
    → Known t j
    → p ≢ some j
    → children_of (new_child t n p).1 j ≡ children_of t j
new_child-other (next, f) n none j h d = ap (map pair) (ground arith)
new_child-other (next, f) n (some p) j h d =
    let apart : j ≢ p = λ e. d (ap some (sym e)) in ap (map pair) (ground arith)

pub put_value-Known :
    (t : Store) (i : ℕ) (n v : Bytes) (j : ℕ) → Known t j → Known (put_value t i n v) j
put_value-Known (next, f) i n v j h = omega arith

put_child-new :
    (l : Children) (n v : Bytes) (i : ℕ)
    → lookup n (map pair l) ≡ none
    → put_child l n v i ≡ l ++ (n, v, i) ∷ []
unfolding lookup
put_child-new [] n v i h = refl
put_child-new ((m, w, j) ∷ rest) n v i h = ground (arith, put_child-new rest n v i)

pub put_value-children :
    (t : Store) (i : ℕ) (n v : Bytes)
    → Known t i
    → IsName n
    → lookup n (children_of t i) ≡ none
    → children_of (put_value t i n v) i ≡ children_of t i ++ (n, c_string v) ∷ []
put_value-children (next, f) i n v h k e =
    ap (map pair) (update_self (update f next []) i _ ∙ put_child-new (f i) n (c_string v) next e)
    ∙ map-append pair (f i) ((n, c_string v, next) ∷ [])

pub put_value-other :
    (t : Store) (i : ℕ) (n v : Bytes) (j : ℕ)
    → Known t i
    → Known t j
    → IsName n
    → j ≢ i
    → children_of (put_value t i n v) j ≡ children_of t j
put_value-other (next, f) i n v j h k nm d = ap (map pair) (ground arith)

find-put_child :
    (m : Bytes) (l : Children) (n v : Bytes) (i j : ℕ)
    → Option.map (λ (w, k). k) (find m l) ≡ some j
    → Option.map (λ (w, k). k) (find m (put_child l n v i)) ≡ some j
find-put_child m [] n v i j h = cc
find-put_child m ((a, w, b) ∷ rest) n v i j h = ground (arith, find-put_child m rest n v i j)

pub put_value-kept :
    (t : Store) (i : ℕ) (n v : Bytes) (j k : ℕ) (m : Bytes)
    → Known t i
    → Known t j
    → locate_child t j m ≡ some k
    → locate_child (put_value t i n v) j m ≡ some k
put_value-kept (next, f) i n v j k m h h' e =
    update-kept (update f next []) i j k _ m
      (λ q. find-put_child m (f i) n (c_string v) next k (
        ap (λ x. Option.map (λ (w, c). c) (find m x))
          (sym (update_other f next [] i (λ r. omega (arith, r, h))))
        ∙ q))
      (other-kept f next j k [] m h' e)
