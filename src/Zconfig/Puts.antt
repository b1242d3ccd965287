-- ===== src/Zconfig/Puts.antt =====
-- Several zconfig_put on one item, one behind the other.
use zproto.Base.{
  ◌≡◌, ◌≢◌, refl, ◌∙◌, Option, none, some, Bool, true, false, not, ◌&&◌, List, [], ◌∷◌, ◌++◌,
  append_assoc, append-nil, arith,
}
use zproto.Base.{same_bytes, same_bytes_iff, lookup}
use zproto.CharArray.{Bytes, c_string}
use zproto.Czmq.{Czmq}
use zproto.Zconfig.{Zconfig, IsName, has_slash, is_nil}

abbrev pub is_none : {A : Type 0} → Option A → Bool
is_none none = true
is_none (some a) = false

abbrev pub is_name : Bytes → Bool
is_name n = not (has_slash n) && (not (is_nil n) && same_bytes (c_string n) n)

-- Each name is one that zconfig_put takes for a path of one name, and stands neither in `old` nor
-- before it in the list.
abbrev pub new_names : List (Bytes × Bytes) → List (Bytes × Bytes) → Bool
new_names old [] = true
new_names old ((n, v) ∷ rest) =
    is_name n && (is_none (lookup n old) && new_names (old ++ (n, c_string v) ∷ []) rest)

abbrev pub values : List (Bytes × Bytes) → List (Bytes × Bytes)
values [] = []
values ((n, v) ∷ rest) = (n, c_string v) ∷ values rest

is_name-IsName : (n : Bytes) → is_name n ≡ true → IsName n
is_name-IsName n h = ground (arith, same_bytes_iff (c_string n) n)

pub record NewNames (old : List (Bytes × Bytes)) (n v : Bytes) (rest : List (Bytes × Bytes))
    : Type 0 where
  pub name : IsName n
  pub absent : lookup n old ≡ none
  pub later : new_names (old ++ (n, c_string v) ∷ []) rest ≡ true

pub first_new :
    (old : List (Bytes × Bytes)) (n v : Bytes) (rest : List (Bytes × Bytes))
    → new_names old ((n, v) ∷ rest) ≡ true
    → NewNames old n v rest
first_new old n v rest h = record {
  name = is_name-IsName n (ground arith);
  absent = ground arith;
  later = ground arith;
}

module _ ⦃z : Czmq⦄ ⦃c : Zconfig z⦄ where
  -- The item is there, and has the same children as before.
  pub record Kept (t t' : c.Tree) (j : c.Item) : Type 0 where
    pub live : c.Live t' j
    pub entries : c.entries t' j ≡ c.entries t j
    pub locate :
        (m : Bytes) (i : c.Item)
        → c.zconfig_locate t j m ≡ some i
        → c.zconfig_locate t' j m ≡ some i

  pub Kept-trans : {t t' t'' : c.Tree} {j : c.Item} → Kept t t' j → Kept t' t'' j → Kept t t'' j
  Kept-trans p q = record {
    live = q.live;
    entries = q.entries ∙ p.entries;
    locate = λ m i e. q.locate m i (p.locate m i e);
  }

  unfoldable pub puts : c.Tree → c.Item → List (Bytes × Bytes) → c.Tree
  puts t i [] = t
  puts t i ((n, v) ∷ rest) = puts (c.zconfig_put t i n v) i rest

  pub puts-append :
      (l m : List (Bytes × Bytes)) (t : c.Tree) (i : c.Item)
      → puts t i (l ++ m) ≡ puts (puts t i l) i m
  unfolding puts
  puts-append [] m t i = refl
  puts-append ((n, v) ∷ l) m t i = puts-append l m (c.zconfig_put t i n v) i

  pub puts-Live :
      (l : List (Bytes × Bytes)) (t : c.Tree) (i j : c.Item) → c.Live t j → c.Live (puts t i l) j
  unfolding puts
  puts-Live [] t i j h = h
  puts-Live ((n, v) ∷ rest) t i j h = puts-Live rest _ i j (c.put-Live t i n v j h)

  pub puts-entries :
      (l : List (Bytes × Bytes)) (t : c.Tree) (i : c.Item)
      → c.Live t i
      → new_names (c.entries t i) l ≡ true
      → c.entries (puts t i l) i ≡ c.entries t i ++ values l
  unfolding puts
  puts-entries [] t i h k = rw append-nil refl
  puts-entries ((n, v) ∷ rest) t i h k =
      let f = first_new (c.entries t i) n v rest k in
      let e = c.put-entries t i n v h f.name f.absent in
      puts-entries rest (c.zconfig_put t i n v) i (c.put-Live t i n v i h) (rw e f.later)
      ∙ rw (e, append_assoc) refl

  pub puts-locate :
      (l : List (Bytes × Bytes)) (t : c.Tree) (i j child : c.Item) (m : Bytes)
      → c.Live t i
      → c.Live t j
      → c.zconfig_locate t j m ≡ some child
      → c.zconfig_locate (puts t i l) j m ≡ some child
  unfolding puts
  puts-locate [] t i j child m h k e = e
  puts-locate ((n, v) ∷ rest) t i j child m h k e =
      puts-locate rest _ i j child m (c.put-Live t i n v i h) (c.put-Live t i n v j k)
        (c.put-locate_kept t i n v j child m h k e)

  puts-other :
      (l old : List (Bytes × Bytes)) (t : c.Tree) (i j : c.Item)
      → c.Live t i
      → c.Live t j
      → j ≢ i
      → new_names old l ≡ true
      → c.entries (puts t i l) j ≡ c.entries t j
  unfolding puts
  puts-other [] old t i j h k d u = refl
  puts-other ((n, v) ∷ rest) old t i j h k d u =
      let f = first_new old n v rest u in
      puts-other rest _ _ i j (c.put-Live t i n v i h) (c.put-Live t i n v j k) d f.later
      ∙ c.put-other t i n v j h k f.name d

  -- Another item does not notice.
  pub puts-Kept :
      (l old : List (Bytes × Bytes)) (t : c.Tree) (i j : c.Item)
      → c.Live t i
      → c.Live t j
      → j ≢ i
      → new_names old l ≡ true
      → Kept t (puts t i l) j
  puts-Kept l old t i j h k d u = record {
    live = puts-Live l t i j k;
    entries = puts-other l old t i j h k d u;
    locate = λ m child e. puts-locate l t i j child m h k e;
  }

  -- zconfig_new keeps every item but the parent as it is.
  pub new-Kept :
      (t : c.Tree) (n : Bytes) (p : Option c.Item) (j : c.Item)
      → c.Live t j
      → p ≢ some j
      → Kept t (c.zconfig_new t n p).1 j
  new-Kept t n p j h d = record {
    live = (c.new-fresh t n p j h).0;
    entries = c.new-other t n p j h d;
    locate = λ m i e. c.new-locate_kept t n p j i m h e;
  }
