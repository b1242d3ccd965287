-- ===== src/SelfTest/Structures.antt =====
-- The STRUCTURES message of zproto_example_test.
use zproto.Base.{
  ℕ, zero, suc, ◌≡◌, refl, ap, ◌∙◌, Option, none, some, List, [], ◌∷◌, ◌++◌, arith, same_bytes,
  lookup,
}
use zproto.CharArray.{Bytes, c_string}
use zproto.Czmq.{Czmq}
use zproto.Zconfig.{Zconfig, codes}
use zproto.Example.{Example}
use zproto.Example.View.{
  IsObject, Message, structures, message, message_as, alias_list, header_list,
}
use zproto.Encode.Image.{image, structures_image}
use zproto.Access.Numbers
use zproto.Access.Owned
use zproto.SelfTest.{Inspect, World, message_as-unknown}
use zproto.SelfTest.Steps.{three_aliases, one_header, set_structures, check_structures}

abbrev pub said_aliases : List Bytes
said_aliases = codes "First alias" ∷ codes "Second alias" ∷ codes "Third alias" ∷ []

abbrev pub said_headers : List (Bytes × Bytes)
said_headers = (codes "endpoint", codes "tcp://localhost:5665") ∷ []

abbrev pub said_structures : Message
said_structures = structures 123 said_aliases (λ key. lookup key said_headers)

module _ ⦃z : Czmq⦄ where
  abbrev pub structures_set : Example z → Example z
  structures_set s = record s {
    id = 2;
    sequence = 123;
    aliases = some three_aliases;
    headers = some one_header;
  }

  -- zproto_example_get_aliases, zproto_example_get_headers
  abbrev pub taken : Example z → Example z
  taken s = record s { aliases = none; headers = none }

  pub taken-IsObject : (s : Example z) → IsObject s → IsObject (taken s)
  taken-IsObject s o = assumption

  pub structures_set-IsObject : (s : Example z) → IsObject s → IsObject (structures_set s)
  structures_set-IsObject s o = record {
    id = omega arith;
    sequence = omega arith;
    level = o.level;
    event = o.event;
    node = o.node;
    peer = o.peer;
    time = o.time;
    host = o.host;
    flags = o.flags;
    flag_bytes = o.flag_bytes;
    client_forename = o.client_forename;
    client_surname = o.client_surname;
    client_mobile = o.client_mobile;
    client_email = o.client_email;
    supplier_forename = o.supplier_forename;
    supplier_surname = o.supplier_surname;
    supplier_mobile = o.supplier_mobile;
    supplier_email = o.supplier_email;
  }

  pub structures_set-image : (s t : Example z) → image (structures_set s) ≡ image (structures_set t)
  unfolding image structures_image
  structures_set-image s t = refl

  pub three_aliases-items : z.zlist_items three_aliases ≡ said_aliases
  unfolding c_string
  three_aliases-items =
      z.items-append _ _
      ∙ ap (λ l. l ++ codes "Third alias" ∷ [])
          (z.items-append _ _
            ∙ ap (λ l. l ++ codes "Second alias" ∷ [])
                (z.items-append _ _ ∙ ap (λ l. l ++ codes "First alias" ∷ []) z.items-new))

  structures_inv :
      (n : ℕ) (s : Example z)
      → message_as n s ≡ said_structures
      → (s.sequence ≡ 123)
        × (alias_list s.aliases ≡ said_aliases)
        × (◌≡◌ {A = Bytes → Option Bytes}
            (λ key. lookup key (header_list s.headers))
            (λ key. lookup key said_headers))
  structures_inv zero s e = absurd (cc)
  structures_inv (suc zero) s e = absurd (cc)
  structures_inv (suc (suc zero)) s e = (cc, cc, cc)
  structures_inv (suc (suc (suc zero))) s e = absurd (cc)
  structures_inv (suc (suc (suc (suc zero)))) s e = absurd (cc)
  structures_inv (suc (suc (suc (suc (suc n))))) s e = let h = message_as-unknown n s in absurd (cc)

  aliases-some :
      (o : Option z.ZList)
      → alias_list o ≡ said_aliases
      → (list : z.ZList) × (o ≡ some list) × (z.zlist_items list ≡ said_aliases)
  aliases-some none e = absurd (cc)
  aliases-some (some list) e = (list, refl, e)

  headers-some :
      (o : Option z.ZHash)
      → lookup (codes "endpoint") (header_list o) ≡ some (codes "tcp://localhost:5665")
      → (hash : z.ZHash) × (o ≡ some hash)
        × (z.zhash_lookup hash (codes "endpoint") ≡ some (codes "tcp://localhost:5665"))
  unfolding lookup
  headers-some none e = absurd (cc)
  headers-some (some hash) e = (hash, refl, z.lookup-items hash (codes "endpoint") ∙ e)

module _ ⦃z : Czmq⦄ ⦃c : Zconfig z⦄ where
  pub set_structures_lem :
      (w : World) → set_structures w ≡ some (tt, record w { self = structures_set w.self })
  unfolding set_structures Numbers.set_id Numbers.set_sequence Owned.set_aliases Owned.set_headers
  set_structures_lem w = refl

  pub check_structures_lem :
      (w : World)
      → message w.self ≡ said_structures
      → check_structures w ≡ some (tt, record w { self = taken w.self })
  unfolding check_structures Numbers.sequence Owned.get_aliases Owned.get_headers c_string
      same_bytes lookup
  check_structures_lem w e =
      let (e1, e2, e3) = structures_inv w.self.id w.self e in
      let (list, k, items) = aliases-some w.self.aliases e2 in
      let (hash, l, found) = headers-some w.self.headers (ap (λ f. f (codes "endpoint")) e3) in
      rw (e1, k, items, l, found) refl

module _ ⦃z : Czmq⦄ ⦃c : Zconfig z⦄ ⦃i : Inspect z c⦄ where
  pub one_header-items : z.zhash_items one_header ≡ said_headers
  unfolding c_string
  one_header-items = i.items-one (codes "endpoint") (codes "tcp://localhost:5665")

  pub structures_set-message : (s : Example z) → message (structures_set s) ≡ said_structures
  structures_set-message s = rw (three_aliases-items, one_header-items) refl
