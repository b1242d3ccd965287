-- ===== src/SelfTest/Types.antt =====
-- The TYPES message of zproto_example_test.
use zproto.Base.{ℕ, zero, suc, ◌≡◌, refl, ap, some, arith, same_bytes}
use zproto.CharArray.{c_string}
use zproto.CharArray.Laws.{overwritten, overwritten-IsArray, c_string-overwritten}
use zproto.Czmq.{Czmq}
use zproto.Zconfig.{Zconfig, codes}
use zproto.Example.{Example}
use zproto.Example.View.{IsObject, Names, Message, types, message, message_as, names}
use zproto.Encode.Image.{image, types_image}
use zproto.Access.Numbers
use zproto.Access.Strings
use zproto.Access.Written.{
  set_client_forename_lem, set_client_surname_lem, set_client_mobile_lem, set_client_email_lem,
  set_supplier_forename_lem, set_supplier_surname_lem, set_supplier_mobile_lem,
  set_supplier_email_lem,
}
use zproto.SelfTest.{World, message_as-unknown}
use zproto.SelfTest.Steps.{set_types, check_types}

abbrev pub said_names : Names
said_names = record {
  client_forename = codes "Lucius Junius";
  client_surname = codes "Brutus";
  client_mobile = codes "01234567890";
  client_email = codes "brutus@example.com";
  supplier_forename = codes "Leslie";
  supplier_surname = codes "Lamport";
  supplier_mobile = codes "01987654321";
  supplier_email = codes "lamport@example.com";
}

abbrev pub said_types : Message
said_types = types 123 said_names

module _ ⦃z : Czmq⦄ where
  -- The names that have been set, up to the one given.
  abbrev numbered : Example z → Example z
  numbered s = record s { id = 4; sequence = 123 }

  abbrev with_client_forename : Example z → Example z
  with_client_forename s = record (numbered s) {
    client_forename = overwritten (codes "Lucius Junius");
  }

  abbrev with_client_surname : Example z → Example z
  with_client_surname s = record (with_client_forename s) {
    client_surname = overwritten (codes "Brutus");
  }

  abbrev with_client_mobile : Example z → Example z
  with_client_mobile s = record (with_client_surname s) {
    client_mobile = overwritten (codes "01234567890");
  }

  abbrev with_client_email : Example z → Example z
  with_client_email s = record (with_client_mobile s) {
    client_email = overwritten (codes "brutus@example.com");
  }

  abbrev with_supplier_forename : Example z → Example z
  with_supplier_forename s = record (with_client_email s) {
    supplier_forename = overwritten (codes "Leslie");
  }

  abbrev with_supplier_surname : Example z → Example z
  with_supplier_surname s = record (with_supplier_forename s) {
    supplier_surname = overwritten (codes "Lamport");
  }

  abbrev with_supplier_mobile : Example z → Example z
  with_supplier_mobile s = record (with_supplier_surname s) {
    supplier_mobile = overwritten (codes "01987654321");
  }

  abbrev pub types_set : Example z → Example z
  types_set s = record (with_supplier_mobile s) {
    supplier_email = overwritten (codes "lamport@example.com");
  }

  pub types_set-IsObject : (s : Example z) → IsObject s → IsObject (types_set s)
  types_set-IsObject s o = record {
    id = omega arith;
    sequence = omega arith;
    level = o.level;
    event = o.event;
    node = o.node;
    peer = o.peer;
    time = o.time;
    host = o.host;
    flags = o.flags;
    flag_bytes = o.flag_bytes;
    client_forename = overwritten-IsArray (codes "Lucius Junius") (omega arith);
    client_surname = overwritten-IsArray (codes "Brutus") (omega arith);
    client_mobile = overwritten-IsArray (codes "01234567890") (omega arith);
    client_email = overwritten-IsArray (codes "brutus@example.com") (omega arith);
    supplier_forename = overwritten-IsArray (codes "Leslie") (omega arith);
    supplier_surname = overwritten-IsArray (codes "Lamport") (omega arith);
    supplier_mobile = overwritten-IsArray (codes "01987654321") (omega arith);
    supplier_email = overwritten-IsArray (codes "lamport@example.com") (omega arith);
  }

  pub types_set-image : (s t : Example z) → image (types_set s) ≡ image (types_set t)
  unfolding image types_image
  types_set-image s t = refl

  pub types_set-message : (s : Example z) → message (types_set s) ≡ said_types
  unfolding c_string
  types_set-message s =
      ap (λ l. types 123 l)
        (rw
          (
            c_string-overwritten (codes "Lucius Junius") (omega arith),
            c_string-overwritten (codes "Brutus") (omega arith),
            c_string-overwritten (codes "01234567890") (omega arith),
            c_string-overwritten (codes "brutus@example.com") (omega arith),
            c_string-overwritten (codes "Leslie") (omega arith),
            c_string-overwritten (codes "Lamport") (omega arith),
            c_string-overwritten (codes "01987654321") (omega arith),
            c_string-overwritten (codes "lamport@example.com") (omega arith),
          )
          refl)

  types_inv :
      (n : ℕ) (s : Example z)
      → message_as n s ≡ said_types
      → (s.sequence ≡ 123) × (names s ≡ said_names)
  types_inv zero s e = absurd (cc)
  types_inv (suc zero) s e = absurd (cc)
  types_inv (suc (suc zero)) s e = absurd (cc)
  types_inv (suc (suc (suc zero))) s e = absurd (cc)
  types_inv (suc (suc (suc (suc zero)))) s e = (cc, cc)
  types_inv (suc (suc (suc (suc (suc n))))) s e = let h = message_as-unknown n s in absurd (cc)

module _ ⦃z : Czmq⦄ ⦃c : Zconfig z⦄ where
  pub set_types_lem :
      (w : World) → IsObject w.self → set_types w ≡ some (tt, record w { self = types_set w.self })
  unfolding set_types Numbers.set_id Numbers.set_sequence
  set_types_lem w o =
      rw
        (
          set_client_forename_lem (numbered w.self) (codes "Lucius Junius") o.client_forename.size,
          set_client_surname_lem (with_client_forename w.self) (codes "Brutus")
              o.client_surname.size,
          set_client_mobile_lem (with_client_surname w.self) (codes "01234567890")
              o.client_mobile.size,
          set_client_email_lem (with_client_mobile w.self) (codes "brutus@example.com")
              o.client_email.size,
          set_supplier_forename_lem (with_client_email w.self) (codes "Leslie")
              o.supplier_forename.size,
          set_supplier_surname_lem (with_supplier_forename w.self) (codes "Lamport")
              o.supplier_surname.size,
          set_supplier_mobile_lem (with_supplier_surname w.self) (codes "01987654321")
              o.supplier_mobile.size,
          set_supplier_email_lem (with_supplier_mobile w.self) (codes "lamport@example.com")
              o.supplier_email.size,
        )
        refl

  pub check_types_lem : (w : World) → message w.self ≡ said_types → check_types w ≡ some (tt, w)
  unfolding check_types Numbers.sequence Strings.client_forename Strings.client_surname
      Strings.client_mobile Strings.client_email Strings.supplier_forename Strings.supplier_surname
      Strings.supplier_mobile Strings.supplier_email c_string same_bytes
  check_types_lem w e =
      let (e1, e2) = types_inv w.self.id w.self e in
      rw
        (
          e1,
          ap (λ l. l.client_forename) e2,
          ap (λ l. l.client_surname) e2,
          ap (λ l. l.client_mobile) e2,
          ap (λ l. l.client_email) e2,
          ap (λ l. l.supplier_forename) e2,
          ap (λ l. l.supplier_surname) e2,
          ap (λ l. l.supplier_mobile) e2,
          ap (λ l. l.supplier_email) e2,
        )
        refl
