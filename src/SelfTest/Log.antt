-- ===== src/SelfTest/Log.antt =====
-- The LOG message of zproto_example_test.
use zproto.Base.{ℕ, zero, suc, ◌≡◌, refl, ap, Option, none, some, arith, same_bytes}
use zproto.CharArray.{Bytes, c_string}
use zproto.CharArray.Laws.{overwritten, overwritten-IsArray, c_string-overwritten}
use zproto.Czmq.{Czmq}
use zproto.Zconfig.{Zconfig, codes}
use zproto.Example.{Example}
use zproto.Example.View.{IsObject, Message, log, message, message_as, text_of}
use zproto.Encode.Image.{image, log_image}
use zproto.Access.Numbers
use zproto.Access.Strings
use zproto.Access.Written.{set_host_lem}
use zproto.SelfTest.{World, message_as-unknown}
use zproto.SelfTest.Steps.{set_log, check_log}

abbrev pub said_log : Message
said_log =
    log 123 2 3 45536 65535 1427261426 (codes "localhost") (codes "This is the message to log")

module _ ⦃z : Czmq⦄ where
  -- Up to zproto_example_set_time.
  abbrev log_numbers : Example z → Example z
  log_numbers s = record s {
    id = 1;
    sequence = 123;
    level = 2;
    event = 3;
    node = 45536;
    peer = 65535;
    time = 1427261426;
  }

  abbrev pub log_set : Example z → Example z
  log_set s = record (log_numbers s) {
    host = overwritten (codes "localhost");
    text = some (c_string (codes "This is the message to log"));
  }

  pub log_set-IsObject : (s : Example z) → IsObject s → IsObject (log_set s)
  log_set-IsObject s o = record {
    id = omega arith;
    sequence = omega arith;
    level = omega arith;
    event = omega arith;
    node = omega arith;
    peer = omega arith;
    time = omega arith;
    host = overwritten-IsArray (codes "localhost") (omega arith);
    flags = o.flags;
    flag_bytes = o.flag_bytes;
    client_forename = o.client_forename;
    client_surname = o.client_surname;
    client_mobile = o.client_mobile;
    client_email = o.client_email;
    supplier_forename = o.supplier_forename;
    supplier_surname = o.supplier_surname;
    supplier_mobile = o.supplier_mobile;
    supplier_email = o.supplier_email;
  }

  pub log_set-image : (s t : Example z) → image (log_set s) ≡ image (log_set t)
  unfolding image log_image
  log_set-image s t = refl

  pub log_set-message : (s : Example z) → message (log_set s) ≡ said_log
  unfolding c_string
  log_set-message s =
      ap (λ host. log 123 2 3 45536 65535 1427261426 host (codes "This is the message to log"))
        (c_string-overwritten (codes "localhost") (omega arith))

  text-some :
      (o : Option Bytes)
      → text_of o ≡ codes "This is the message to log"
      → (text : Bytes) × (o ≡ some text) × (c_string text ≡ codes "This is the message to log")
  text-some none e = cc
  text-some (some text) e = (text, refl, e)

  log_inv :
      (n : ℕ) (s : Example z)
      → message_as n s ≡ said_log
      → (s.sequence ≡ 123)
        × (s.level ≡ 2)
        × (s.event ≡ 3)
        × (s.node ≡ 45536)
        × (s.peer ≡ 65535)
        × (s.time ≡ 1427261426)
        × (c_string s.host ≡ codes "localhost")
        × (text_of s.text ≡ codes "This is the message to log")
  log_inv zero s e = absurd (cc)
  log_inv (suc zero) s e = (cc, cc, cc, cc, cc, cc, cc, cc)
  log_inv (suc (suc zero)) s e = absurd (cc)
  log_inv (suc (suc (suc zero))) s e = absurd (cc)
  log_inv (suc (suc (suc (suc zero)))) s e = absurd (cc)
  log_inv (suc (suc (suc (suc (suc n))))) s e = let h = message_as-unknown n s in absurd (cc)

module _ ⦃z : Czmq⦄ ⦃c : Zconfig z⦄ where
  pub set_log_lem :
      (w : World) → IsObject w.self → set_log w ≡ some (tt, record w { self = log_set w.self })
  unfolding set_log Numbers.set_id Numbers.set_sequence Numbers.set_level Numbers.set_event
      Numbers.set_node Numbers.set_peer Numbers.set_time Strings.set_text
  set_log_lem w o = rw (set_host_lem (log_numbers w.self) (codes "localhost") o.host.size) refl

  pub check_log_lem : (w : World) → message w.self ≡ said_log → check_log w ≡ some (tt, w)
  unfolding check_log Numbers.sequence Numbers.level Numbers.event Numbers.node Numbers.peer
      Numbers.time Strings.host Strings.text c_string same_bytes
  check_log_lem w e =
      let (e1, e2, e3, e4, e5, e6, e7, e8) = log_inv w.self.id w.self e in
      let (text, k, t) = text-some w.self.text e8 in rw (e1, e2, e3, e4, e5, e6, e7, k, t) refl
