-- ===== src/Recv/Fields.antt =====
-- The LOG and TYPES messages read back: what each statement of recv_log and recv_types assigns.
use zproto.Base.{◌≤◌, refl, some, arith, length}
use zproto.CharArray.{Bytes, c_string, strlen}
use zproto.CharArray.Laws.{IsArray, filled, fill_array_lem}
use zproto.Put.Writes.{short_string}
use zproto.Get.Runs.{Runs, Runs-bind, Runs-last, Runs-modify, Runs-modify_then, Runs-gets_then}
use zproto.Get.Runs.{Runs-check_then, Runs-number1, Runs-number2, Runs-number8, Runs-string}
use zproto.Get.Runs.{Runs-longstr}
use zproto.Czmq.{Czmq}
use zproto.Example.{Example}
use zproto.Example.View.{IsObject, Fits, text_of}
use zproto.Encode.Image.{log_image, types_image}
use zproto.Recv.{Receiver, assign, get_field, recv_log, recv_types}

module _ ⦃z : Czmq⦄ where
  pub Runs-field :
      (field : Example z → Bytes) (put : Bytes → Example z → Example z) (r : Receiver) (bs : Bytes)
      → length bs ≤ 255
      → IsArray (field r.object)
      → Runs
          (get_field field put)
          r
          (short_string bs)
          tt
          (assign (put (filled (field r.object) bs)) r)
  unfolding get_field
  Runs-field field put r bs h a = Runs-gets_then _ _ (
      Runs-last _ _
        (Runs-string _ _ bs r (omega arith) (fill_array_lem _ bs (omega (arith, a.size))))
        (Runs-modify _ _))

  pub ended : (cells : Bytes) → IsArray cells → length (c_string cells) ≤ 255
  ended cells a = unfold strlen in a.ended

  abbrev pub log_received : Example z → Example z → Example z
  log_received self s = record s {
    sequence = self.sequence;
    level = self.level;
    event = self.event;
    node = self.node;
    peer = self.peer;
    time = self.time;
    host = filled s.host (c_string self.host);
    text = some (c_string (text_of self.text));
  }

  pub Runs-log :
      (self : Example z) (r : Receiver)
      → IsObject self
      → IsObject r.object
      → Fits self
      → Runs recv_log r (log_image self) tt (assign (log_received self) r)
  unfolding recv_log log_image
  Runs-log self r v o f = Runs-bind _ _ (Runs-number2 _ _ v.sequence) (
      Runs-modify_then _ _ (
        Runs-bind _ _ (Runs-number2 3 _ (omega arith)) (
          Runs-check_then _ _ _ refl (
            Runs-bind _ _ (Runs-number1 _ _ v.level) (
              Runs-modify_then _ _ (
                Runs-bind _ _ (Runs-number1 _ _ v.event) (
                  Runs-modify_then _ _ (
                    Runs-bind _ _ (Runs-number2 _ _ v.node) (
                      Runs-modify_then _ _ (
                        Runs-bind _ _ (Runs-number2 _ _ v.peer) (
                          Runs-modify_then _ _ (
                            Runs-bind _ _ (Runs-number8 _ _ v.time) (
                              Runs-modify_then _ _ (
                                Runs-bind _ _ (Runs-field _ _ _ _ (ended _ v.host) o.host) (
                                  Runs-last _ _ (Runs-longstr _ _ f.text)
                                    (Runs-modify _ _))))))))))))))))

  abbrev pub types_received : Example z → Example z → Example z
  types_received self s = record s {
    sequence = self.sequence;
    client_forename = filled s.client_forename (c_string self.client_forename);
    client_surname = filled s.client_surname (c_string self.client_surname);
    client_mobile = filled s.client_mobile (c_string self.client_mobile);
    client_email = filled s.client_email (c_string self.client_email);
    supplier_forename = filled s.supplier_forename (c_string self.supplier_forename);
    supplier_surname = filled s.supplier_surname (c_string self.supplier_surname);
    supplier_mobile = filled s.supplier_mobile (c_string self.supplier_mobile);
    supplier_email = filled s.supplier_email (c_string self.supplier_email);
  }

  pub Runs-types :
      (self : Example z) (r : Receiver)
      → IsObject self
      → IsObject r.object
      → Runs recv_types r (types_image self) tt (assign (types_received self) r)
  unfolding recv_types types_image
  Runs-types self r v o = Runs-bind _ _ (Runs-number2 _ _ v.sequence) (
      Runs-modify_then _ _ (
        Runs-bind _ _ (Runs-field _ _ _ _ (ended _ v.client_forename) o.client_forename) (
          Runs-bind _ _ (Runs-field _ _ _ _ (ended _ v.client_surname) o.client_surname) (
            Runs-bind _ _ (Runs-field _ _ _ _ (ended _ v.client_mobile) o.client_mobile) (
              Runs-bind _ _ (Runs-field _ _ _ _ (ended _ v.client_email) o.client_email) (
                Runs-bind _ _ (Runs-field _ _ _ _ (ended _ v.supplier_forename) o.supplier_forename)
                  (Runs-bind _ _
                    (Runs-field _ _ _ _ (ended _ v.supplier_surname) o.supplier_surname)
                    (Runs-bind _ _
                      (Runs-field _ _ _ _ (ended _ v.supplier_mobile) o.supplier_mobile)
                      (Runs-field _ _ _ _ (ended _ v.supplier_email) o.supplier_email)))))))))
