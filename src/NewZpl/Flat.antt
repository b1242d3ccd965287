-- ===== src/NewZpl/Flat.antt =====
-- What zproto_example_new_zpl makes of the entries of a LOG and of a TYPES message.
use zproto.Base.{
  ◌%◌, ◌^◌, ◌≡◌, refl, ap, ◌∙◌, Option, none, some, lookup, same_bytes, replicate, arith,
}
use zproto.CharArray.{Bytes, c_string}
use zproto.CharArray.Laws.{overwritten}
use zproto.Czmq.{Czmq}
use zproto.Zconfig.{Zconfig, codes, IsName}
use zproto.Zconfig.Puts.{values}
use zproto.Example.{Example}
use zproto.Example.View.{IsObject}
use zproto.Zpl.Fields.{log_fields, types_fields}
use zproto.NewZpl.{Created, created, null, ◌>>=◌, need, read_log, read_types}
use zproto.NewZpl.Reads.{Created-then, Has, get_lem, get_number_lem, get_string_lem}

module _ ⦃z : Czmq⦄ ⦃c : Zconfig z⦄ where
  abbrev pub zeros : Bytes
  zeros = replicate 256 0

  -- The object with the numbers and the host that were exported.
  abbrev log_numbers : Example z → Example z → Example z
  log_numbers self s = record s {
    sequence = self.sequence % 2 ^ 16;
    level = self.level % 2 ^ 8;
    event = self.event % 2 ^ 8;
    node = self.node % 2 ^ 16;
    peer = self.peer % 2 ^ 16;
    time = self.time;
    host = overwritten (c_string (c_string self.host));
  }

  abbrev pub log_read : Example z → Bytes → Example z → Example z
  log_read self text s = record (log_numbers self s) {
    text = some (c_string (c_string (c_string text)));
  }

  -- Up to the text.
  read_log_numbers :
      (t : c.Tree) (config : c.Item) (self s : Example z) (text : Option Bytes)
      → Has t config (values (log_fields self text))
      → IsObject self
      → s.host ≡ zeros
      → read_log t config s ≡ (
          need (c.zconfig_get t config (codes "data")) >>= λ v.
          created (record (log_numbers self s) { text = some (c_string v) }))
  unfolding read_log lookup same_bytes c_string
  read_log_numbers t config self s text h v e =
      Created-then _ (
        get_number_lem t config _ h (codes "sequence") self.sequence (omega (arith, v.sequence))
          (refl, refl, refl) refl)
      ∙ (Created-then _ (
            get_number_lem t config _ h (codes "level") self.level (omega (arith, v.level))
              (refl, refl, refl) refl)
          ∙ (Created-then _ (
                get_number_lem t config _ h (codes "event") self.event (omega (arith, v.event))
                  (refl, refl, refl) refl)
              ∙ (Created-then _ (
                    get_number_lem t config _ h (codes "node") self.node (omega (arith, v.node))
                      (refl, refl, refl) refl)
                  ∙ (Created-then _ (
                        get_number_lem t config _ h (codes "peer") self.peer (omega (arith, v.peer))
                          (refl, refl, refl) refl)
                      ∙ (Created-then _ (
                            get_number_lem t config _ h (codes "time") self.time
                              (omega (arith, v.time)) (refl, refl, refl) refl)
                          ∙ (Created-then _ (
                              get_string_lem t config _ h (codes "host")
                                (c_string (c_string self.host)) s.host e (refl, refl, refl)
                                refl)))))))

  data-IsName : IsName (codes "data")
  unfolding c_string
  data-IsName = (refl, refl, refl)

  pub read_log_lem :
      (t : c.Tree) (config : c.Item) (self s : Example z) (text : Bytes)
      → Has t config (values (log_fields self (some text)))
      → IsObject self
      → s.host ≡ zeros
      → read_log t config s ≡ created (log_read self text s)
  unfolding lookup same_bytes
  read_log_lem t config self s text h v e =
      read_log_numbers t config self s (some text) h v e
      ∙ Created-then _ (ap need (get_lem t config _ h (codes "data") data-IsName))

  -- Without a text there is no entry for it, and that is an error.
  pub read_log-null :
      (t : c.Tree) (config : c.Item) (self s : Example z)
      → Has t config (values (log_fields self none))
      → IsObject self
      → s.host ≡ zeros
      → read_log t config s ≡ null
  unfolding lookup same_bytes
  read_log-null t config self s h v e =
      read_log_numbers t config self s none h v e
      ∙ ap
          (λ (o : Created Bytes).
            o >>= λ v. created (record (log_numbers self s) { text = some (c_string v) }))
          (ap need (get_lem t config _ h (codes "data") data-IsName))

  abbrev pub types_read : Example z → Example z → Example z
  types_read self s = record s {
    sequence = self.sequence % 2 ^ 16;
    client_forename = overwritten (c_string (c_string self.client_forename));
    client_surname = overwritten (c_string (c_string self.client_surname));
    client_mobile = overwritten (c_string (c_string self.client_mobile));
    client_email = overwritten (c_string (c_string self.client_email));
    supplier_forename = overwritten (c_string (c_string self.supplier_forename));
    supplier_surname = overwritten (c_string (c_string self.supplier_surname));
    supplier_mobile = overwritten (c_string (c_string self.supplier_mobile));
    supplier_email = overwritten (c_string (c_string self.supplier_email));
  }

  -- The memory of the new object's strings.
  pub record IsBlank (s : Example z) : Type 0 where
    pub client_forename : s.client_forename ≡ zeros
    pub client_surname : s.client_surname ≡ zeros
    pub client_mobile : s.client_mobile ≡ zeros
    pub client_email : s.client_email ≡ zeros
    pub supplier_forename : s.supplier_forename ≡ zeros
    pub supplier_surname : s.supplier_surname ≡ zeros
    pub supplier_mobile : s.supplier_mobile ≡ zeros
    pub supplier_email : s.supplier_email ≡ zeros

  pub read_types_lem :
      (t : c.Tree) (config : c.Item) (self s : Example z)
      → Has t config (values (types_fields self))
      → IsObject self
      → IsBlank s
      → read_types t config s ≡ created (types_read self s)
  unfolding read_types lookup same_bytes c_string
  read_types_lem t config self s h v e =
      Created-then _ (
        get_number_lem t config _ h (codes "sequence") self.sequence (omega (arith, v.sequence))
          (refl, refl, refl) refl)
      ∙ (Created-then _ (
            get_string_lem t config _ h (codes "client_forename")
              (c_string (c_string self.client_forename)) s.client_forename e.client_forename
              (refl, refl, refl) refl)
          ∙ (Created-then _ (
                get_string_lem t config _ h (codes "client_surname")
                  (c_string (c_string self.client_surname)) s.client_surname e.client_surname
                  (refl, refl, refl) refl)
              ∙ (Created-then _ (
                    get_string_lem t config _ h (codes "client_mobile")
                      (c_string (c_string self.client_mobile)) s.client_mobile e.client_mobile
                      (refl, refl, refl) refl)
                  ∙ (Created-then _ (
                        get_string_lem t config _ h (codes "client_email")
                          (c_string (c_string self.client_email)) s.client_email e.client_email
                          (refl, refl, refl) refl)
                      ∙ (Created-then _ (
                            get_string_lem t config _ h (codes "supplier_forename")
                              (c_string (c_string self.supplier_forename)) s.supplier_forename
                              e.supplier_forename (refl, refl, refl) refl)
                          ∙ (Created-then _ (
                                get_string_lem t config _ h (codes "supplier_surname")
                                  (c_string (c_string self.supplier_surname)) s.supplier_surname
                                  e.supplier_surname (refl, refl, refl) refl)
                              ∙ (Created-then _ (
                                    get_string_lem t config _ h (codes "supplier_mobile")
                                      (c_string (c_string self.supplier_mobile)) s.supplier_mobile
                                      e.supplier_mobile (refl, refl, refl) refl)
                                  ∙ (Created-then _ (
                                      get_string_lem t config _ h (codes "supplier_email")
                                        (c_string (c_string self.supplier_email)) s.supplier_email
                                        e.supplier_email (refl, refl, refl) refl)))))))))
