-- ===== src/Zpl/Fields.antt =====
-- The entries that zproto_example_zpl puts under the item for the content of a LOG, a TYPES and a
-- BINARY message.
use zproto.Zpl.{Wrote, wrote}
use zproto.Base.{
  sym, ◌≡◌, refl, ap, ◌∙◌, Option, none, some, true, List, [], ◌∷◌, ◌++◌, same_bytes, lookup,
}
use zproto.CharArray.{Bytes, c_string}
use zproto.Czmq.{Czmq}
use zproto.Zconfig.{Zconfig, codes}
use zproto.Zconfig.Puts.{puts, puts-Live, puts-entries, puts-append, puts-Kept, values, new_names}
use zproto.Example.{Example}
use zproto.Hex.RoundTrip.{hex}
use zproto.Decimal.{print_long}
use zproto.Zpl.{
  Write, put_text, zpl_log, zpl_types, zpl_case, put_message, demand, put_identifier, zpl_binary,
  put_hex,
}
use zproto.Zpl.Header.{
  put_hex_lem, Header, Header-Kept, Write-then, put_message_lem, put_message-Header, with_fields,
}
use zproto.NewZpl.Reads.{Has}

module _ ⦃z : Czmq⦄ ⦃c : Zconfig z⦄ where
  abbrev pub text_field : Option Bytes → List (Bytes × Bytes)
  text_field none = []
  text_field (some text) = (codes "data", c_string text) ∷ []

  abbrev pub log_fields : Example z → Option Bytes → List (Bytes × Bytes)
  log_fields self text =
      (codes "sequence", print_long self.sequence)
      ∷ (codes "version", codes "3")
      ∷ (codes "level", print_long self.level)
      ∷ (codes "event", print_long self.event)
      ∷ (codes "node", print_long self.node)
      ∷ (codes "peer", print_long self.peer)
      ∷ (codes "time", print_long self.time)
      ∷ (codes "host", c_string self.host)
      ∷ text_field text

  put_text_lem :
      (config : c.Item) (text : Option Bytes) (t : c.Tree)
      → put_text config text t ≡ wrote (tt, puts t config (text_field text))
  unfolding put_text puts
  put_text_lem config none t = refl
  put_text_lem config (some text) t = refl

  pub zpl_log_lem :
      (config : c.Item) (self : Example z) (t : c.Tree)
      → zpl_log config self t ≡ wrote (tt, puts t config (log_fields self self.text))
  unfolding zpl_log puts
  zpl_log_lem config self t = put_text_lem config self.text _

  pub log_fields-new :
      (self : Example z) (text : Option Bytes) → new_names [] (log_fields self text) ≡ true
  unfolding lookup same_bytes c_string
  log_fields-new self none = refl
  log_fields-new self (some text) = refl

  abbrev pub types_fields : Example z → List (Bytes × Bytes)
  types_fields self =
      (codes "sequence", print_long self.sequence)
      ∷ (codes "client_forename", c_string self.client_forename)
      ∷ (codes "client_surname", c_string self.client_surname)
      ∷ (codes "client_mobile", c_string self.client_mobile)
      ∷ (codes "client_email", c_string self.client_email)
      ∷ (codes "supplier_forename", c_string self.supplier_forename)
      ∷ (codes "supplier_surname", c_string self.supplier_surname)
      ∷ (codes "supplier_mobile", c_string self.supplier_mobile)
      ∷ (codes "supplier_email", c_string self.supplier_email)
      ∷ []

  pub zpl_types_lem :
      (config : c.Item) (self : Example z) (t : c.Tree)
      → zpl_types config self t ≡ wrote (tt, puts t config (types_fields self))
  unfolding zpl_types puts
  zpl_types_lem config self t = refl

  pub types_fields-new : (self : Example z) → new_names [] (types_fields self) ≡ true
  unfolding lookup same_bytes c_string
  types_fields-new self = refl

  abbrev pub identifier_field : Option z.ZUuid → List (Bytes × Bytes)
  identifier_field none = []
  identifier_field (some uuid) = (codes "identifier", c.zuuid_str uuid) ∷ []

  abbrev pub binary_fields :
      Example z → z.ZChunk → Option z.ZUuid → z.ZFrame → z.ZMsg → List (Bytes × Bytes)
  binary_fields self public_key identifier address content =
      (codes "sequence", print_long self.sequence)
      ∷ (codes "flags", hex self.flags)
      ∷ (codes "public_key", hex (z.zchunk_data public_key))
      ∷ (identifier_field identifier
          ++ (codes "address", hex (z.zframe_data address))
            ∷ (codes "content", hex (z.zframe_data (c.zmsg_encode content)))
            ∷ [])

  pub binary_fields-new :
      (self : Example z) (public_key : z.ZChunk) (identifier : Option z.ZUuid) (address : z.ZFrame)
      (content : z.ZMsg)
      → new_names [] (binary_fields self public_key identifier address content) ≡ true
  unfolding lookup same_bytes c_string
  binary_fields-new self public_key none address content = refl
  binary_fields-new self public_key (some uuid) address content = refl

  put_identifier_lem :
      (config : c.Item) (identifier : Option z.ZUuid) (t : c.Tree)
      → put_identifier config identifier t ≡ wrote (tt, puts t config (identifier_field identifier))
  unfolding put_identifier puts
  put_identifier_lem config none t = refl
  put_identifier_lem config (some uuid) t = refl

  demand_lem :
      {A : Type 0} {o : Option A} {a : A} (t : c.Tree) → o ≡ some a → demand o t ≡ wrote (a, t)
  demand_lem t e = ap (λ o. demand o t) e

  -- A BINARY message whose containers are there.
  pub zpl_binary_lem :
      (config : c.Item) (self : Example z) (t : c.Tree) {public_key : z.ZChunk} {address : z.ZFrame}
      {content : z.ZMsg}
      → self.public_key ≡ some public_key
      → self.address ≡ some address
      → self.content ≡ some content
      → zpl_binary config self t
        ≡ wrote (tt, puts t config (binary_fields self public_key self.identifier address content))
  unfolding zpl_binary puts
  zpl_binary_lem config self t {public_key} {address} {content} k a m =
      let flags = hex self.flags in
      let key = hex (z.zchunk_data public_key) in
      let t1 = c.zconfig_put t config (codes "sequence") (print_long self.sequence) in
      let t2 = c.zconfig_put t1 config (codes "flags") flags in
      let t3 = c.zconfig_put t2 config (codes "public_key") key in
      let t4 = puts t3 config (identifier_field self.identifier) in
      let t5 = c.zconfig_put t4 config (codes "address") (hex (z.zframe_data address)) in
      let address_hex = hex (z.zframe_data address) in
      let content_hex = hex (z.zframe_data (c.zmsg_encode content)) in
      Write-then (put_hex config (codes "flags") self.flags) _ t1 (put_hex_lem config _ _ t1)
      ∙ (Write-then (demand self.public_key) _ t2 (demand_lem t2 k)
          ∙ (Write-then (put_hex config (codes "public_key") (z.zchunk_data public_key)) _ t2
                (put_hex_lem config _ _ t2)
              ∙ (Write-then (put_identifier config self.identifier) _ t3
                    (put_identifier_lem config self.identifier t3)
                  ∙ (Write-then (demand self.address) _ t4 (demand_lem t4 a)
                      ∙ (Write-then (put_hex config (codes "address") (z.zframe_data address)) _ t4
                            (put_hex_lem config _ _ t4)
                          ∙ (Write-then (demand self.content) _ t5 (demand_lem t5 m)
                              ∙ (put_hex_lem config (codes "content") _ t5
                                  ∙ ap (λ t'. wrote (tt, t'))
                                      (sym (
                                        puts-append (identifier_field self.identifier)
                                          ((codes "address", address_hex)
                                            ∷ (codes "content", content_hex)
                                            ∷ [])
                                          t3 config)))))))))

  -- The root, the item for the content with the entries given, and the tree that holds them.
  pub record Exported (root : c.Item) (message : Bytes) (frame : Option z.ZFrame)
      (es : List (Bytes × Bytes)) (ran : Wrote (Unit {0} × c.Tree)) : Type 0 where
    pub tree : c.Tree
    pub config : c.Item
    pub done : ran ≡ wrote (tt, tree)
    pub header : Header tree root config message frame
    pub has : Has tree config es

  -- One case of the switch, whose fields are puts under the content.
  pub zpl_case_lem :
      (root : c.Item) (message : Bytes) (self : Example z)
      (fields : c.Item → Example z → Write (Unit {0})) (l : List (Bytes × Bytes)) (t : c.Tree)
      → c.Live t root
      → c.entries t root ≡ []
      → ((config : c.Item) (t' : c.Tree) → fields config self t' ≡ wrote (tt, puts t' config l))
      → new_names [] l ≡ true
      → Exported root message self.routing_id (values l) (zpl_case root message self fields t)
  unfolding zpl_case
  zpl_case_lem root message self fields l t live empty run new =
      let made =
        c.zconfig_new (with_fields t root message self.routing_id) (codes "content") (some root) in
      let config = made.0 in
      let t' = made.1 in
      let h = put_message-Header root message self.routing_id t live empty in
      let none_yet =
        c.new-entries (with_fields t root message self.routing_id) (codes "content") (some root) in
      let names : new_names (c.entries t' config) l ≡ true = rw none_yet new in
      record {
        tree = puts t' config l;
        config = config;
        done =
            Write-then (put_message root message self) (λ x. fields x self) t
              (put_message_lem root message self t)
            ∙ run config t';
        header =
            Header-Kept h (puts-Kept l [] t' config root h.live_config h.live_root h.distinct new)
              (puts-Live l t' config config h.live_config);
        has = record {
          live = puts-Live l t' config config h.live_config;
          entries =
              puts-entries l t' config h.live_config names ∙ ap (λ old. old ++ values l) none_yet;
        };
      }
