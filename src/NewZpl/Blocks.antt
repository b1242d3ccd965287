-- ===== src/NewZpl/Blocks.antt =====
-- What zproto_example_new_zpl makes of the entries of a BINARY message.
use zproto.Base.{◌%◌, ◌^◌, ◌≡◌, refl, ap, ◌∙◌, Option, none, some, lookup, same_bytes, All, arith}
use zproto.CharArray.{Bytes, c_string}
use zproto.CharArray.Laws.{IsByte}
use zproto.Czmq.{Czmq}
use zproto.Zconfig.{Zconfig, codes}
use zproto.Zconfig.Puts.{values}
use zproto.Example.{Example}
use zproto.Example.View.{IsObject}
use zproto.Zpl.Fields.{binary_fields}
use zproto.NewZpl.{created, read_binary, read_identifier}
use zproto.NewZpl.Reads.{Created-then, Has, get_lem, get_number_lem, get_bytes_lem}

module _ ⦃z : Czmq⦄ ⦃c : Zconfig z⦄ where
  -- The identifier that is made of the text of another.
  abbrev pub identifier_read : Option z.ZUuid → Example z → Example z
  identifier_read none s = s
  identifier_read (some uuid) s = record s {
    identifier = some (c.zuuid_set_str c.zuuid_new (c_string (c.zuuid_str uuid)));
  }

  abbrev pub binary_read :
      (Bytes → Bytes → Bytes)
      → Example z
      → Example z
      → z.ZChunk
      → Option z.ZUuid
      → z.ZFrame
      → z.ZMsg
      → Example z
  binary_read assign_array self s public_key identifier address content =
      let s = record s {
        sequence = self.sequence % 2 ^ 16;
        flags = assign_array s.flags self.flags;
        public_key = some (z.zchunk_new (z.zchunk_data public_key));
      } in
      record (identifier_read identifier s) {
        address = some (c.zframe_new (z.zframe_data address));
        content = c.zmsg_decode (c.zframe_new (z.zframe_data (c.zmsg_encode content)));
      }

  -- The memory of containers holds bytes.
  pub record HoldsBytes (key : z.ZChunk) (frame : z.ZFrame) (msg : z.ZMsg) : Type 0 where
    pub public_key : All IsByte (z.zchunk_data key)
    pub address : All IsByte (z.zframe_data frame)
    pub content : All IsByte (z.zframe_data (c.zmsg_encode msg))

  read_identifier_lem :
      (t : c.Tree) (config : c.Item) (self s : Example z) (public_key : z.ZChunk)
      (identifier : Option z.ZUuid) (address : z.ZFrame) (content : z.ZMsg)
      → Has t config (values (binary_fields self public_key identifier address content))
      → read_identifier (c.zconfig_get t config (codes "identifier")) s
        ≡ identifier_read identifier s
  unfolding read_identifier lookup same_bytes c_string
  read_identifier_lem t config self s public_key none address content h =
      ap (λ o. read_identifier o s) (get_lem t config _ h (codes "identifier") (refl, refl, refl))
  read_identifier_lem t config self s public_key (some uuid) address content h =
      ap (λ o. read_identifier o s) (get_lem t config _ h (codes "identifier") (refl, refl, refl))

  address_entry :
      (self : Example z) (public_key : z.ZChunk) (identifier : Option z.ZUuid) (address : z.ZFrame)
      (content : z.ZMsg)
      → (lookup
            (codes "address")
            (values (binary_fields self public_key identifier address content))
          ≡ some (c_string (zproto.Hex.RoundTrip.hex (z.zframe_data address))))
        × (lookup
              (codes "content")
              (values (binary_fields self public_key identifier address content))
            ≡ some (c_string (zproto.Hex.RoundTrip.hex (z.zframe_data (c.zmsg_encode content)))))
  unfolding lookup same_bytes
  address_entry self public_key none address content = (refl, refl)
  address_entry self public_key (some uuid) address content = (refl, refl)

  pub read_binary_lem :
      (assign_array : Bytes → Bytes → Bytes) (t : c.Tree) (config : c.Item) (self s : Example z)
      (public_key : z.ZChunk) (identifier : Option z.ZUuid) (address : z.ZFrame) (content : z.ZMsg)
      → Has t config (values (binary_fields self public_key identifier address content))
      → IsObject self
      → HoldsBytes public_key address content
      → read_binary t config assign_array s
        ≡ created (binary_read assign_array self s public_key identifier address content)
  unfolding read_binary lookup same_bytes c_string
  read_binary_lem assign_array t config self s public_key identifier address content h v b =
      let (e, e') = address_entry self public_key identifier address content in
      Created-then _ (
        get_number_lem t config _ h (codes "sequence") self.sequence (omega (arith, v.sequence))
          (refl, refl, refl) refl)
      ∙ (Created-then _ (
            get_bytes_lem t config _ h (codes "flags") self.flags v.flag_bytes (refl, refl, refl)
              refl)
          ∙ (Created-then _ (
                get_bytes_lem t config _ h (codes "public_key") (z.zchunk_data public_key)
                  b.public_key (refl, refl, refl) refl)
              ∙ (Created-then _ (
                    get_bytes_lem t config _ h (codes "address") (z.zframe_data address) b.address
                      (refl, refl, refl) e)
                  ∙ (Created-then _ (
                        get_bytes_lem t config _ h (codes "content") _ b.content (refl, refl, refl)
                          e')
                      ∙ ap
                          (λ (s' : Example z). created (record s' {
                            address = some (c.zframe_new (z.zframe_data address));
                            content =
                                c.zmsg_decode
                                  (c.zframe_new (z.zframe_data (c.zmsg_encode content)));
                          }))
                          (read_identifier_lem t config self _ public_key identifier address content
                            h)))))
