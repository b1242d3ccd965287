-- ===== src/ConfigFormat/Binary.antt =====
-- A BINARY message in the configuration format.
use zproto.Base.{
  ℕ, ◌%◌, ◌^◌, ◌≡◌, refl, sym, ap, ◌∙◌, Option, none, some, List, All, arith, same_bytes, replicate,
}
use mathlib.Core.Option
use mathlib.Core.List.{map}
use zproto.CharArray.{Bytes, c_string}
use zproto.CharArray.Laws.{IsByte}
use zproto.Czmq.{Czmq}
use zproto.Zconfig.{Zconfig, codes}
use zproto.Example.{Example, id_binary, new}
use zproto.Access.Numbers.{set_id}
use zproto.Example.View.{
  IsObject, binary, message, binary_message, frame_bytes, key_bytes, uuid_bytes, content_parts,
}
use zproto.Zpl.{zpl, zpl_body, zpl_binary}
use zproto.Zpl.Fields.{binary_fields, binary_fields-new, zpl_binary_lem, zpl_case_lem}
use zproto.NewZpl.{created, new_message, read_body, read_binary}
use zproto.NewZpl.Header.{started}
use zproto.NewZpl.Blocks.{identifier_read, binary_read, HoldsBytes, read_binary_lem}
use zproto.ConfigFormat.{SaysAgain}
use zproto.ConfigFormat.Made.{
  made, zpl_lem, reread, message-message_as, says_again, started-id, started-flags,
  started-identifier, started-routing_id,
}

module _ ⦃z : Czmq⦄ ⦃c : Zconfig z⦄ where
  binary_known : new_message (codes "ZPROTO_EXAMPLE_BINARY") ≡ created (set_id new id_binary)
  unfolding new_message same_bytes
  binary_known = refl

  binary_text : c_string (codes "ZPROTO_EXAMPLE_BINARY") ≡ codes "ZPROTO_EXAMPLE_BINARY"
  unfolding c_string
  binary_text = refl

  content_parts-map :
      (o : Option z.ZMsg) (l : List Bytes)
      → Option.map (λ m. map z.zframe_data (z.zmsg_frames m)) o ≡ some l
      → content_parts o ≡ l
  content_parts-map none l h = cc
  content_parts-map (some m) l h = cc

  uuid_bytes-read :
      (identifier : Option z.ZUuid) (s : Example z)
      → s.identifier ≡ none
      → uuid_bytes (identifier_read identifier s).identifier ≡ uuid_bytes identifier
  uuid_bytes-read none s e = ap uuid_bytes e
  uuid_bytes-read (some uuid) s e =
      ap (λ text. z.zuuid_data (c.zuuid_set_str c.zuuid_new text)) (c.uuid_str-text uuid)
      ∙ c.uuid_data-set_str c.zuuid_new uuid

  id-read :
      (identifier : Option z.ZUuid) (s : Example z)
      → ((identifier_read identifier s).id ≡ s.id)
        × ((identifier_read identifier s).routing_id ≡ s.routing_id)
        × ((identifier_read identifier s).sequence ≡ s.sequence)
        × ((identifier_read identifier s).flags ≡ s.flags)
        × ((identifier_read identifier s).public_key ≡ s.public_key)
  id-read none s = (refl, refl, refl, refl, refl)
  id-read (some uuid) s = (refl, refl, refl, refl, refl)

  binary_cong :
      {sequence sequence' : ℕ}
      {flags flags' key key' identifier identifier' address address' : Bytes}
      {content content' : List Bytes}
      → sequence ≡ sequence'
      → flags ≡ flags'
      → key ≡ key'
      → identifier ≡ identifier'
      → address ≡ address'
      → content ≡ content'
      → binary sequence flags key identifier address content
        ≡ binary sequence' flags' key' identifier' address' content'
  binary_cong a b d e f g = cc

  -- The flags that the message has after the assignment to the array.
  abbrev pub reassigned : (Bytes → Bytes → Bytes) → Example z → Example z
  reassigned assign_array self = record self { flags = assign_array (replicate 4 0) self.flags }

  binary_message-read :
      (assign_array : Bytes → Bytes → Bytes) (self s : Example z) (key : z.ZChunk)
      (address : z.ZFrame) (content : z.ZMsg)
      → IsObject self
      → self.public_key ≡ some key
      → self.address ≡ some address
      → self.content ≡ some content
      → s.identifier ≡ none
      → s.flags ≡ replicate 4 0
      → binary_message (binary_read assign_array self s key self.identifier address content)
        ≡ binary_message (reassigned assign_array self)
  binary_message-read assign_array self s key address content v k a m i f =
      let s' : Example z = record s {
        sequence = self.sequence % 2 ^ 16;
        flags = assign_array s.flags self.flags;
        public_key = some (z.zchunk_new (z.zchunk_data key));
      } in
      let (_, _, e1, e2, e3) = id-read self.identifier s' in
      binary_cong (e1 ∙ omega (arith, v.sequence))
        (e2 ∙ ap (λ cells. assign_array cells self.flags) f)
        (ap key_bytes e3 ∙ (z.chunk_data-new (z.zchunk_data key) ∙ sym (ap key_bytes k)))
        (uuid_bytes-read self.identifier s' i)
        (c.frame_data-new (z.zframe_data address) ∙ sym (ap frame_bytes a))
        (content_parts-map _ _ (c.decode-encode content _ (c.frame_data-new _))
          ∙ sym (ap content_parts m))

  -- A BINARY message whose public key, address and content are there: zproto_example_zpl returns a
  -- tree, and zproto_example_new_zpl makes of it an object with the same routing id that says the
  -- same message, but for the flags: these are what the assignment of a pointer to an array makes
  -- of the zeros of the new object and the sender's flags.
  pub binary-new_zpl-zpl :
      (assign_array : Bytes → Bytes → Bytes) (self : Example z) (parent : Option c.Item)
      (t : c.Tree) (key : z.ZChunk) (address : z.ZFrame) (content : z.ZMsg)
      → IsObject self
      → All IsByte (frame_bytes self.routing_id)
      → HoldsBytes key address content
      → self.id ≡ id_binary
      → self.public_key ≡ some key
      → self.address ≡ some address
      → self.content ≡ some content
      → SaysAgain assign_array
          (message (reassigned assign_array self))
          self.routing_id
          (zpl self parent t)
  unfolding zpl_body read_body
  binary-new_zpl-zpl assign_array self parent t key address content v b holds e k a m =
      let frame = self.routing_id in
      let start = started id_binary frame in
      let fields = binary_fields self key self.identifier address content in
      let tree =
        zpl_case_lem (made t parent).0 (codes "ZPROTO_EXAMPLE_BINARY") self zpl_binary fields
          (made t parent).1 (c.new-Live t (codes "zproto_example") parent)
          (c.new-entries t (codes "zproto_example") parent)
          (λ config t'. zpl_binary_lem config self t' k a m)
          (binary_fields-new self key self.identifier address content) in
      let s = binary_read assign_array self start key self.identifier address content in
      let (e1, e2, _, _, _) = id-read self.identifier (record start {
        sequence = self.sequence % 2 ^ 16;
        flags = assign_array start.flags self.flags;
        public_key = some (z.zchunk_new (z.zchunk_data key));
      }) in
      says_again assign_array (message (reassigned assign_array self)) frame
        (zpl_lem id_binary self parent t tree.tree e tree.done)
        (reread assign_array id_binary (codes "ZPROTO_EXAMPLE_BINARY") frame
            (λ t' config. read_binary t' config assign_array) tree b binary_text binary_known
            (λ t' s'. refl)
          ∙ read_binary_lem assign_array tree.tree tree.config self start key self.identifier
              address content tree.has v holds)
        (message-message_as id_binary s (e1 ∙ started-id id_binary frame)
          ∙ (binary_message-read assign_array self start key address content v k a m
                (started-identifier id_binary frame) (started-flags id_binary frame)
              ∙ sym (message-message_as id_binary (reassigned assign_array self) e)))
        (ap frame_bytes e2 ∙ started-routing_id id_binary frame)
