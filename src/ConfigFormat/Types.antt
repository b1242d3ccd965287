-- ===== src/ConfigFormat/Types.antt =====
-- A TYPES message in the configuration format.
use zproto.Base.{◌%◌, ◌^◌, ◌≡◌, refl, sym, ◌∙◌, Option, All, arith, same_bytes}
use zproto.CharArray.{Bytes, c_string}
use zproto.CharArray.Laws.{IsByte}
use zproto.Czmq.{Czmq}
use zproto.Zconfig.{Zconfig, codes}
use zproto.Zconfig.Puts.{values}
use zproto.Example.{Example, id_types, new}
use zproto.Example.View.{IsObject, message, types_message, frame_bytes}
use zproto.Zpl.{zpl_case, zpl, zpl_body, zpl_types}
use zproto.Zpl.Fields.{types_fields, types_fields-new, zpl_types_lem, zpl_case_lem, Exported}
use zproto.NewZpl.{created, new_message, read_body, read_types}
use zproto.NewZpl.Header.{started}
use zproto.NewZpl.Flat.{types_read, read_types_lem}
use zproto.ConfigFormat.{SaysAgain}
use zproto.ConfigFormat.Made.{
  reread, message-message_as, says_again, made, zpl_lem, started-id, started-IsBlank,
  started-routing_id, c_string-copied_array,
}

module _ ⦃z : Czmq⦄ ⦃c : Zconfig z⦄ where
  types_known :
      new_message (codes "ZPROTO_EXAMPLE_TYPES")
      ≡ created (zproto.Access.Numbers.set_id new id_types)
  unfolding new_message same_bytes
  types_known = refl

  types_text : c_string (codes "ZPROTO_EXAMPLE_TYPES") ≡ codes "ZPROTO_EXAMPLE_TYPES"
  unfolding c_string
  types_text = refl

  types_message-read :
      (self s : Example z) → IsObject self → types_message (types_read self s) ≡ types_message self
  types_message-read self s v =
      let a : self.sequence % 2 ^ 16 ≡ self.sequence = omega (arith, v.sequence) in
      rw
        (
          a,
          c_string-copied_array self.client_forename v.client_forename,
          c_string-copied_array self.client_surname v.client_surname,
          c_string-copied_array self.client_mobile v.client_mobile,
          c_string-copied_array self.client_email v.client_email,
          c_string-copied_array self.supplier_forename v.supplier_forename,
          c_string-copied_array self.supplier_surname v.supplier_surname,
          c_string-copied_array self.supplier_mobile v.supplier_mobile,
          c_string-copied_array self.supplier_email v.supplier_email,
        )
        refl

  -- The tree of a TYPES message.
  types_tree :
      (self : Example z) (parent : Option c.Item) (t : c.Tree)
      → Exported
          (made t parent).0
          (codes "ZPROTO_EXAMPLE_TYPES")
          self.routing_id
          (values (types_fields self))
          (zpl_case
            (made t parent).0
            (codes "ZPROTO_EXAMPLE_TYPES")
            self
            zpl_types
            (made t parent).1)
  types_tree self parent t =
      zpl_case_lem _ _ self zpl_types (types_fields self) _
        (c.new-Live t (codes "zproto_example") parent)
        (c.new-entries t (codes "zproto_example") parent)
        (λ config t'. zpl_types_lem config self t') (types_fields-new self)

  -- A TYPES message: zproto_example_zpl returns a tree, and zproto_example_new_zpl makes of it an
  -- object that says the same message and has the same routing id.
  pub types-new_zpl-zpl :
      (assign_array : Bytes → Bytes → Bytes) (self : Example z) (parent : Option c.Item)
      (t : c.Tree)
      → IsObject self
      → All IsByte (frame_bytes self.routing_id)
      → self.id ≡ id_types
      → SaysAgain assign_array (message self) self.routing_id (zpl self parent t)
  unfolding zpl_body read_body
  types-new_zpl-zpl assign_array self parent t v b e =
      let frame = self.routing_id in
      let tree = types_tree self parent t in
      let s = types_read self (started id_types frame) in
      says_again assign_array (message self) frame
        (zpl_lem id_types self parent t tree.tree e tree.done)
        (reread assign_array id_types (codes "ZPROTO_EXAMPLE_TYPES") frame
            (λ t' config. read_types t' config) tree b types_text types_known (λ t' s. refl)
          ∙ read_types_lem tree.tree tree.config self (started id_types frame) tree.has v
              (started-IsBlank id_types frame))
        (message-message_as id_types s (started-id id_types frame)
          ∙ (types_message-read self (started id_types frame) v
              ∙ sym (message-message_as id_types self e)))
        (started-routing_id id_types frame)
