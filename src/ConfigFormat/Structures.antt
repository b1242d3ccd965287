-- ===== src/ConfigFormat/Structures.antt =====
-- A STRUCTURES message in the configuration format.
use zproto.Zpl.{wrote}
use zproto.Base.{
  ℕ, ◌^◌, ◌<◌, ◌≡◌, refl, sym, ap, ◌∙◌, Option, none, some, true, [], All, length, same_bytes,
}
use zproto.CharArray.{Bytes, c_string}
use zproto.CharArray.Laws.{IsByte}
use zproto.Czmq.{Czmq}
use zproto.Zconfig.{Zconfig, codes}
use zproto.Zconfig.Puts.{new_names}
use zproto.Example.{Example, id_structures, new}
use zproto.Access.Numbers.{set_id}
use zproto.Example.View.{IsObject, message, frame_bytes, alias_list, header_list}
use zproto.Zpl.{zpl, zpl_body, zpl_structures, put_message, zpl_case}
use zproto.Zpl.Header.{Write-then, put_message_lem, put_message-Header, with_fields}
use zproto.Zpl.Structures.{
  alias_part, header_part, structures_entries, tree3, Written, written_lem, zpl_structures_lem,
}
use zproto.Zpl.SubItem.{NewNamesIn}
use zproto.Zpl.Fields.{Exported}
use zproto.NewZpl.{created, new_message, read_body, read_structures}
use zproto.NewZpl.Header.{started}
use zproto.ConfigFormat.{SaysAgain}
use zproto.ConfigFormat.Made.{
  made, zpl_lem, reread, message-message_as, says_again, started-id, started-routing_id,
}
use zproto.ConfigFormat.SubTrees.{alias_part-new, header_part-new, reread_fields}

module _ ⦃z : Czmq⦄ ⦃c : Zconfig z⦄ where
  structures_known :
      new_message (codes "ZPROTO_EXAMPLE_STRUCTURES") ≡ created (set_id new id_structures)
  unfolding new_message same_bytes
  structures_known = refl

  structures_text : c_string (codes "ZPROTO_EXAMPLE_STRUCTURES") ≡ codes "ZPROTO_EXAMPLE_STRUCTURES"
  unfolding c_string
  structures_text = refl

  started-empty :
      (id : ℕ) (frame : Option z.ZFrame)
      → ((started id frame).aliases ≡ none) × ((started id frame).headers ≡ none)
  unfolding set_id new
  started-empty id none = (refl, refl)
  started-empty id (some frame) = (refl, refl)

  -- The tree of a STRUCTURES message.
  structures_tree :
      (self : Example z) (parent : Option c.Item) (t : c.Tree)
      → NewNamesIn (alias_part self.aliases)
      → NewNamesIn (header_part self.headers)
      → (t' : c.Tree) × (config : c.Item) × (zpl_case
            (made t parent).0
            (codes "ZPROTO_EXAMPLE_STRUCTURES")
            self
            zpl_structures
            (made t parent).1
          ≡ wrote (tt, t'))
        × Written t' (made t parent).0 config self
  unfolding zpl_case
  structures_tree self parent t new_aliases new_headers =
      let name = codes "ZPROTO_EXAMPLE_STRUCTURES" in
      let root = (made t parent).0 in
      let t0 = (made t parent).1 in
      let filled = with_fields t0 root name self.routing_id in
      let content = c.zconfig_new filled (codes "content") (some root) in
      let h =
        put_message-Header root name self.routing_id t0
          (c.new-Live t (codes "zproto_example") parent)
          (c.new-entries t (codes "zproto_example") parent) in
      (
        tree3 content.1 content.0 self,
        content.0,
        Write-then (put_message root name self) (λ config. zpl_structures config self) t0
              (put_message_lem root name self t0)
            ∙ zpl_structures_lem content.0 self content.1,
        written_lem content.1 root content.0 self h
            (c.new-entries filled (codes "content") (some root)) new_aliases new_headers,
      )

  -- A STRUCTURES message with fewer than 2 ^ 64 aliases, whose header keys are not empty and have
  -- no slash and of which none stands twice: zproto_example_zpl returns a tree, and
  -- zproto_example_new_zpl makes of it an object that says the same message and has the same
  -- routing id.
  pub structures-new_zpl-zpl :
      (assign_array : Bytes → Bytes → Bytes) (self : Example z) (parent : Option c.Item)
      (t : c.Tree)
      → IsObject self
      → All IsByte (frame_bytes self.routing_id)
      → self.id ≡ id_structures
      → length (alias_list self.aliases) < 2 ^ 64
      → new_names [] (header_list self.headers) ≡ true
      → SaysAgain assign_array (message self) self.routing_id (zpl self parent t)
  unfolding zpl_body read_body
  structures-new_zpl-zpl assign_array self parent t v b e few names =
      let frame = self.routing_id in
      let start = started id_structures frame in
      let new = header_part-new self.headers names in
      let (t', config, done, w) =
        structures_tree self parent t (alias_part-new self.aliases few) new in
      let (no_aliases, no_headers) = started-empty id_structures frame in
      let (s, run, id, routed, says) =
        reread_fields t' (made t parent).0 config self start w v new no_aliases no_headers in
      let ex : Exported (made t parent).0 (codes "ZPROTO_EXAMPLE_STRUCTURES") frame
          (structures_entries (alias_part self.aliases) (header_part self.headers) self)
          (zpl_case (made t parent).0 (codes "ZPROTO_EXAMPLE_STRUCTURES") self zpl_structures
            (made t parent).1) =
        record { tree = t'; config = config; done = done; header = w.header; has = w.has } in
      says_again assign_array (message self) frame (zpl_lem id_structures self parent t t' e done)
        (reread assign_array id_structures (codes "ZPROTO_EXAMPLE_STRUCTURES") frame
            (λ t'' item. read_structures t'' item) ex b structures_text structures_known
            (λ t'' s'. refl)
          ∙ run)
        (message-message_as id_structures s (id ∙ started-id id_structures frame)
          ∙ (says ∙ sym (message-message_as id_structures self e)))
        (ap frame_bytes routed ∙ started-routing_id id_structures frame)
