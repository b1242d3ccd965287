-- ===== src/ConfigFormat/Log.antt =====
-- A LOG message in the configuration format.
use zproto.Zpl.{wrote}
use zproto.Base.{◌%◌, ◌^◌, ◌≡◌, refl, sym, ap, ◌∙◌, Option, none, some, All, arith, same_bytes}
use zproto.CharArray.{Bytes, c_string}
use zproto.CharArray.Laws.{IsByte, c_string-c_string}
use zproto.Czmq.{Czmq}
use zproto.Zconfig.{Zconfig, codes}
use zproto.Zconfig.Puts.{values}
use mathlib.Core.Path.{subst}
use zproto.Example.{Example, id_log, new}
use zproto.Example.View.{text_of, log, IsObject, message, log_message, frame_bytes}
use zproto.Zpl.{zpl_case, zpl, zpl_body, zpl_log}
use zproto.Zpl.Fields.{log_fields, log_fields-new, zpl_log_lem, zpl_case_lem, Exported}
use zproto.NewZpl.{created, new_zpl, new_message, read_body, read_log}
use zproto.NewZpl.Header.{started}
use zproto.NewZpl.Flat.{log_read, read_log_lem, read_log-null}
use zproto.ConfigFormat.{SaysAgain, IsRefused}
use zproto.ConfigFormat.Made.{
  reread, message-message_as, says_again, made, zpl_lem, started-id, started-host,
  started-routing_id, c_string-copied_array,
}

module _ ⦃z : Czmq⦄ ⦃c : Zconfig z⦄ where
  log_known :
      new_message (codes "ZPROTO_EXAMPLE_LOG") ≡ created (zproto.Access.Numbers.set_id new id_log)
  unfolding new_message same_bytes
  log_known = refl

  log_text : c_string (codes "ZPROTO_EXAMPLE_LOG") ≡ codes "ZPROTO_EXAMPLE_LOG"
  unfolding c_string
  log_text = refl

  log_message-read :
      (self s : Example z) (text : Bytes)
      → IsObject self
      → self.text ≡ some text
      → log_message (log_read self text s) ≡ log_message self
  log_message-read self s text v e =
      let four : c_string (c_string (c_string (c_string text))) ≡ c_string text =
        simp c_string-c_string in
      let a : self.sequence % 2 ^ 16 ≡ self.sequence = omega (arith, v.sequence) in
      let b : self.level % 2 ^ 8 ≡ self.level = omega (arith, v.level) in
      let d : self.event % 2 ^ 8 ≡ self.event = omega (arith, v.event) in
      let f : self.node % 2 ^ 16 ≡ self.node = omega (arith, v.node) in
      let g : self.peer % 2 ^ 16 ≡ self.peer = omega (arith, v.peer) in
      rw (a, b, d, f, g, c_string-copied_array self.host v.host, four)
        (ap
          (log self.sequence self.level self.event self.node self.peer self.time
            (c_string self.host))
          (ap text_of (sym e)))

  -- The tree of a LOG message.
  log_tree :
      (self : Example z) (parent : Option c.Item) (t : c.Tree)
      → Exported
          (made t parent).0
          (codes "ZPROTO_EXAMPLE_LOG")
          self.routing_id
          (values (log_fields self self.text))
          (zpl_case (made t parent).0 (codes "ZPROTO_EXAMPLE_LOG") self zpl_log (made t parent).1)
  log_tree self parent t =
      zpl_case_lem _ _ self zpl_log (log_fields self self.text) _
        (c.new-Live t (codes "zproto_example") parent)
        (c.new-entries t (codes "zproto_example") parent) (λ config t'. zpl_log_lem config self t')
        (log_fields-new self self.text)

  zpl-log :
      (self : Example z) (parent : Option c.Item) (t : c.Tree)
      → self.id ≡ id_log
      → zpl self parent t ≡ wrote ((made t parent).0, (log_tree self parent t).tree)
  unfolding zpl_body
  zpl-log self parent t e = zpl_lem id_log self parent t _ e (log_tree self parent t).done

  reread-log :
      (assign_array : Bytes → Bytes → Bytes) (self : Example z) (parent : Option c.Item)
      (t : c.Tree)
      → All IsByte (frame_bytes self.routing_id)
      → new_zpl assign_array (log_tree self parent t).tree (made t parent).0
        ≡ read_log
            (log_tree self parent t).tree
            (log_tree self parent t).config
            (started id_log self.routing_id)
  unfolding read_body
  reread-log assign_array self parent t b =
      reread assign_array id_log (codes "ZPROTO_EXAMPLE_LOG") self.routing_id
        (λ t' config. read_log t' config) (log_tree self parent t) b log_text log_known
        (λ t' s. refl)

  -- A LOG message with a text: zproto_example_zpl returns a tree, and zproto_example_new_zpl makes
  -- of it an object that says the same message and has the same routing id.
  pub log-new_zpl-zpl :
      (assign_array : Bytes → Bytes → Bytes) (self : Example z) (parent : Option c.Item)
      (t : c.Tree) (text : Bytes)
      → IsObject self
      → All IsByte (frame_bytes self.routing_id)
      → self.id ≡ id_log
      → self.text ≡ some text
      → SaysAgain assign_array (message self) self.routing_id (zpl self parent t)
  log-new_zpl-zpl assign_array self parent t text v b e k =
      let frame = self.routing_id in
      let tree = log_tree self parent t in
      let s = log_read self text (started id_log frame) in
      let es = ap (λ o. values (log_fields self o)) k in
      says_again assign_array (message self) frame (zpl-log self parent t e)
        (reread-log assign_array self parent t b
          ∙ read_log_lem tree.tree tree.config self (started id_log frame) text
              (record { live = tree.has.live; entries = tree.has.entries ∙ es }) v
              (started-host id_log frame))
        (message-message_as id_log s (started-id id_log frame)
          ∙ (log_message-read self (started id_log frame) text v k
              ∙ sym (message-message_as id_log self e)))
        (started-routing_id id_log frame)

  -- A LOG message without a text: zproto_example_zpl returns a tree, of which
  -- zproto_example_new_zpl makes no object.
  pub log-no_text :
      (assign_array : Bytes → Bytes → Bytes) (self : Example z) (parent : Option c.Item)
      (t : c.Tree)
      → IsObject self
      → All IsByte (frame_bytes self.routing_id)
      → self.id ≡ id_log
      → self.text ≡ none
      → IsRefused assign_array (zpl self parent t)
  log-no_text assign_array self parent t v b e k =
      let tree = log_tree self parent t in
      let es = ap (λ o. values (log_fields self o)) k in
      subst (IsRefused assign_array) (sym (zpl-log self parent t e)) (
        reread-log assign_array self parent t b
        ∙ read_log-null tree.tree tree.config self (started id_log self.routing_id)
            (record { live = tree.has.live; entries = tree.has.entries ∙ es }) v
            (started-host id_log self.routing_id))
