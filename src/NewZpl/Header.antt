-- ===== src/NewZpl/Header.antt =====
-- The beginning of zproto_example_new_zpl, on a root that zproto_example_zpl has made.
use zproto.Base.{ℕ, ◌≡◌, refl, ap, ◌∙◌, Option, none, some, [], ◌∷◌, ◌++◌, lookup, same_bytes, All}
use zproto.CharArray.{Bytes, c_string}
use zproto.CharArray.Laws.{IsByte}
use zproto.Czmq.{Czmq}
use zproto.Zconfig.{Zconfig, codes, IsName}
use zproto.Zconfig.Puts.{values}
use zproto.Example.{Example, new}
use zproto.Example.View.{frame_bytes}
use zproto.Access.Numbers.{set_id}
use zproto.Hex.{bytes_from_str}
use zproto.Hex.RoundTrip.{hex, bytes_from_str-hex, c_string-hex}
use zproto.Zpl.Header.{Header, root_fields}
use zproto.NewZpl.{
  Created, created, need, from_hex, new_message, read_routing_id, read_body, read_case, new_zpl,
}
use zproto.NewZpl.Reads.{Created-then, Has, get_lem}

module _ ⦃z : Czmq⦄ ⦃c : Zconfig z⦄ where
  -- The new object, with the routing id if there is one.
  abbrev pub started : ℕ → Option z.ZFrame → Example z
  started id none = set_id new id
  started id (some frame) = record (set_id new id) {
    routing_id = some (c.zframe_new (z.zframe_data frame));
  }

  message-IsName : IsName (codes "message")
  unfolding c_string
  message-IsName = (refl, refl, refl)

  routing_id-IsName : IsName (codes "routing_id")
  unfolding c_string
  routing_id-IsName = (refl, refl, refl)

  Header-Has :
      {t : c.Tree} {root config : c.Item} {message : Bytes} {frame : Option z.ZFrame}
      → Header t root config message frame
      → Has t root (values (root_fields message frame) ++ (codes "content", []) ∷ [])
  Header-Has h = record { live = h.live_root; entries = h.root_entries }

  get-message :
      {t : c.Tree} {root config : c.Item} {message : Bytes} {frame : Option z.ZFrame}
      → Header t root config message frame
      → c.zconfig_get t root (codes "message") ≡ some (c_string message)
  unfolding lookup same_bytes
  get-message h = get_lem _ _ _ (Header-Has h) (codes "message") message-IsName

  read_routing_id-hex :
      (mem : Bytes) (self : Example z)
      → All IsByte mem
      → read_routing_id (some (c_string (hex mem))) self
        ≡ created (record self { routing_id = some (c.zframe_new mem) })
  unfolding read_routing_id
  read_routing_id-hex mem self b =
      Created-then (λ bvalue. created (record self { routing_id = some (c.zframe_new bvalue) }))
        (ap from_hex
          (ap (λ s. bytes_from_str (some s)) (c_string-hex mem b) ∙ bytes_from_str-hex mem b))

  read_routing_id_lem :
      (id : ℕ) {t : c.Tree} {root config : c.Item} {message : Bytes} (frame : Option z.ZFrame)
      → Header t root config message frame
      → All IsByte (frame_bytes frame)
      → read_routing_id (c.zconfig_get t root (codes "routing_id")) (set_id new id)
        ≡ created (started id frame)
  unfolding lookup same_bytes
  read_routing_id_lem id none h b =
      ap (λ o. read_routing_id o (set_id new id))
        (get_lem _ _ _ (Header-Has h) (codes "routing_id") routing_id-IsName)
      ∙ unfold read_routing_id in refl
  read_routing_id_lem id (some frame) h b =
      ap (λ o. read_routing_id o (set_id new id))
        (get_lem _ _ _ (Header-Has h) (codes "routing_id") routing_id-IsName)
      ∙ read_routing_id-hex (z.zframe_data frame) (set_id new id) b

  -- Up to the switch, new_zpl makes an object with the message's id and the routing id.
  pub new_zpl_lem :
      (assign_array : Bytes → Bytes → Bytes) (id : ℕ) (t : c.Tree) (root config : c.Item)
      (message : Bytes) (frame : Option z.ZFrame)
      → Header t root config message frame
      → All IsByte (frame_bytes frame)
      → c_string message ≡ message
      → new_message message ≡ created (set_id new id)
      → new_zpl assign_array t root
        ≡ read_body assign_array (started id frame).id t root (started id frame)
  unfolding new_zpl
  new_zpl_lem assign_array id t root config message frame h b text known =
      Created-then _ (ap need (get-message h ∙ ap some text))
      ∙ (Created-then _ known ∙ Created-then _ (read_routing_id_lem id frame h b))

  -- The switch finds the item for the content.
  pub read_case_lem :
      {t : c.Tree} {root config : c.Item} {message : Bytes} {frame : Option z.ZFrame}
      (fields : c.Item → Example z → Created (Example z)) (self : Example z)
      → Header t root config message frame
      → read_case t root fields self ≡ fields config self
  unfolding read_case
  read_case_lem fields self h = Created-then (λ content. fields content self) (ap need h.located)
