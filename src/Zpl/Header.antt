-- ===== src/Zpl/Header.antt =====
-- The part of the tree that all messages share: the root with the message's name and the routing
-- id, and the item for the content.
use zproto.Zpl.{wrote}
use zproto.Base.{
  ◌≡◌, ◌≢◌, refl, ap, ◌∙◌, Option, none, some, true, List, [], ◌∷◌, ◌++◌, same_bytes, lookup,
}
use zproto.CharArray.{Bytes, c_string}
use zproto.Czmq.{Czmq}
use zproto.Zconfig.{Zconfig, codes, IsName}
use zproto.Zconfig.Puts.{puts, puts-Live, puts-entries, values, new_names, Kept}
use zproto.Example.{Example}
use zproto.Hex.RoundTrip.{hex, str_from_bytes-hex}
use zproto.Zpl.{Write, continue, ◌>>=◌, put_hex, put_routing_id, put_message}

module _ ⦃z : Czmq⦄ ⦃c : Zconfig z⦄ where
  -- A statement that comes to its end, in front of the rest of a block.
  pub Write-then :
      {A B : Type 0} (m : Write A) (f : A → Write B) (t : c.Tree) {a : A} {t' : c.Tree}
      → m t ≡ wrote (a, t')
      → (m >>= f) t ≡ f a t'
  Write-then m f t e = ap (λ o. continue o f) e

  pub put_hex_lem :
      (i : c.Item) (n mem : Bytes) (t : c.Tree)
      → put_hex i n mem t ≡ wrote (tt, c.zconfig_put t i n (hex mem))
  unfolding put_hex
  put_hex_lem i n mem t = rw (str_from_bytes-hex mem, put_hex) refl

  abbrev pub routing_field : Option z.ZFrame → List (Bytes × Bytes)
  routing_field none = []
  routing_field (some frame) = (codes "routing_id", hex (z.zframe_data frame)) ∷ []

  abbrev pub root_fields : Bytes → Option z.ZFrame → List (Bytes × Bytes)
  root_fields message frame = (codes "message", message) ∷ routing_field frame

  root_fields-new :
      (message : Bytes) (frame : Option z.ZFrame) → new_names [] (root_fields message frame) ≡ true
  unfolding lookup same_bytes c_string
  root_fields-new message none = refl
  root_fields-new message (some frame) = refl

  content_absent :
      (message : Bytes) (frame : Option z.ZFrame)
      → lookup (codes "content") (values (root_fields message frame)) ≡ none
  unfolding lookup same_bytes
  content_absent message none = refl
  content_absent message (some frame) = refl

  pub content-IsName : IsName (codes "content")
  unfolding c_string
  content-IsName = (refl, refl, refl)

  put_routing_id_lem :
      (root : c.Item) (frame : Option z.ZFrame) (t : c.Tree)
      → put_routing_id root frame t ≡ wrote (tt, puts t root (routing_field frame))
  unfolding put_routing_id puts
  put_routing_id_lem root none t = refl
  put_routing_id_lem root (some frame) t = put_hex_lem root _ _ t

  pub record Header (t : c.Tree) (root config : c.Item) (message : Bytes) (frame : Option z.ZFrame)
      : Type 0 where
    pub live_root : c.Live t root
    pub live_config : c.Live t config
    pub distinct : root ≢ config
    pub root_entries :
        c.entries t root ≡ values (root_fields message frame) ++ (codes "content", []) ∷ []
    pub located : c.zconfig_locate t root (codes "content") ≡ some config

  pub with_fields : c.Tree → c.Item → Bytes → Option z.ZFrame → c.Tree
  with_fields t root message frame = puts t root (root_fields message frame)

  -- What the common beginning makes of a root without children.
  pub put_message_lem :
      (root : c.Item) (message : Bytes) (self : Example z) (t : c.Tree)
      → put_message root message self t
        ≡ wrote (
            c.zconfig_new
              (with_fields t root message self.routing_id)
              (codes "content")
              (some root))
  unfolding put_message with_fields puts
  put_message_lem root message self t =
      Write-then (put_routing_id root self.routing_id) _ _
        (put_routing_id_lem root self.routing_id (c.zconfig_put t root (codes "message") message))

  pub put_message-Header :
      (root : c.Item) (message : Bytes) (frame : Option z.ZFrame) (t : c.Tree)
      → c.Live t root
      → c.entries t root ≡ []
      → Header
          (c.zconfig_new (with_fields t root message frame) (codes "content") (some root)).1
          root
          (c.zconfig_new (with_fields t root message frame) (codes "content") (some root)).0
          message
          frame
  unfolding with_fields
  put_message-Header root message frame t h e =
      let l = root_fields message frame in
      let t' = puts t root l in
      let k = puts-Live l t root root h in
      let n : new_names (c.entries t root) l ≡ true = rw e (root_fields-new message frame) in
      let es : c.entries t' root ≡ values l =
        puts-entries l t root h n ∙ ap (λ old. old ++ values l) e in
      let fresh = c.new-fresh t' (codes "content") (some root) root k in
      record {
        live_root = fresh.0;
        live_config = c.new-Live t' (codes "content") (some root);
        distinct = fresh.1;
        root_entries =
            c.new-parent t' (codes "content") root k content-IsName.2
            ∙ ap (λ old. old ++ (codes "content", []) ∷ []) es;
        located =
            c.new-locate t' (codes "content") root k content-IsName
              (rw es (content_absent message frame));
      }

  -- Puts on another item leave it.
  pub Header-Kept :
      {t t' : c.Tree} {root config : c.Item} {message : Bytes} {frame : Option z.ZFrame}
      → Header t root config message frame
      → Kept t t' root
      → c.Live t' config
      → Header t' root config message frame
  Header-Kept h k l = record {
    live_root = k.live;
    live_config = l;
    distinct = h.distinct;
    root_entries = k.entries ∙ h.root_entries;
    located = k.locate _ _ h.located;
  }
