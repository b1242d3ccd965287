-- ===== src/Zpl.antt =====
-- zproto_example_zpl of src/zproto_example.c: the message as a tree of configuration items.
pub mod Header
pub mod Fields
pub mod Aliases
pub mod SubItem
pub mod Structures
use zproto.Base.{ℕ, suc, ◌+◌, Option, none, some, List, [], ◌∷◌}
use zproto.CharArray.{Bytes, c_string}
use zproto.Czmq.{Czmq}
use zproto.Zconfig.{Zconfig, codes}
use zproto.Example.{Example, switch}
use zproto.Hex.{str_from_bytes}
use zproto.Decimal.{print_long, print_unsigned}

-- What a block of statements comes to: its result, a failed assertion of CZMQ on a container that is
-- NULL, or a write past a block.
pub data Wrote (A : Type 0) : Type 0 where
  wrote : A → Wrote A
  asserted past_block : Wrote A

module _ ⦃z : Czmq⦄ ⦃c : Zconfig z⦄ where
  -- A block of statements over the store of items.
  abbrev pub Write : Type 0 → Type 0
  Write A = c.Tree → Wrote (A × c.Tree)

  abbrev pub continue : {A B : Type 0} → Wrote (A × c.Tree) → (A → Write B) → Wrote (B × c.Tree)
  continue asserted f = asserted
  continue past_block f = past_block
  continue (wrote (a, t)) f = f a t

  infixl 5 ◌>>=◌ ◌>>◌
  abbrev pub ◌>>=◌ : {A B : Type 0} → Write A → (A → Write B) → Write B
  ◌>>=◌ m f t = continue (m t) f

  abbrev pub ◌>>◌ : {B : Type 0} → Write (Unit {0}) → Write B → Write B
  m >> k = m >>= λ _. k

  abbrev pub pure : {A : Type 0} → A → Write A
  pure a t = wrote (a, t)

  abbrev pub new_item : Bytes → Option c.Item → Write c.Item
  new_item name parent t = wrote (c.zconfig_new t name parent)

  -- zconfig_put, and zconfig_putf with the value that it has formatted.
  abbrev pub put : c.Item → Bytes → Bytes → Write (Unit {0})
  put item name value t = wrote (tt, c.zconfig_put t item name value)

  -- STR_FROM_BYTES of the memory of a container, zconfig_putf (item, name, "%s", hex)
  unfoldable pub put_hex : c.Item → Bytes → Bytes → Write (Unit {0})
  put_hex item name mem t = elim (str_from_bytes mem) [
    | none ↦ past_block
    | some hex ↦ wrote (tt, c.zconfig_put t item name hex)
  ]

  -- A container that the functions of CZMQ assert to be there.
  abbrev pub demand : {A : Type 0} → Option A → Write A
  demand none t = asserted
  demand (some a) t = wrote (a, t)

  unfoldable pub put_routing_id : c.Item → Option z.ZFrame → Write (Unit {0})
  put_routing_id root none = pure tt
  put_routing_id root (some frame) = put_hex root (codes "routing_id") (z.zframe_data frame)

  -- The beginning that all four cases share, up to the item for the content.
  unfoldable pub put_message : c.Item → Bytes → Example z → Write c.Item
  put_message root message self = do
    put root (codes "message") message
    put_routing_id root self.routing_id
    new_item (codes "content") (some root)

  unfoldable pub put_text : c.Item → Option Bytes → Write (Unit {0})
  put_text config none = pure tt
  put_text config (some text) = put config (codes "data") (c_string text)

  unfoldable pub zpl_log : c.Item → Example z → Write (Unit {0})
  zpl_log config self = do
    put config (codes "sequence") (print_long self.sequence)
    put config (codes "version") (codes "3")
    put config (codes "level") (print_long self.level)
    put config (codes "event") (print_long self.event)
    put config (codes "node") (print_long self.node)
    put config (codes "peer") (print_long self.peer)
    put config (codes "time") (print_long self.time)
    put config (codes "host") (c_string self.host)
    put_text config self.text

  -- The loop over zlist_first, zlist_next; the keys count from `i`.
  unfoldable pub put_aliases : c.Item → ℕ → List Bytes → Write (Unit {0})
  put_aliases strings i [] = pure tt
  put_aliases strings i (alias ∷ rest) =
      put strings (print_unsigned i) alias >> put_aliases strings (i + 1) rest

  unfoldable pub zpl_aliases : c.Item → Option z.ZList → Write (Unit {0})
  zpl_aliases config none = pure tt
  zpl_aliases config (some list) = do
    strings ← new_item (codes "aliases") (some config)
    put_aliases strings 0 (z.zlist_items list)

  -- The loop over zhash_first, zhash_next.
  unfoldable pub put_headers : c.Item → List (Bytes × Bytes) → Write (Unit {0})
  put_headers hash [] = pure tt
  put_headers hash ((key, item) ∷ rest) = put hash key item >> put_headers hash rest

  unfoldable pub zpl_headers : c.Item → Option z.ZHash → Write (Unit {0})
  zpl_headers config none = pure tt
  zpl_headers config (some headers) = do
    hash ← new_item (codes "headers") (some config)
    put_headers hash (z.zhash_items headers)

  unfoldable pub zpl_structures : c.Item → Example z → Write (Unit {0})
  zpl_structures config self = do
    put config (codes "sequence") (print_long self.sequence)
    zpl_aliases config self.aliases
    zpl_headers config self.headers

  unfoldable pub put_identifier : c.Item → Option z.ZUuid → Write (Unit {0})
  put_identifier config none = pure tt
  put_identifier config (some uuid) = put config (codes "identifier") (c.zuuid_str uuid)

  -- With CZMQ 4, whose zmsg_encode returns a frame.
  unfoldable pub zpl_binary : c.Item → Example z → Write (Unit {0})
  zpl_binary config self = do
    put config (codes "sequence") (print_long self.sequence)
    put_hex config (codes "flags") self.flags
    public_key ← demand self.public_key
    put_hex config (codes "public_key") (z.zchunk_data public_key)
    put_identifier config self.identifier
    address ← demand self.address
    put_hex config (codes "address") (z.zframe_data address)
    content ← demand self.content
    put_hex config (codes "content") (z.zframe_data (c.zmsg_encode content))

  unfoldable pub zpl_types : c.Item → Example z → Write (Unit {0})
  zpl_types config self = do
    put config (codes "sequence") (print_long self.sequence)
    put config (codes "client_forename") (c_string self.client_forename)
    put config (codes "client_surname") (c_string self.client_surname)
    put config (codes "client_mobile") (c_string self.client_mobile)
    put config (codes "client_email") (c_string self.client_email)
    put config (codes "supplier_forename") (c_string self.supplier_forename)
    put config (codes "supplier_surname") (c_string self.supplier_surname)
    put config (codes "supplier_mobile") (c_string self.supplier_mobile)
    put config (codes "supplier_email") (c_string self.supplier_email)

  -- One case: the common beginning, and the fields.
  unfoldable pub zpl_case :
      c.Item → Bytes → Example z → (c.Item → Example z → Write (Unit {0})) → Write (Unit {0})
  zpl_case root message self fields = do config ← put_message root message self; fields config self

  unfoldable pub zpl_body : ℕ → c.Item → Example z → Write (Unit {0})
  zpl_body id root self =
      switch id (zpl_case root (codes "ZPROTO_EXAMPLE_LOG") self zpl_log)
        (zpl_case root (codes "ZPROTO_EXAMPLE_STRUCTURES") self zpl_structures)
        (zpl_case root (codes "ZPROTO_EXAMPLE_BINARY") self zpl_binary)
        (zpl_case root (codes "ZPROTO_EXAMPLE_TYPES") self zpl_types) (pure tt)

  unfoldable pub zpl : Example z → Option c.Item → Write c.Item
  zpl self parent = do
    root ← new_item (codes "zproto_example") parent
    zpl_body self.id root self
    pure root
