-- ===== src/NewZpl.antt =====
-- zproto_example_new_zpl of src/zproto_example.c: a message out of a tree of configuration items.
pub mod Reads
pub mod Header
pub mod Flat
pub mod Blocks
pub mod Containers
pub mod Safe
pub mod AnyFields
pub mod AnyTree
use zproto.Base.{ℕ, ◌%◌, ◌^◌, Option, none, some, List, [], ◌∷◌, if◌then◌else◌, same_bytes}
use zproto.CharArray.{Bytes, c_string, strncpy}
use zproto.Czmq.{Czmq}
use zproto.Zconfig.{Zconfig, codes, is_nil}
use zproto.Example.{Example, new, switch, id_log, id_structures, id_binary, id_types}
use zproto.Hex.{Parsed, bytes_from_str}
use zproto.Decimal.{strtoll}
use zproto.Access.Numbers.{set_id}

-- The function returns the object or NULL, an assertion ends the program, or the behaviour is
-- undefined.
pub data Created (A : Type 0) : Type 0 where
  created : A → Created A
  null aborted undefined : Created A

infixl 5 ◌>>=◌
abbrev pub ◌>>=◌ : {A B : Type 0} → Created A → (A → Created B) → Created B
created a >>= f = f a
null >>= f = null
aborted >>= f = aborted
undefined >>= f = undefined

-- if (!s) return NULL;
abbrev pub need : {A : Type 0} → Option A → Created A
need none = null
need (some a) = created a

-- BYTES_FROM_STR; zmalloc does not fail.
abbrev pub from_hex : Parsed → Created Bytes
from_hex (Parsed.bytes mem) = created mem
from_hex Parsed.null = null
from_hex Parsed.aborted = aborted
from_hex Parsed.undefined = undefined

abbrev pub written : Option Bytes → Created Bytes
written none = undefined
written (some cells) = created cells

-- es != s + strlen (s)
abbrev pub whole : ℕ × Bytes → Created ℕ
whole (uvalue, es) = if is_nil es then created uvalue else null

module _ ⦃z : Czmq⦄ ⦃c : Zconfig z⦄ where
  module _ (t : c.Tree) (content : c.Item) where
    unfoldable pub get_number : Bytes → Created ℕ
    get_number name = do s ← need (c.zconfig_get t content name); whole (strtoll s)

    -- strncpy (self->field, s, 255), on the field's memory.
    unfoldable pub get_string : Bytes → Bytes → Created Bytes
    get_string name cells = do
      s ← need (c.zconfig_get t content name)
      written (strncpy cells s 255)

    unfoldable pub get_bytes : Bytes → Created Bytes
    get_bytes name = do s ← need (c.zconfig_get t content name); from_hex (bytes_from_str (some s))

    unfoldable pub read_log : Example z → Created (Example z)
    read_log self = do
      n ← get_number (codes "sequence")
      let self = record self { sequence = n % 2 ^ 16 }
      n ← get_number (codes "level")
      let self = record self { level = n % 2 ^ 8 }
      n ← get_number (codes "event")
      let self = record self { event = n % 2 ^ 8 }
      n ← get_number (codes "node")
      let self = record self { node = n % 2 ^ 16 }
      n ← get_number (codes "peer")
      let self = record self { peer = n % 2 ^ 16 }
      n ← get_number (codes "time")
      let self = record self { time = n }
      cells ← get_string (codes "host") self.host
      let self = record self { host = cells }
      s ← need (c.zconfig_get t content (codes "data"))
      created (record self { text = some (c_string s) })

  -- The loop over zconfig_child, zconfig_next; zlist_append of zconfig_value.
  unfoldable pub append_values : z.ZList → List (Bytes × Bytes) → z.ZList
  append_values strings [] = strings
  append_values strings ((name, value) ∷ rest) = append_values (z.zlist_append strings value) rest

  -- The loop with zhash_update of zconfig_name and zconfig_value.
  unfoldable pub update_values : z.ZHash → List (Bytes × Bytes) → z.ZHash
  update_values hash [] = hash
  update_values hash ((name, value) ∷ rest) = update_values (c.zhash_update hash name value) rest

  unfoldable pub read_aliases : c.Tree → Option c.Item → Example z → Example z
  read_aliases t none self = self
  read_aliases t (some zstrings) self = record self {
    aliases = some (append_values z.zlist_new (c.entries t zstrings));
  }

  unfoldable pub read_headers : c.Tree → Option c.Item → Example z → Example z
  read_headers t none self = self
  read_headers t (some zhash) self = record self {
    headers = some (update_values z.zhash_new (c.entries t zhash));
  }

  unfoldable pub read_identifier : Option Bytes → Example z → Example z
  read_identifier none self = self
  read_identifier (some s) self = record self { identifier = some (c.zuuid_set_str c.zuuid_new s) }

  module _ (t : c.Tree) (content : c.Item) where
    unfoldable pub read_structures : Example z → Created (Example z)
    read_structures self = do
      n ← get_number t content (codes "sequence")
      let self = record self { sequence = n % 2 ^ 16 }
      let self = read_aliases t (c.zconfig_locate t content (codes "aliases")) self
      created (read_headers t (c.zconfig_locate t content (codes "headers")) self)

    -- `self->flags = bvalue` assigns a pointer to an array, which C does not allow; what a compiler
    -- makes of it is `assign_array`, of the array and the block. With CZMQ 4.
    unfoldable pub read_binary : (Bytes → Bytes → Bytes) → Example z → Created (Example z)
    read_binary assign_array self = do
      n ← get_number t content (codes "sequence")
      let self = record self { sequence = n % 2 ^ 16 }
      bvalue ← get_bytes t content (codes "flags")
      let self = record self { flags = assign_array self.flags bvalue }
      bvalue ← get_bytes t content (codes "public_key")
      let self = record self { public_key = some (z.zchunk_new bvalue) }
      let self = read_identifier (c.zconfig_get t content (codes "identifier")) self
      bvalue ← get_bytes t content (codes "address")
      let self = record self { address = some (c.zframe_new bvalue) }
      bvalue ← get_bytes t content (codes "content")
      created (record self { content = c.zmsg_decode (c.zframe_new bvalue) })

    unfoldable pub read_types : Example z → Created (Example z)
    read_types self = do
      n ← get_number t content (codes "sequence")
      let self = record self { sequence = n % 2 ^ 16 }
      cells ← get_string t content (codes "client_forename") self.client_forename
      let self = record self { client_forename = cells }
      cells ← get_string t content (codes "client_surname") self.client_surname
      let self = record self { client_surname = cells }
      cells ← get_string t content (codes "client_mobile") self.client_mobile
      let self = record self { client_mobile = cells }
      cells ← get_string t content (codes "client_email") self.client_email
      let self = record self { client_email = cells }
      cells ← get_string t content (codes "supplier_forename") self.supplier_forename
      let self = record self { supplier_forename = cells }
      cells ← get_string t content (codes "supplier_surname") self.supplier_surname
      let self = record self { supplier_surname = cells }
      cells ← get_string t content (codes "supplier_mobile") self.supplier_mobile
      let self = record self { supplier_mobile = cells }
      cells ← get_string t content (codes "supplier_email") self.supplier_email
      created (record self { supplier_email = cells })

  -- The chain of streq on `message`.
  unfoldable pub new_message : Bytes → Created (Example z)
  new_message message =
      if same_bytes (codes "ZPROTO_EXAMPLE_LOG") message
      then created (set_id new id_log)
      else if same_bytes (codes "ZPROTO_EXAMPLE_STRUCTURES") message
      then created (set_id new id_structures)
      else if same_bytes (codes "ZPROTO_EXAMPLE_BINARY") message
      then created (set_id new id_binary)
      else if same_bytes (codes "ZPROTO_EXAMPLE_TYPES") message
      then created (set_id new id_types)
      else null

  unfoldable pub read_routing_id : Option Bytes → Example z → Created (Example z)
  read_routing_id none self = created self
  read_routing_id (some s) self = do
    bvalue ← from_hex (bytes_from_str (some s))
    created (record self { routing_id = some (c.zframe_new bvalue) })

  -- content = zconfig_locate (config, "content"), at the beginning of each case.
  unfoldable pub read_case :
      c.Tree → c.Item → (c.Item → Example z → Created (Example z)) → Example z → Created (Example z)
  read_case t config fields self = do
    content ← need (c.zconfig_locate t config (codes "content"))
    fields content self

  unfoldable pub read_body :
      (Bytes → Bytes → Bytes) → ℕ → c.Tree → c.Item → Example z → Created (Example z)
  read_body assign_array id t config self =
      switch id (read_case t config (read_log t) self) (read_case t config (read_structures t) self)
        (read_case t config (λ content. read_binary t content assign_array) self)
        (read_case t config (read_types t) self) (created self)

  unfoldable pub new_zpl : (Bytes → Bytes → Bytes) → c.Tree → c.Item → Created (Example z)
  new_zpl assign_array t config = do
    message ← need (c.zconfig_get t config (codes "message"))
    self ← new_message message
    self ← read_routing_id (c.zconfig_get t config (codes "routing_id")) self
    read_body assign_array self.id t config self
