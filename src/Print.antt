-- ===== src/Print.antt =====
-- zproto_example_print of src/zproto_example.c: the lines that it hands to zsys_debug, and the
-- calls of the print functions of CZMQ.
pub mod Tells
use zproto.Base.{ℕ, Option, none, some, List, [], ◌∷◌, ◌++◌}
use zproto.CharArray.{Bytes, c_string}
use zproto.Czmq.{Czmq}
use zproto.Zconfig.{codes}
use zproto.Example.{Example, switch}
use zproto.Decimal.{print_long}

-- zsys_debug with the line that it formats, zframe_print and zmsg_print.
pub data Output (F M : Type 0) : Type 0 where
  line : Bytes → Output F M
  frame : F → Output F M
  parts : M → Output F M

-- "%ld" behind a label.
abbrev pub labelled : {F M : Type 0} → Bytes → ℕ → Output F M
labelled label n = line (label ++ print_long n)

-- '%s' behind a label.
abbrev pub quoted : {F M : Type 0} → Bytes → Bytes → Output F M
quoted label s = line (label ++ c_string s ++ b'\'' ∷ [])

module _ ⦃z : Czmq⦄ where
  abbrev pub Outputs : Type 0
  Outputs = List (Output z.ZFrame z.ZMsg)

  unfoldable pub print_text : Option Bytes → Output z.ZFrame z.ZMsg
  print_text none = line (codes "    data=")
  print_text (some text) = quoted (codes "    data='") text

  unfoldable pub print_log : Example z → Outputs
  print_log self =
      line (codes "ZPROTO_EXAMPLE_LOG:")
      ∷ labelled (codes "    sequence=") self.sequence
      ∷ line (codes "    version=3")
      ∷ labelled (codes "    level=") self.level
      ∷ labelled (codes "    event=") self.event
      ∷ labelled (codes "    node=") self.node
      ∷ labelled (codes "    peer=") self.peer
      ∷ labelled (codes "    time=") self.time
      ∷ quoted (codes "    host='") self.host
      ∷ print_text self.text
      ∷ []

  -- The loop over zlist_first, zlist_next.
  unfoldable pub print_strings : List Bytes → Outputs
  print_strings [] = []
  print_strings (alias ∷ rest) = quoted (codes "        '") alias ∷ print_strings rest

  unfoldable pub print_aliases : Option z.ZList → Outputs
  print_aliases none = []
  print_aliases (some aliases) = print_strings (z.zlist_items aliases)

  -- The loop over zhash_first, zhash_next.
  unfoldable pub print_pairs : List (Bytes × Bytes) → Outputs
  print_pairs [] = []
  print_pairs ((key, item) ∷ rest) =
      line (codes "        " ++ c_string key ++ codes "=" ++ c_string item) ∷ print_pairs rest

  unfoldable pub print_headers : Option z.ZHash → Outputs
  print_headers none = line (codes "(NULL)") ∷ []
  print_headers (some headers) = print_pairs (z.zhash_items headers)

  unfoldable pub print_structures : Example z → Outputs
  print_structures self =
      line (codes "ZPROTO_EXAMPLE_STRUCTURES:")
        ∷ labelled (codes "    sequence=") self.sequence
        ∷ line (codes "    aliases=")
        ∷ print_aliases self.aliases
      ++ line (codes "    headers=") ∷ print_headers self.headers

  unfoldable pub print_types : Example z → Outputs
  print_types self =
      line (codes "ZPROTO_EXAMPLE_TYPES:")
      ∷ labelled (codes "    sequence=") self.sequence
      ∷ quoted (codes "    client_forename='") self.client_forename
      ∷ quoted (codes "    client_surname='") self.client_surname
      ∷ quoted (codes "    client_mobile='") self.client_mobile
      ∷ quoted (codes "    client_email='") self.client_email
      ∷ quoted (codes "    supplier_forename='") self.supplier_forename
      ∷ quoted (codes "    supplier_surname='") self.supplier_surname
      ∷ quoted (codes "    supplier_mobile='") self.supplier_mobile
      ∷ quoted (codes "    supplier_email='") self.supplier_email
      ∷ []

  -- `canonical` is CZMQ's zuuid_str_canonical.
  module _ (canonical : z.ZUuid → Bytes) where
    unfoldable pub print_identifier : Option z.ZUuid → Output z.ZFrame z.ZMsg
    print_identifier none = line (codes "        (NULL)")
    print_identifier (some uuid) = line (codes "        " ++ c_string (canonical uuid))

    unfoldable pub print_address : Option z.ZFrame → Output z.ZFrame z.ZMsg
    print_address none = line (codes "(NULL)")
    print_address (some address) = frame address

    unfoldable pub print_content : Option z.ZMsg → Output z.ZFrame z.ZMsg
    print_content none = line (codes "(NULL)")
    print_content (some content) = parts content

    unfoldable pub print_binary : Example z → Outputs
    print_binary self =
        line (codes "ZPROTO_EXAMPLE_BINARY:")
        ∷ labelled (codes "    sequence=") self.sequence
        ∷ line (codes "    flags=[ ... ]")
        ∷ line (codes "    public_key=[ ... ]")
        ∷ line (codes "    identifier=")
        ∷ print_identifier self.identifier
        ∷ line (codes "    address=")
        ∷ print_address self.address
        ∷ line (codes "    content=")
        ∷ print_content self.content
        ∷ []

    unfoldable pub print_as : ℕ → Example z → Outputs
    print_as id self =
        switch id (print_log self) (print_structures self) (print_binary self) (print_types self) []

    unfoldable pub print : Example z → Outputs
    print self = print_as self.id self
