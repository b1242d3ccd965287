-- ===== src/SelfTest/Steps.antt =====
-- The messages of zproto_example_test (src/zproto_example.c): what is set, and what is asserted of
-- the object that comes back.
use zproto.Base.{some, ◌==◌, get_elem?}
use zproto.CharArray.{Bytes, block}
use zproto.Czmq.{Czmq}
use zproto.Zconfig.{Zconfig, codes}
use zproto.Example.{new, id_log, id_structures, id_binary, id_types}
use zproto.Access.Numbers
use zproto.Access.Strings
use zproto.Access.Owned
use zproto.Network.{Network}
use zproto.SelfTest.{
  Inspect, Test, ◌>>=◌, ◌>>◌, get_self, change, try_change, assert, demand, assert_streq,
  assert_memcmp,
}
use zproto.SelfTest.Exchange.{exchange}

module _ ⦃z : Czmq⦄ where
  abbrev pub three_aliases : z.ZList
  three_aliases =
      z.zlist_append
        (z.zlist_append (z.zlist_append z.zlist_new (codes "First alias")) (codes "Second alias"))
        (codes "Third alias")

  abbrev pub one_header : z.ZHash
  one_header = z.zhash_insert z.zhash_new (codes "endpoint") (codes "tcp://localhost:5665")

module _ ⦃z : Czmq⦄ ⦃c : Zconfig z⦄ where
  unfoldable pub set_log : Test (Unit {0})
  set_log = do
    change (λ s. Numbers.set_id s id_log)
    change (λ s. Numbers.set_sequence s 123)
    change (λ s. Numbers.set_level s 2)
    change (λ s. Numbers.set_event s 3)
    change (λ s. Numbers.set_node s 45536)
    change (λ s. Numbers.set_peer s 65535)
    change (λ s. Numbers.set_time s 1427261426)
    try_change (λ s. Strings.set_host s (block (codes "localhost")))
    change (λ s. Strings.set_text s (codes "This is the message to log"))

  unfoldable pub check_log : Test (Unit {0})
  check_log = do
    self ← get_self
    assert (Numbers.sequence self == 123)
    assert (Numbers.level self == 2)
    assert (Numbers.event self == 3)
    assert (Numbers.node self == 45536)
    assert (Numbers.peer self == 65535)
    assert (Numbers.time self == 1427261426)
    assert_streq (some (Strings.host self)) (codes "localhost")
    assert_streq (Strings.text self) (codes "This is the message to log")

  -- The pointers of the test are NULL after this: zlist_destroy and zhash_destroy of them do
  -- nothing.
  unfoldable pub set_structures : Test (Unit {0})
  set_structures = do
    change (λ s. Numbers.set_id s id_structures)
    change (λ s. Numbers.set_sequence s 123)
    change (λ s. (Owned.set_aliases s (some three_aliases)).0)
    change (λ s. (Owned.set_headers s (some one_header)).0)

  -- zlist_first and zlist_next go through the items.
  unfoldable pub check_structures : Test (Unit {0})
  check_structures = do
    self ← get_self
    assert (Numbers.sequence self == 123)
    change (λ s. (Owned.get_aliases s).1)
    aliases ← demand (Owned.get_aliases self).0
    assert_streq (get_elem? (z.zlist_items aliases) 0) (codes "First alias")
    assert_streq (get_elem? (z.zlist_items aliases) 1) (codes "Second alias")
    assert_streq (get_elem? (z.zlist_items aliases) 2) (codes "Third alias")
    self ← get_self
    change (λ s. (Owned.get_headers s).1)
    headers ← demand (Owned.get_headers self).0
    assert_streq (z.zhash_lookup headers (codes "endpoint")) (codes "tcp://localhost:5665")

  unfoldable pub set_types : Test (Unit {0})
  set_types = do
    change (λ s. Numbers.set_id s id_types)
    change (λ s. Numbers.set_sequence s 123)
    try_change (λ s. Strings.set_client_forename s (block (codes "Lucius Junius")))
    try_change (λ s. Strings.set_client_surname s (block (codes "Brutus")))
    try_change (λ s. Strings.set_client_mobile s (block (codes "01234567890")))
    try_change (λ s. Strings.set_client_email s (block (codes "brutus@example.com")))
    try_change (λ s. Strings.set_supplier_forename s (block (codes "Leslie")))
    try_change (λ s. Strings.set_supplier_surname s (block (codes "Lamport")))
    try_change (λ s. Strings.set_supplier_mobile s (block (codes "01987654321")))
    try_change (λ s. Strings.set_supplier_email s (block (codes "lamport@example.com")))

  unfoldable pub check_types : Test (Unit {0})
  check_types = do
    self ← get_self
    assert (Numbers.sequence self == 123)
    assert_streq (some (Strings.client_forename self)) (codes "Lucius Junius")
    assert_streq (some (Strings.client_surname self)) (codes "Brutus")
    assert_streq (some (Strings.client_mobile self)) (codes "01234567890")
    assert_streq (some (Strings.client_email self)) (codes "brutus@example.com")
    assert_streq (some (Strings.supplier_forename self)) (codes "Leslie")
    assert_streq (some (Strings.supplier_surname self)) (codes "Lamport")
    assert_streq (some (Strings.supplier_mobile self)) (codes "01987654321")
    assert_streq (some (Strings.supplier_email self)) (codes "lamport@example.com")

module _ ⦃z : Czmq⦄ ⦃c : Zconfig z⦄ ⦃i : Inspect z c⦄ where
  abbrev pub test_uuid : z.ZUuid
  test_uuid = c.zuuid_set_str c.zuuid_new (codes "3a60e6850a1e4cc15f3bfd4b42bc6b3e")

  -- zmsg_addstr (zproto_example_content (self), s)
  abbrev pub add_content : Bytes → Test (Unit {0})
  add_content s = do
    self ← get_self
    content ← demand (Owned.content self)
    change (λ self. record self { content = some (i.zmsg_addstr content s) })

  unfoldable pub set_binary : Test (Unit {0})
  set_binary = do
    change (λ s. Numbers.set_id s id_binary)
    change (λ s. Numbers.set_sequence s 123)
    try_change (λ s. Strings.set_flags s (codes "b38c"))
    change (λ s. (Owned.set_public_key s (some (z.zchunk_new (codes "89f5ffe70d747869dfe8")))).0)
    change (λ s. (Owned.set_identifier s (some test_uuid)).0)
    change (λ s. (Owned.set_address s (some (c.zframe_new (codes "0206f99f6137d9fe380f")))).0)
    change (λ s. (Owned.set_content s (some z.zmsg_new)).0)
    add_content (codes "728a92c6749235ba7002")

  -- zmsg_popstr takes the frame out of the content that the object owns.
  unfoldable pub check_binary : Test (Unit {0})
  check_binary = do
    self ← get_self
    assert (Numbers.sequence self == 123)
    assert_memcmp (Strings.flags self) (codes "b38c") 4
    public_key ← demand (Owned.public_key self)
    assert_memcmp (z.zchunk_data public_key) (codes "89f5ffe70d747869dfe8") 20
    identifier ← demand (Owned.identifier self)
    assert (i.zuuid_eq test_uuid (z.zuuid_data identifier))
    address ← demand (Owned.address self)
    assert (i.zframe_streq address (codes "0206f99f6137d9fe380f"))
    content ← demand (Owned.content self)
    assert (z.zmsg_size content == 1)
    change (λ self. record self { content = some (i.zmsg_popstr content).1 })
    assert_streq (i.zmsg_popstr content).0 (codes "728a92c6749235ba7002")

  module _ ⦃n : Network z⦄ where
    -- On the new object; `rid` is the routing id that `input` gives to its peer `output`.
    unfoldable pub self_test : (Bytes → Bytes → Bytes) → Bytes → Test (Unit {0})
    self_test assign_array rid = do
      change (λ s. new)
      set_log
      exchange assign_array rid check_log
      set_structures
      exchange assign_array rid check_structures
      set_binary
      exchange assign_array rid check_binary
      set_types
      exchange assign_array rid check_types
