-- ===== src/Dup.antt =====
-- zproto_example_dup of src/zproto_example.c: a deep copy, made by the getters and setters.
pub mod Copy
pub mod Says
use zproto.Base.{Option, none, some}
use zproto.CharArray.{Bytes, Source, block}
use zproto.Czmq.{Czmq}
use zproto.Example.{Example, new}
use zproto.Access.Numbers
use zproto.Access.Strings
use zproto.Access.Owned

infixl 5 ◌>>=◌
abbrev pub ◌>>=◌ {ℓ} : {A B : Type ℓ} → Option A → (A → Option B) → Option B
none >>= f = none
some a >>= f = f a

module _ ⦃z : Czmq⦄ where
  unfoldable pub dup_numbers : Example z → Example z → Example z
  dup_numbers copy other =
      let copy = (Owned.set_routing_id copy (Owned.routing_id other)).0 in
      let copy = Numbers.set_id copy (Numbers.id other) in
      let copy = Numbers.set_sequence copy (Numbers.sequence other) in
      let copy = Numbers.set_level copy (Numbers.level other) in
      let copy = Numbers.set_event copy (Numbers.event other) in
      let copy = Numbers.set_node copy (Numbers.node other) in
      let copy = Numbers.set_peer copy (Numbers.peer other) in
      Numbers.set_time copy (Numbers.time other)

  -- if (str) set_data (copy, str)
  unfoldable pub dup_text : Example z → Option Bytes → Example z
  dup_text copy none = copy
  dup_text copy (some text) = Strings.set_text copy text

  -- The containers, each copied and handed over; flags is not among them.
  unfoldable pub dup_owned : Example z → Example z → Example z
  dup_owned copy other =
      let copy = (Owned.set_aliases copy (z.zlist_dup (Owned.aliases other))).0 in
      let copy = (Owned.set_headers copy (z.zhash_dup (Owned.headers other))).0 in
      let copy = (Owned.set_public_key copy (z.zchunk_dup (Owned.public_key other))).0 in
      let copy = (Owned.set_identifier copy (Owned.identifier other)).0 in
      let copy = (Owned.set_address copy (z.zframe_dup (Owned.address other))).0 in
      (Owned.set_content copy (z.zmsg_dup (Owned.content other))).0

  unfoldable pub dup_names : Example z → Example z → Option (Example z)
  dup_names copy other = do
    copy ← Strings.set_client_forename copy (block (Strings.client_forename other))
    copy ← Strings.set_client_surname copy (block (Strings.client_surname other))
    copy ← Strings.set_client_mobile copy (block (Strings.client_mobile other))
    copy ← Strings.set_client_email copy (block (Strings.client_email other))
    copy ← Strings.set_supplier_forename copy (block (Strings.supplier_forename other))
    copy ← Strings.set_supplier_surname copy (block (Strings.supplier_surname other))
    copy ← Strings.set_supplier_mobile copy (block (Strings.supplier_mobile other))
    Strings.set_supplier_email copy (block (Strings.supplier_email other))

  unfoldable pub dup : Example z → Option (Example z)
  dup other = do
    copy ← Strings.set_host (dup_numbers new other) (block (Strings.host other))
    dup_names (dup_owned (dup_text copy (Strings.text other)) other) other
