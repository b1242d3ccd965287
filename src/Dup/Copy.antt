-- ===== src/Dup/Copy.antt =====
-- What a duplicate holds.
use zproto.Base.{◌%◌, ◌^◌, ◌≡◌, refl, ◌∙◌, Option, none, some, length, replicate}
use zproto.CharArray.{Bytes, c_string}
use zproto.CharArray.Laws.{overwritten}
use zproto.Czmq.{Czmq}
use zproto.Example.{Example, new}
use zproto.Access.Numbers
use zproto.Access.Strings
use zproto.Access.Owned
use zproto.Access.Written.{
  set_host_lem, set_client_forename_lem, set_client_surname_lem, set_client_mobile_lem,
  set_client_email_lem, set_supplier_forename_lem, set_supplier_surname_lem,
  set_supplier_mobile_lem, set_supplier_email_lem,
}
use zproto.Dup.{dup_numbers, dup_text, dup_owned, dup_names, dup}

module _ ⦃z : Czmq⦄ where
  abbrev with_names : Example z → Example z → Example z
  with_names copy other = record copy {
    client_forename = overwritten other.client_forename;
    client_surname = overwritten other.client_surname;
    client_mobile = overwritten other.client_mobile;
    client_email = overwritten other.client_email;
    supplier_forename = overwritten other.supplier_forename;
    supplier_surname = overwritten other.supplier_surname;
    supplier_mobile = overwritten other.supplier_mobile;
    supplier_email = overwritten other.supplier_email;
  }

  record Sized (copy : Example z) : Type 0 where
    client_forename : length copy.client_forename ≡ 256
    client_surname : length copy.client_surname ≡ 256
    client_mobile : length copy.client_mobile ≡ 256
    client_email : length copy.client_email ≡ 256
    supplier_forename : length copy.supplier_forename ≡ 256
    supplier_surname : length copy.supplier_surname ≡ 256
    supplier_mobile : length copy.supplier_mobile ≡ 256
    supplier_email : length copy.supplier_email ≡ 256

  dup_names_lem :
      (copy other : Example z) → Sized copy → dup_names copy other ≡ some (with_names copy other)
  unfolding dup_names Strings.client_forename Strings.client_surname Strings.client_mobile
      Strings.client_email Strings.supplier_forename Strings.supplier_surname
      Strings.supplier_mobile Strings.supplier_email
  dup_names_lem c other h =
      let c1 : Example z = record c { client_forename = overwritten other.client_forename } in
      let c2 : Example z = record (c1) { client_surname = overwritten other.client_surname } in
      let c3 : Example z = record (c2) { client_mobile = overwritten other.client_mobile } in
      let c4 : Example z = record (c3) { client_email = overwritten other.client_email } in
      let c5 : Example z = record (c4) {
        supplier_forename = overwritten other.supplier_forename;
      } in
      let c6 : Example z = record (c5) { supplier_surname = overwritten other.supplier_surname } in
      let c7 : Example z = record (c6) { supplier_mobile = overwritten other.supplier_mobile } in
      let c8 : Example z = record (c7) { supplier_email = overwritten other.supplier_email } in
      rw (
        set_client_forename_lem c other.client_forename h.client_forename,
        set_client_surname_lem c1 other.client_surname h.client_surname,
        set_client_mobile_lem c2 other.client_mobile h.client_mobile,
        set_client_email_lem c3 other.client_email h.client_email,
        set_supplier_forename_lem c4 other.supplier_forename h.supplier_forename,
        set_supplier_surname_lem c5 other.supplier_surname h.supplier_surname,
        set_supplier_mobile_lem c6 other.supplier_mobile h.supplier_mobile,
        set_supplier_email_lem c7 other.supplier_email h.supplier_email,
      )

  -- The text of the copy: the one that is there already, where the source has none.
  abbrev pub pasted : Option Bytes → Option Bytes → Option Bytes
  pasted old none = old
  pasted old (some text) = some (c_string text)

  dup_text_lem :
      (copy : Example z) (o : Option Bytes)
      → dup_text copy o ≡ record copy { text = pasted copy.text o }
  unfolding dup_text Strings.set_text
  dup_text_lem copy none = refl
  dup_text_lem copy (some text) = refl

  -- The copy that zproto_example_dup makes.
  unfoldable pub duplicate : Example z → Example z
  duplicate other = record {
    routing_id = z.zframe_dup other.routing_id;
    id = other.id % 2 ^ 32;
    sequence = other.sequence % 2 ^ 16;
    level = other.level % 2 ^ 8;
    event = other.event % 2 ^ 8;
    node = other.node % 2 ^ 16;
    peer = other.peer % 2 ^ 16;
    time = other.time % 2 ^ 64;
    host = overwritten other.host;
    text = pasted none other.text;
    aliases = z.zlist_dup other.aliases;
    headers = z.zhash_dup other.headers;
    headers_bytes = 0;
    flags = replicate 4 0;
    public_key = z.zchunk_dup other.public_key;
    identifier = z.zuuid_dup other.identifier;
    address = z.zframe_dup other.address;
    content = z.zmsg_dup other.content;
    client_forename = overwritten other.client_forename;
    client_surname = overwritten other.client_surname;
    client_mobile = overwritten other.client_mobile;
    client_email = overwritten other.client_email;
    supplier_forename = overwritten other.supplier_forename;
    supplier_surname = overwritten other.supplier_surname;
    supplier_mobile = overwritten other.supplier_mobile;
    supplier_email = overwritten other.supplier_email;
  }

  numbered : Example z → Example z
  numbered other = record (new) {
    routing_id = z.zframe_dup other.routing_id;
    id = other.id % 2 ^ 32;
    sequence = other.sequence % 2 ^ 16;
    level = other.level % 2 ^ 8;
    event = other.event % 2 ^ 8;
    node = other.node % 2 ^ 16;
    peer = other.peer % 2 ^ 16;
    time = other.time % 2 ^ 64;
  }

  dup_numbers_lem : (other : Example z) → dup_numbers new other ≡ numbered other
  unfolding dup_numbers numbered Owned.routing_id Owned.set_routing_id Numbers.id Numbers.set_id
      Numbers.sequence Numbers.set_sequence Numbers.level Numbers.set_level Numbers.event
      Numbers.set_event Numbers.node Numbers.set_node Numbers.peer Numbers.set_peer Numbers.time
      Numbers.set_time
  dup_numbers_lem other = refl

  owned : Example z → Example z → Example z
  owned copy other = record copy {
    aliases = z.zlist_dup other.aliases;
    headers = z.zhash_dup other.headers;
    public_key = z.zchunk_dup other.public_key;
    identifier = z.zuuid_dup other.identifier;
    address = z.zframe_dup other.address;
    content = z.zmsg_dup other.content;
  }

  dup_owned_lem : (copy other : Example z) → dup_owned copy other ≡ owned copy other
  unfolding dup_owned owned Owned.aliases Owned.set_aliases Owned.headers Owned.set_headers
      Owned.public_key Owned.set_public_key Owned.identifier Owned.set_identifier Owned.address
      Owned.set_address Owned.content Owned.set_content
  dup_owned_lem copy other = refl

  with_host : Example z → Example z
  with_host other = record (numbered other) { host = overwritten other.host }

  with_text : Example z → Example z
  with_text other = record (with_host other) { text = pasted (with_host other).text other.text }

  sized : (other : Example z) → Sized (owned (with_text other) other)
  unfolding owned with_text with_host numbered new
  sized other = record {
    client_forename = refl;
    client_surname = refl;
    client_mobile = refl;
    client_email = refl;
    supplier_forename = refl;
    supplier_surname = refl;
    supplier_mobile = refl;
    supplier_email = refl;
  }

  host-sized : (other : Example z) → length (numbered other).host ≡ 256
  unfolding numbered new
  host-sized other = refl

  -- The call never fails, whatever it is given.
  pub dup-duplicate : (other : Example z) → dup other ≡ some (duplicate other)
  unfolding dup Strings.host Strings.text with_text numbered with_host
  dup-duplicate other =
      rw (dup_numbers_lem other, set_host_lem (numbered other) other.host (host-sized other))
        (rw
          (
            dup_text_lem (record (numbered other) { host = overwritten other.host }) other.text,
            dup_owned_lem,
          )
          (dup_names_lem (owned (with_text other) other) other (sized other) ∙ same))
    where
      same : some (with_names (owned (with_text other) other) other) ≡ some (duplicate other)
      same = unfold duplicate owned with_text with_host numbered new in refl
