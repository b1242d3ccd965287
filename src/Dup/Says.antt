-- ===== src/Dup/Says.antt =====
-- A duplicate says what its source says, but for the flags of a BINARY message.
use zproto.Base.{lookup, length, ap, ◌%◌, ◌^◌, ◌≡◌, refl, Option, none, some, replicate, arith}
use mathlib.Core.List.{map}
use mathlib.Core.Option
use zproto.CharArray.{Bytes}
use zproto.CharArray.Laws.{overwritten-IsArray, c_string-overwritten_array, c_string-c_string}
use zproto.Czmq.{Czmq}
use zproto.Example.{Example}
use mathlib.Core.Path.{fun_ext}
use zproto.Example.View.{
  IsObject, structures, log_message, structures_message, binary_message, types_message,
}
use zproto.Example.View.{
  text_of, alias_list, header_list, key_bytes, uuid_bytes, frame_bytes, content_parts,
}
use zproto.Encode.Exact.{leftover}
use zproto.Dup.{dup}
use zproto.Dup.Copy.{pasted, duplicate, dup-duplicate}

module _ ⦃z : Czmq⦄ where
  -- The copy of a container holds what the container holds.
  alias_list-dup : (o : Option z.ZList) → alias_list (z.zlist_dup o) ≡ alias_list o
  alias_list-dup o = by_view (z.zlist_dup o) o (z.items-dup o)
    where
      by_view :
          (p q : Option z.ZList)
          → Option.map z.zlist_items p ≡ Option.map z.zlist_items q
          → alias_list p ≡ alias_list q
      by_view none none h = refl
      by_view none (some a) h = cc
      by_view (some a) none h = cc
      by_view (some a) (some b) h = cc

  -- The duplicate of a table finds what the table finds.
  header_lookup-dup :
      (o : Option z.ZHash) (k : Bytes)
      → lookup k (header_list (z.zhash_dup o)) ≡ lookup k (header_list o)
  header_lookup-dup o k = by_view (z.zhash_dup o) o (z.lookup-dup o k)
    where
      by_view :
          (p q : Option z.ZHash)
          → Option.map (λ h. z.zhash_lookup h k) p ≡ Option.map (λ h. z.zhash_lookup h k) q
          → lookup k (header_list p) ≡ lookup k (header_list q)
      by_view none none h = refl
      by_view none (some a) h = cc
      by_view (some a) none h = cc
      by_view (some a) (some b) h = let e = z.lookup-items a k in let g = z.lookup-items b k in cc

  header_size-dup :
      (o : Option z.ZHash) → length (header_list (z.zhash_dup o)) ≡ length (header_list o)
  header_size-dup o = by_view (z.zhash_dup o) o (z.hash_size-dup o)
    where
      by_view :
          (p q : Option z.ZHash)
          → Option.map z.zhash_size p ≡ Option.map z.zhash_size q
          → length (header_list p) ≡ length (header_list q)
      by_view none none h = refl
      by_view none (some a) h = cc
      by_view (some a) none h = cc
      by_view (some a) (some b) h = let e = z.hash_size-items a in let g = z.hash_size-items b in cc

  key_bytes-dup : (o : Option z.ZChunk) → key_bytes (z.zchunk_dup o) ≡ key_bytes o
  key_bytes-dup o = by_view (z.zchunk_dup o) o (z.chunk_data-dup o)
    where
      by_view :
          (p q : Option z.ZChunk)
          → Option.map z.zchunk_data p ≡ Option.map z.zchunk_data q
          → key_bytes p ≡ key_bytes q
      by_view none none h = refl
      by_view none (some a) h = cc
      by_view (some a) none h = cc
      by_view (some a) (some b) h = cc

  uuid_bytes-dup : (o : Option z.ZUuid) → uuid_bytes (z.zuuid_dup o) ≡ uuid_bytes o
  uuid_bytes-dup o = by_view (z.zuuid_dup o) o (z.uuid_data-dup o)
    where
      by_view :
          (p q : Option z.ZUuid)
          → Option.map z.zuuid_data p ≡ Option.map z.zuuid_data q
          → uuid_bytes p ≡ uuid_bytes q
      by_view none none h = refl
      by_view none (some a) h = cc
      by_view (some a) none h = cc
      by_view (some a) (some b) h = cc

  frame_bytes-dup : (o : Option z.ZFrame) → frame_bytes (z.zframe_dup o) ≡ frame_bytes o
  frame_bytes-dup o = by_view (z.zframe_dup o) o (z.frame_data-dup o)
    where
      by_view :
          (p q : Option z.ZFrame)
          → Option.map z.zframe_data p ≡ Option.map z.zframe_data q
          → frame_bytes p ≡ frame_bytes q
      by_view none none h = refl
      by_view none (some a) h = cc
      by_view (some a) none h = cc
      by_view (some a) (some b) h = cc

  content_parts-dup : (o : Option z.ZMsg) → content_parts (z.zmsg_dup o) ≡ content_parts o
  content_parts-dup o = by_view (z.zmsg_dup o) o (z.frames-dup o)
    where
      by_view :
          (p q : Option z.ZMsg)
          → Option.map (λ m. map z.zframe_data (z.zmsg_frames m)) p
            ≡ Option.map (λ m. map z.zframe_data (z.zmsg_frames m)) q
          → content_parts p ≡ content_parts q
      by_view none none h = refl
      by_view none (some a) h = cc
      by_view (some a) none h = cc
      by_view (some a) (some b) h = cc

  duplicate-IsObject : (other : Example z) → IsObject other → IsObject (duplicate other)
  unfolding duplicate
  duplicate-IsObject other o = record {
    id = omega arith;
    sequence = omega arith;
    level = omega arith;
    event = omega arith;
    node = omega arith;
    peer = omega arith;
    time = omega arith;
    flags = refl;
    flag_bytes = omega arith;
    host = overwritten-IsArray other.host (o.host.bytes);
    client_forename = overwritten-IsArray other.client_forename (o.client_forename.bytes);
    client_surname = overwritten-IsArray other.client_surname (o.client_surname.bytes);
    client_mobile = overwritten-IsArray other.client_mobile (o.client_mobile.bytes);
    client_email = overwritten-IsArray other.client_email (o.client_email.bytes);
    supplier_forename = overwritten-IsArray other.supplier_forename (o.supplier_forename.bytes);
    supplier_surname = overwritten-IsArray other.supplier_surname (o.supplier_surname.bytes);
    supplier_mobile = overwritten-IsArray other.supplier_mobile (o.supplier_mobile.bytes);
    supplier_email = overwritten-IsArray other.supplier_email (o.supplier_email.bytes);
  }

  text_of-pasted : (o : Option Bytes) → text_of (pasted none o) ≡ text_of o
  text_of-pasted none = refl
  text_of-pasted (some text) = c_string-c_string text

  duplicate_log :
      (other : Example z) → IsObject other → log_message (duplicate other) ≡ log_message other
  unfolding duplicate
  duplicate_log other o =
      let a : other.sequence % 2 ^ 16 ≡ other.sequence = omega (arith, o.sequence) in
      let b : other.level % 2 ^ 8 ≡ other.level = omega (arith, o.level) in
      let c : other.event % 2 ^ 8 ≡ other.event = omega (arith, o.event) in
      let d : other.node % 2 ^ 16 ≡ other.node = omega (arith, o.node) in
      let e : other.peer % 2 ^ 16 ≡ other.peer = omega (arith, o.peer) in
      let f : other.time % 2 ^ 64 ≡ other.time = omega (arith, o.time) in
      cc (a, b, c, d, e, f, c_string-overwritten_array other.host o.host, text_of-pasted other.text)

  duplicate_structures :
      (other : Example z)
      → IsObject other
      → structures_message (duplicate other) ≡ structures_message other
  unfolding duplicate
  duplicate_structures other o =
      let a : other.sequence % 2 ^ 16 ≡ other.sequence = omega (arith, o.sequence) in
      rw (a, alias_list-dup other.aliases)
        (ap (structures other.sequence (alias_list other.aliases))
          (fun_ext (λ key. header_lookup-dup other.headers key)))

  duplicate_binary :
      (other : Example z)
      → IsObject other
      → binary_message (duplicate other) ≡ binary_message (record other { flags = replicate 4 0 })
  unfolding duplicate
  duplicate_binary other o =
      let a : other.sequence % 2 ^ 16 ≡ other.sequence = omega (arith, o.sequence) in
      rw (
        a,
        key_bytes-dup other.public_key,
        uuid_bytes-dup other.identifier,
        frame_bytes-dup other.address,
        content_parts-dup other.content,
      )

  duplicate_types :
      (other : Example z) → IsObject other → types_message (duplicate other) ≡ types_message other
  unfolding duplicate
  duplicate_types other o =
      let a : other.sequence % 2 ^ 16 ≡ other.sequence = omega (arith, o.sequence) in
      rw (
        a,
        c_string-overwritten_array other.client_forename o.client_forename,
        c_string-overwritten_array other.client_surname o.client_surname,
        c_string-overwritten_array other.client_mobile o.client_mobile,
        c_string-overwritten_array other.client_email o.client_email,
        c_string-overwritten_array other.supplier_forename o.supplier_forename,
        c_string-overwritten_array other.supplier_surname o.supplier_surname,
        c_string-overwritten_array other.supplier_mobile o.supplier_mobile,
        c_string-overwritten_array other.supplier_email o.supplier_email,
      )

  duplicate-leftover : (other : Example z) → leftover (duplicate other) ≡ 0
  unfolding duplicate
  duplicate-leftover other = ground arith

  -- A well formed object is duplicated without fault. The copy is well formed, has the id and the
  -- routing id, and says what the source says as a LOG, a STRUCTURES and a TYPES message, the
  -- same headers under the same keys and as many of them; as a BINARY message it says the same but
  -- for the flags, which are zeros. Its frame has no leftover bytes.
  pub dup_lem :
      (other : Example z)
      → IsObject other
      → (copy : Example z) × (dup other ≡ some copy)
        × IsObject copy
        × (copy.id ≡ other.id)
        × (frame_bytes copy.routing_id ≡ frame_bytes other.routing_id)
        × (log_message copy ≡ log_message other)
        × (structures_message copy ≡ structures_message other)
        × (length (header_list copy.headers) ≡ length (header_list other.headers))
        × (types_message copy ≡ types_message other)
        × (binary_message copy ≡ binary_message (record other { flags = replicate 4 0 }))
        × (leftover copy ≡ 0)
  unfolding duplicate
  dup_lem other o = (
    duplicate other,
    dup-duplicate other,
    duplicate-IsObject other o,
    omega (arith, o.id),
    frame_bytes-dup other.routing_id,
    duplicate_log other o,
    duplicate_structures other o,
    header_size-dup other.headers,
    duplicate_types other o,
    duplicate_binary other o,
    duplicate-leftover other,
  )
