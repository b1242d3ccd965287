-- ===== src/SelfTest/Binary.antt =====
-- The BINARY message of zproto_example_test.
pub mod Check
use zproto.Base.{
  true, ℕ, zero, suc, ◌≡◌, refl, sym, ap, ◌∙◌, Option, none, some, [], ◌∷◌, arith, same_bytes,
  same_bytes_iff, length, length-map,
}
use mathlib.Core.Option
use mathlib.Core.List.{map}
use zproto.CharArray.{Bytes, c_string}
use zproto.Czmq.{Czmq}
use zproto.Zconfig.{Zconfig, codes}
use zproto.Example.{Example}
use zproto.Example.View.{
  IsObject, Message, binary, message, message_as, key_bytes, uuid_bytes, frame_bytes, content_parts,
}
use zproto.Encode.Image.{image, binary_image}
use zproto.Access.Numbers
use zproto.Access.Strings
use zproto.Access.Owned
use zproto.Lifetime.Safe.{set_flags_long}
use zproto.NewZpl.Blocks.{HoldsBytes}
use zproto.SelfTest.{Inspect, World, message_as-unknown}
use zproto.SelfTest.Steps.{test_uuid, set_binary, check_binary}

module _ ⦃z : Czmq⦄ ⦃c : Zconfig z⦄ ⦃i : Inspect z c⦄ where
  abbrev pub test_key : z.ZChunk
  test_key = z.zchunk_new (codes "89f5ffe70d747869dfe8")

  abbrev pub test_address : z.ZFrame
  test_address = c.zframe_new (codes "0206f99f6137d9fe380f")

  abbrev pub test_content : z.ZMsg
  test_content = i.zmsg_addstr z.zmsg_new (codes "728a92c6749235ba7002")

  abbrev pub said_binary : Message
  said_binary =
      binary 123 (codes "b38c") (codes "89f5ffe70d747869dfe8") (z.zuuid_data test_uuid)
        (codes "0206f99f6137d9fe380f") (codes "728a92c6749235ba7002" ∷ [])

  abbrev numbered : Example z → Example z
  numbered s = record s { id = 3; sequence = 123 }

  abbrev pub binary_set : Example z → Example z
  binary_set s = record (numbered s) {
    flags = codes "b38c";
    public_key = some test_key;
    identifier = z.zuuid_dup (some test_uuid);
    address = some test_address;
    content = some test_content;
  }

  pub binary_set-IsObject : (s : Example z) → IsObject s → IsObject (binary_set s)
  binary_set-IsObject s o = record {
    id = omega arith;
    sequence = omega arith;
    level = o.level;
    event = o.event;
    node = o.node;
    peer = o.peer;
    time = o.time;
    host = o.host;
    flags = refl;
    flag_bytes = omega arith;
    client_forename = o.client_forename;
    client_surname = o.client_surname;
    client_mobile = o.client_mobile;
    client_email = o.client_email;
    supplier_forename = o.supplier_forename;
    supplier_surname = o.supplier_surname;
    supplier_mobile = o.supplier_mobile;
    supplier_email = o.supplier_email;
  }

  pub binary_set-image : (s t : Example z) → image (binary_set s) ≡ image (binary_set t)
  unfolding image binary_image
  binary_set-image s t = refl

  uuid_bytes-map :
      (o : Option z.ZUuid) (bs : Bytes) → Option.map z.zuuid_data o ≡ some bs → uuid_bytes o ≡ bs
  uuid_bytes-map none bs e = cc
  uuid_bytes-map (some u) bs e = cc

  pub test_content-frames :
      map z.zframe_data (z.zmsg_frames test_content) ≡ codes "728a92c6749235ba7002" ∷ []
  unfolding c_string
  test_content-frames = i.frames-addstr z.zmsg_new _ ∙ rw z.frames-new refl

  pub test-HoldsBytes : HoldsBytes test_key test_address test_content
  test-HoldsBytes = record {
    public_key = rw z.chunk_data-new (omega arith);
    address = rw c.frame_data-new (omega arith);
    content = i.encode-IsByte test_content (rw test_content-frames (omega arith));
  }

  pub binary_set-message : (s : Example z) → message (binary_set s) ≡ said_binary
  binary_set-message s =
      rw
        (
          z.chunk_data-new,
          uuid_bytes-map _ _ (z.uuid_data-dup (some test_uuid)),
          c.frame_data-new,
          test_content-frames,
        )
        refl

  pub size-map : (m : z.ZMsg) → z.zmsg_size m ≡ length (map z.zframe_data (z.zmsg_frames m))
  size-map m = z.size-frames m ∙ sym (length-map (z.zmsg_frames m) z.zframe_data)

  pub set_binary_lem :
      (w : World)
      → IsObject w.self
      → set_binary w ≡ some (tt, record w { self = binary_set w.self })
  unfolding set_binary Numbers.set_id Numbers.set_sequence Owned.set_public_key Owned.set_identifier
      Owned.set_address Owned.set_content Owned.content
  set_binary_lem w o = rw (set_flags_long (numbered w.self) (codes "b38c") o.flags refl) refl

  pub test_content-size : z.zmsg_size test_content ≡ 1
  test_content-size = size-map test_content ∙ ap length test_content-frames
