-- ===== src/Recv/Binary.antt =====
-- The BINARY message read back, with the frames that follow the first.
use zproto.Base.{◌≡◌, refl, ap, ◌∙◌, Bool, true, false, not, Option, none, some, List, [], ◌∷◌}
use zproto.Base.{length, append_assoc}
use mathlib.Core.List.{map}
use mathlib.Core.Option
use zproto.CharArray.{Bytes}
use zproto.Put.Writes.{big_endian}
use zproto.Get.{◌>>=◌}
use zproto.Get.Runs.{
  Runs, Runs-bind, Runs-modify, Runs-modify_then, Runs-gets_then, Runs-check_then,
}
use zproto.Get.Runs.{Runs-number2, Runs-number4, Runs-octets, Runs-block, Runs-last}
use zproto.Czmq.{Czmq, is_empty}
use zproto.Example.{Example}
use zproto.Example.View.{IsObject, Fits, key_bytes, uuid_bytes, frame_bytes, content_parts}
use zproto.Example.View.{binary, binary_message}
use zproto.Encode.Image.{binary_image}
use zproto.Recv.{Receiver, Recv, assign, receive, more, recv_content, recv_frames, recv_binary}

module _ ⦃z : Czmq⦄ where
  Runs-receive_then :
      {A B : Type 0} (call : z.ZSock → A × z.ZSock) (k : A → Recv B) {r r' : Receiver} {bs : Bytes}
      {b : B}
      → Runs (k (call r.input).0) (record { object = r.object; input = (call r.input).1 }) bs b r'
      → Runs (receive call >>= k) r bs b r'
  unfolding receive
  Runs-receive_then call k p = record { run = p.run }

  -- The content, by whether more frames follow the address.
  unfoldable pub content_from : Bool → z.ZSock → Option z.ZMsg × z.ZSock
  content_from true input = z.zmsg_recv input
  content_from false input = (some z.zmsg_new, input)

  unfoldable pub frames_received : Receiver → Receiver
  frames_received r =
      let (frame, input') = z.zframe_recv r.input in
      let (content, input'') = content_from (z.zsock_rcvmore input') input' in
      record { object = record (r.object) { address = frame; content = content }; input = input'' }

  Runs-content :
      (following : Bool) (r : Receiver)
      → Runs (recv_content following) r [] tt (record {
        object = record (r.object) { content = (content_from following r.input).0 };
        input = (content_from following r.input).1;
      })
  unfolding recv_content content_from
  Runs-content true r = Runs-receive_then _ _ (Runs-modify _ _)
  Runs-content false r = Runs-modify _ _

  Runs-frames :
      (r : Receiver) → z.zsock_rcvmore r.input ≡ true → Runs recv_frames r [] tt (frames_received r)
  unfolding recv_frames more frames_received
  Runs-frames r h = Runs-gets_then _ _ (
      Runs-check_then _ _ _ h
        (Runs-receive_then _ _ (Runs-modify_then _ _ (Runs-gets_then _ _ (Runs-content _ _)))))

  abbrev pub binary_received : Example z → Example z → Example z
  binary_received self s = record s {
    sequence = self.sequence;
    flags = self.flags;
    public_key = some (z.zchunk_new (key_bytes self.public_key));
    identifier = some (z.zuuid_new_from (uuid_bytes self.identifier));
  }

  pub length-uuid_bytes : (o : Option z.ZUuid) → length (uuid_bytes o) ≡ 16
  length-uuid_bytes none = refl
  length-uuid_bytes (some uuid) = z.length-uuid_data uuid

  pub Runs-binary :
      (self : Example z) (r : Receiver)
      → IsObject self
      → Fits self
      → z.zsock_rcvmore r.input ≡ true
      → Runs recv_binary r
          (binary_image self)
          tt
          (frames_received (assign (binary_received self) r))
  unfolding recv_binary binary_image
  Runs-binary self r v f h =
      let key = key_bytes self.public_key in
      let uuid = uuid_bytes self.identifier in
      rw (append_assoc (big_endian 4 (length key)) key uuid) (
        Runs-bind _ _ (Runs-number2 _ _ v.sequence) (
          Runs-modify_then _ _ (
            Runs-bind _ _ (Runs-octets self.flags 4 _ v.flags) (
              Runs-modify_then _ _ (
                Runs-bind _ _ (Runs-number4 _ _ f.public_key) (
                  Runs-bind _ _ (Runs-block key _ _ _ refl) (
                    Runs-modify_then _ _ (
                      Runs-last _ _ (Runs-block uuid 16 _ _ (length-uuid_bytes self.identifier))
                        (Runs-modify_then _ _ (Runs-frames _ h))))))))))

  pub frame_bytes-map :
      (o : Option z.ZFrame) (f : Bytes) → Option.map z.zframe_data o ≡ some f → frame_bytes o ≡ f
  frame_bytes-map none f h = cc
  frame_bytes-map (some frame) f h = cc

  content_parts-map :
      (o : Option z.ZMsg) (fs : List Bytes)
      → Option.map (λ m. map z.zframe_data (z.zmsg_frames m)) o ≡ some fs
      → content_parts o ≡ fs
  content_parts-map none fs h = cc
  content_parts-map (some content) fs h = cc

  content_from-incoming :
      (input : z.ZSock) (following : Bool) (fs : List Bytes)
      → z.incoming input ≡ fs
      → following ≡ not (is_empty fs)
      → (content_parts (content_from following input).0 ≡ fs)
        × (z.incoming (content_from following input).1 ≡ [])
  unfolding content_from
  content_from-incoming input true [] e h = cc
  content_from-incoming input false [] e h = (rw z.frames-new, e)
  content_from-incoming input true (f ∷ fs) e h =
      let (a, b) = z.msg_recv-incoming input f fs e in (content_parts-map _ _ a, b)
  content_from-incoming input false (f ∷ fs) e h = cc

  -- The frames that follow become the address and the content, and all of them are read.
  -- Whatever the id is: the function neither reads nor writes it.
  pub id-frames_received : (r : Receiver) → (frames_received r).object.id ≡ r.object.id
  unfolding frames_received
  id-frames_received r = refl

  pub routing_id-frames_received :
      (r : Receiver) → (frames_received r).object.routing_id ≡ r.object.routing_id
  unfolding frames_received
  routing_id-frames_received r = refl

  pub frames_received_lem :
      (r : Receiver) (f : Bytes) (fs : List Bytes)
      → z.incoming r.input ≡ f ∷ fs
      → (binary_message (frames_received r).object
          ≡ binary r.object.sequence r.object.flags
              (key_bytes r.object.public_key)
              (uuid_bytes r.object.identifier)
              f
              fs)
        × (z.incoming (frames_received r).input ≡ [])
  unfolding frames_received
  frames_received_lem r f fs e =
      let (a, b) = z.frame_recv-incoming r.input f fs e in
      let input' = (z.zframe_recv r.input).1 in
      let (c, d) =
        content_from-incoming input' (z.zsock_rcvmore input') fs b
          (z.rcvmore-incoming input' ∙ ap (λ l. not (is_empty l)) b) in
      (rw (frame_bytes-map _ f a, c), d)
