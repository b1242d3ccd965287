-- ===== src/Network/Carried.antt =====
-- One call of recv on the frames of a message, as far as the connection is concerned.
use zproto.Base.{ℕ, Bool, true, false, ◌≡◌, refl, ap, ◌∙◌, some, List, [], ◌∷◌, ◌++◌, length}
use zproto.CharArray.{Bytes}
use zproto.Czmq.{Czmq}
use zproto.Get.{success}
use zproto.Example.{Example}
use zproto.Example.View.{IsObject, Fits, Message, message, further_frames}
use zproto.Encode.Image.{image}
use zproto.Recv.{recv}
use zproto.Recv.RoundTrip.{IsKnown}
use zproto.Recv.Arrived.{recv_dealer, recv_router, recv-send_dealer, recv-send_router}
use zproto.Network.{Network, delivered}
use zproto.Network.Kept.{Kept, Kept-trans, frame_recv-Kept, zmq_recv-Kept, received-Kept}
use mathlib.Core.Option
use zproto.Base.{◌==◌}
use zproto.Example.{id_binary}
use zproto.Recv.{Receiver}
use zproto.Recv.Arrived.{with_routing_id, with_routing_id-IsObject, routing_id-received}
use zproto.Recv.Objects.{received-IsObject, received-content}

module _ ⦃z : Czmq⦄ ⦃n : Network z⦄ where
  -- The frames, behind the routing id on a ROUTER, are those of an object that says `m`.
  pub record Carries (router : Bool) (frames : List Bytes) (m : Message) : Type 0 where
    pub self : Example z
    pub rid : Bytes
    pub tail : Bytes
    pub object : IsObject self
    pub fits : Fits self
    pub known : IsKnown self.id
    pub bytes : frames ≡ delivered router rid ((image self ++ tail) ∷ further_frames self)
    pub says : message self ≡ m

  recv_dealer-Kept :
      (other : Example z) (input : z.ZSock) (frames : List Bytes) (m : Message)
      (c : Carries false frames m)
      → IsObject other
      → z.is_router input ≡ false
      → z.incoming input ≡ frames
      → Kept input (recv other input).1.input
  recv_dealer-Kept other input frames m c o d e =
      rw (recv_dealer c.self other input c.tail c.object o c.fits c.known d (e ∙ c.bytes))
        (Kept-trans (zmq_recv-Kept input) (received-Kept c.self _))

  recv_router-Kept :
      (other : Example z) (input : z.ZSock) (frames : List Bytes) (m : Message)
      (c : Carries true frames m)
      → IsObject other
      → z.is_router input ≡ true
      → z.incoming input ≡ frames
      → Kept input (recv other input).1.input
  recv_router-Kept other input frames m c o d e =
      rw (recv_router c.self other input c.rid c.tail c.object o c.fits c.known d (e ∙ c.bytes)) (
        Kept-trans (frame_recv-Kept input)
          (Kept-trans (zmq_recv-Kept (z.zframe_recv input).1) (received-Kept c.self _)))

  -- One call of recv on such frames.
  pub recv-Carries :
      (router : Bool) (other : Example z) (input : z.ZSock) (frames : List Bytes) (m : Message)
      → Carries router frames m
      → IsObject other
      → z.is_router input ≡ router
      → z.incoming input ≡ frames
      → ((recv other input).0 ≡ some success)
        × (message (recv other input).1.object ≡ m)
        × (z.incoming (recv other input).1.input ≡ [])
        × Kept input (recv other input).1.input
  recv-Carries false other input frames m c o d e =
      let (a, b, l) =
        recv-send_dealer c.self other input c.tail c.object o c.fits c.known d (e ∙ c.bytes) in
      (a, b ∙ c.says, l, recv_dealer-Kept other input frames m c o d e)
  recv-Carries true other input frames m c o d e =
      let (a, _, b, l) =
        recv-send_router c.self other input c.rid c.tail c.object o c.fits c.known d
          (e ∙ c.bytes) in
      (a, b ∙ c.says, l, recv_router-Kept other input frames m c o d e)

  -- What else a call of recv on a ROUTER leaves: the object is well formed and keeps the routing
  -- id, and only a BINARY message writes the content.
  pub recv-Carries_object :
      (other : Example z) (input : z.ZSock) (frames : List Bytes) (m : Message)
      (c : Carries true frames m)
      → IsObject other
      → z.is_router input ≡ true
      → z.incoming input ≡ frames
      → IsObject (recv other input).1.object
        × (Option.map z.zframe_data (recv other input).1.object.routing_id ≡ some c.rid)
        × ((c.self.id == id_binary) ≡ false → (recv other input).1.object.content ≡ other.content)
  recv-Carries_object other input frames m c o d e =
      let (id, _) = z.frame_recv-incoming input _ _ (e ∙ c.bytes) in
      let frame = (z.zframe_recv input).0 in
      let r : Receiver = record {
        object = with_routing_id other frame;
        input = (z.zmq_msg_recv (z.zframe_recv input).1).1;
      } in
      rw (recv_router c.self other input c.rid c.tail c.object o c.fits c.known d (e ∙ c.bytes)) (
        received-IsObject c.self r c.object (with_routing_id-IsObject other frame o),
        ap (λ o. Option.map z.zframe_data o) (routing_id-received c.self r) ∙ id,
        (λ h. received-content c.self r h),
      )

  -- The messages that wait, one for one.
  abbrev pub Queue : Bool → List (List Bytes) → List Message → Type 0
  Queue router [] [] = Unit {0}
  Queue router [] (m ∷ ms) = ⊥
  Queue router (f ∷ fs) [] = ⊥
  Queue router (f ∷ fs) (m ∷ ms) = Carries router f m × Queue router fs ms

  pub Queue-snoc :
      (router : Bool) (fs : List (List Bytes)) (ms : List Message) (f : List Bytes) (m : Message)
      → Queue router fs ms
      → Carries router f m
      → Queue router (fs ++ f ∷ []) (ms ++ m ∷ [])
  Queue-snoc router [] [] f m q c = (c, tt)
  Queue-snoc router [] (_ ∷ _) f m q c = absurd q
  Queue-snoc router (_ ∷ _) [] f m q c = absurd q
  Queue-snoc router (f' ∷ fs) (m' ∷ ms) f m (c', q) c = (c', Queue-snoc router fs ms f m q c)

  pub length-Queue :
      (router : Bool) (fs : List (List Bytes)) (ms : List Message)
      → Queue router fs ms
      → length fs ≡ length ms
  length-Queue router [] [] q = refl
  length-Queue router [] (m ∷ ms) q = absurd q
  length-Queue router (f ∷ fs) [] q = absurd q
  length-Queue router (f ∷ fs) (m ∷ ms) (c, q) = ap (λ k. ℕ.suc k) (length-Queue router fs ms q)
