-- ===== src/Recv/Arrived.antt =====
-- zproto_example_recv as a whole on a message that zproto_example_send has put on the wire, with the
-- routing id in front on a ROUTER.
use zproto.Base.{
  ◌≡◌, refl, ap, ◌∙◌, Bool, true, false, not, Option, none, some, List, [], ◌∷◌, ◌++◌, arith,
}
use mathlib.Core.Option
use zproto.CharArray.{Bytes}
use zproto.Get.{◌>>=◌, ◌>>◌, gets, modify, check, Outcome, at, success}
use zproto.Czmq.{Czmq, is_empty}
use zproto.Example.{Example}
use zproto.Example.View.{IsObject, Fits, message, further_frames, frame_bytes}
use zproto.Encode.Image.{image}
use zproto.Recv.{
  Receiver, assign, recv_frame, receive, load, receive_all, recv_routing_id, more, is_some, finish,
  recv,
}
use zproto.Recv.Binary.{binary_received, routing_id-frames_received, frame_bytes-map}
use zproto.Recv.RoundTrip.{IsKnown, received, received_as_lem, more-further, Runs-frame}

module _ ⦃z : Czmq⦄ where
  -- The message as it waits on the socket: the first frame and the further ones; on a ROUTER the
  -- frame with the routing id stands in front.
  abbrev pub wire : Bool → Bytes → Bytes → List Bytes → List Bytes
  wire false rid frame further = frame ∷ further
  wire true rid frame further = rid ∷ frame ∷ further

  -- What is left of the call when the socket stands at the first frame.
  from_first_frame :
      (self other : Example z) (input : z.ZSock) (tail : Bytes)
      → IsObject self
      → IsObject other
      → Fits self
      → IsKnown self.id
      → z.incoming input ≡ (image self ++ tail) ∷ further_frames self
      → ((receive z.zmq_msg_recv >>= λ frame. load frame >> recv_frame)
            (at (record { object = other; input = input }) [])
          ≡ (
            Outcome.done tt,
            at (received self (record { object = other; input = (z.zmq_msg_recv input).1 })) tail,
          ))
  unfolding receive load
  from_first_frame self other input tail v o f known e =
      let (a, b) = z.zmq_recv-incoming input _ _ e in
      let input' = (z.zmq_msg_recv input).1 in
      rw a (
        (Runs-frame self (record { object = other; input = input' }) v o f known
            (more-further self.id self input' b)).run
          tail)

  abbrev pub with_routing_id : Example z → Option z.ZFrame → Example z
  with_routing_id s frame = record s { routing_id = frame }

  pub is_some-map :
      (o : Option z.ZFrame) (f : Bytes) → Option.map z.zframe_data o ≡ some f → is_some o ≡ true
  unfolding is_some
  is_some-map none f h = cc
  is_some-map (some frame) f h = refl

  -- On a ROUTER the first frame becomes the routing id.
  pub recv_routing_id_lem :
      (other : Example z) (input : z.ZSock) (rid f : Bytes) (rest : List Bytes)
      → z.incoming input ≡ rid ∷ f ∷ rest
      → (recv_routing_id true (at (record { object = other; input = input }) []) ≡ (
        Outcome.done tt,
        at
            (record {
              object = with_routing_id other (z.zframe_recv input).0;
              input = (z.zframe_recv input).1;
            })
            [],
      ))
        × (frame_bytes (z.zframe_recv input).0 ≡ rid)
        × (z.incoming (z.zframe_recv input).1 ≡ f ∷ rest)
  unfolding recv_routing_id more receive gets modify check is_some
  recv_routing_id_lem other input rid f rest e =
      let (a, b) = z.frame_recv-incoming input _ _ e in
      let c = z.rcvmore-incoming (z.zframe_recv input).1 ∙ ap (λ l. not (is_empty l)) b in
      (rw (is_some-map _ _ a, c), frame_bytes-map _ _ a, b)

  pub with_routing_id-IsObject :
      (s : Example z) (frame : Option z.ZFrame) → IsObject s → IsObject (with_routing_id s frame)
  with_routing_id-IsObject s frame o = assumption

  pub routing_id-received :
      (self : Example z) (r : Receiver) → (received self r).object.routing_id ≡ r.object.routing_id
  unfolding received
  routing_id-received self r = ground (
    arith,
    routing_id-frames_received
        (assign (binary_received self) (assign (λ s. record s { id = self.id }) r)),
  )

  pub recv_dealer :
      (self other : Example z) (input : z.ZSock) (tail : Bytes)
      → IsObject self
      → IsObject other
      → Fits self
      → IsKnown self.id
      → z.is_router input ≡ false
      → z.incoming input ≡ (image self ++ tail) ∷ further_frames self
      → recv other input ≡ (
        some success,
        received self (record { object = other; input = (z.zmq_msg_recv input).1 }),
      )
  unfolding recv receive_all gets
  recv_dealer self other input tail v o f known d e =
      rw (d, recv_routing_id) (ap finish (from_first_frame self other input tail v o f known e))

  pub recv_router :
      (self other : Example z) (input : z.ZSock) (rid tail : Bytes)
      → IsObject self
      → IsObject other
      → Fits self
      → IsKnown self.id
      → z.is_router input ≡ true
      → z.incoming input ≡ rid ∷ (image self ++ tail) ∷ further_frames self
      → recv other input ≡ (
        some success,
        received self (record {
          object = with_routing_id other (z.zframe_recv input).0;
          input = (z.zmq_msg_recv (z.zframe_recv input).1).1;
        }),
      )
  unfolding recv receive_all gets
  recv_router self other input rid tail v o f known d e =
      let (run, id, rest) = recv_routing_id_lem other input rid _ _ e in
      rw (d, run)
        (ap finish (
          from_first_frame self (with_routing_id other (z.zframe_recv input).0)
            (z.zframe_recv input).1 tail v (with_routing_id-IsObject other _ o) f known rest))

  -- On a socket that is no ROUTER, with the whole message waiting: recv reports success, the
  -- object says what the sender's says, and the message is used up.
  pub recv-send_dealer :
      (self other : Example z) (input : z.ZSock) (tail : Bytes)
      → IsObject self
      → IsObject other
      → Fits self
      → IsKnown self.id
      → z.is_router input ≡ false
      → z.incoming input ≡ (image self ++ tail) ∷ further_frames self
      → ((recv other input).0 ≡ some success)
        × (message (recv other input).1.object ≡ message self)
        × (z.incoming (recv other input).1.input ≡ [])
  unfolding received
  recv-send_dealer self other input tail v o f known d e =
      let (_, b) = z.zmq_recv-incoming input _ _ e in
      let (m, l) = received_as_lem self.id self other (z.zmq_msg_recv input).1 known b in
      rw (recv_dealer self other input tail v o f known d e) (refl, m, l)

  -- On a ROUTER, with the routing id in front: recv keeps the routing id as well.
  pub recv-send_router :
      (self other : Example z) (input : z.ZSock) (rid tail : Bytes)
      → IsObject self
      → IsObject other
      → Fits self
      → IsKnown self.id
      → z.is_router input ≡ true
      → z.incoming input ≡ rid ∷ (image self ++ tail) ∷ further_frames self
      → ((recv other input).0 ≡ some success)
        × (frame_bytes (recv other input).1.object.routing_id ≡ rid)
        × (message (recv other input).1.object ≡ message self)
        × (z.incoming (recv other input).1.input ≡ [])
  unfolding received
  recv-send_router self other input rid tail v o f known d e =
      let (run, id, rest) = recv_routing_id_lem other input rid _ _ e in
      let other' = with_routing_id other (z.zframe_recv input).0 in
      let input' = (z.zframe_recv input).1 in
      let (_, b) = z.zmq_recv-incoming input' _ _ rest in
      let (m, l) = received_as_lem self.id self other' (z.zmq_msg_recv input').1 known b in
      rw (recv_router self other input rid tail v o f known d e) (
        refl,
        ap frame_bytes (
              routing_id-received self
                (record { object = other'; input = (z.zmq_msg_recv input').1 }))
            ∙ id,
        m,
        l,
      )
