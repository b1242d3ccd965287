-- ===== src/Recv/Extra.antt =====
-- zproto_example_recv on a ZeroMQ message with more frames than its id has use for.
use zproto.Base.{◌≡◌, refl, ap, ◌∙◌, Bool, true, false, some, List, ◌∷◌, ◌++◌, ◌==◌, arith}
use zproto.CharArray.{Bytes}
use zproto.Get.{success, gets}
use zproto.Czmq.{Czmq}
use zproto.Example.{Example, id_binary}
use zproto.Example.View.{IsObject, Fits, message}
use zproto.Encode.Image.{image}
use zproto.Recv.{receive, load, receive_all, recv_routing_id, finish, recv}
use zproto.Recv.RoundTrip.{IsKnown, received, received_one_frame, Runs-frame}

module _ ⦃z : Czmq⦄ where
  same_bool : (b : Bool) → b ≡ true → b ≡ false → ⊥
  same_bool b h k = cc

  is_binary : (n : _) → n ≡ id_binary → (n == id_binary) ≡ true
  is_binary n e = ground arith

  pub recv_one_frame :
      (self other : Example z) (input : z.ZSock) (tail : Bytes) (extra : List Bytes)
      → IsObject self
      → IsObject other
      → Fits self
      → IsKnown self.id
      → (self.id == id_binary) ≡ false
      → z.is_router input ≡ false
      → z.incoming input ≡ (image self ++ tail) ∷ extra
      → recv other input ≡ (
        some success,
        received self (record { object = other; input = (z.zmq_msg_recv input).1 }),
      )
  unfolding recv receive_all gets receive load
  recv_one_frame self other input tail extra v o f known flat d e =
      let (a, _) = z.zmq_recv-incoming input _ _ e in
      let input' = (z.zmq_msg_recv input).1 in
      rw (d, recv_routing_id, a)
        (ap finish (
          (Runs-frame self (record { object = other; input = input' }) v o f known
              (λ h. absurd (same_bool _ (is_binary _ h) flat))).run
            tail))

  -- The message is read from its first frame, and the frames behind it stay in the socket.
  pub recv-extra :
      (self other : Example z) (input : z.ZSock) (tail : Bytes) (extra : List Bytes)
      → IsObject self
      → IsObject other
      → Fits self
      → IsKnown self.id
      → (self.id == id_binary) ≡ false
      → z.is_router input ≡ false
      → z.incoming input ≡ (image self ++ tail) ∷ extra
      → ((recv other input).0 ≡ some success)
        × (message (recv other input).1.object ≡ message self)
        × ((recv other input).1.input ≡ (z.zmq_msg_recv input).1)
        × (z.incoming (recv other input).1.input ≡ extra)
  unfolding received
  recv-extra self other input tail extra v o f known flat d e =
      let (_, b) = z.zmq_recv-incoming input _ _ e in
      let input' = (z.zmq_msg_recv input).1 in
      let (m, l) =
        received_one_frame self.id self (record { object = other; input = input' }) known flat in
      rw (recv_one_frame self other input tail extra v o f known flat d e)
        (refl, m, l, ap z.incoming l ∙ b)
