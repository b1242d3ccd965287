-- ===== src/Recv/AnyFrames.antt =====
-- zproto_example_recv as a whole on a message of any frames, as a peer may send them.
use zproto.Base.{◌∷◌, [], List, All, ap, ◌∙◌, not, Bool, true, false, ◌≡◌, refl}
use zproto.CharArray.{Bytes}
use zproto.CharArray.Laws.{IsByte}
use zproto.Get.Safe.{Ends}
use zproto.Get.{at, Outcome, Machine, ◌>>◌, ◌>>=◌, modify, gets, check}
use zproto.Czmq.{Czmq, is_empty}
use zproto.Recv.Arrived.{recv_routing_id_lem, is_some-map, with_routing_id-IsObject}
use zproto.Example.{Example}
use zproto.Example.View.{IsObject}
use zproto.Recv.{
  Receiver, receive, more, recv_frame, receive_all, recv_routing_id, finish, recv, load, is_some,
}
use zproto.Base.{◌≢◌, none}
use zproto.Recv.Safe.{Sound, Safe-frame}

module _ ⦃z : Czmq⦄ where
  abbrev EndsWell : Outcome (Unit {0}) × Machine Receiver → Type 0
  EndsWell = Ends Sound (λ _. Sound)

  from_any_frame :
      (other : Example z) (input : z.ZSock) (frame : Bytes) (rest : List Bytes)
      → IsObject other
      → All IsByte frame
      → z.incoming input ≡ frame ∷ rest
      → EndsWell (
          (receive z.zmq_msg_recv >>= λ f. load f >> recv_frame)
            (at (record { object = other; input = input }) []))
  unfolding receive load
  from_any_frame other input frame rest o b e =
      rw ((z.zmq_recv-incoming input _ _ e).0)
        (Safe-frame.run (record { object = other; input = (z.zmq_msg_recv input).1 }) frame o b)

  all_frames :
      (router : Bool) (other : Example z) (input : z.ZSock) (frame : Bytes) (rest : List Bytes)
      → IsObject other
      → All (All IsByte) (frame ∷ rest)
      → z.incoming input ≡ frame ∷ rest
      → z.is_router input ≡ router
      → EndsWell (receive_all (at (record { object = other; input = input }) []))
  unfolding receive_all gets recv_routing_id more receive modify check is_some
  all_frames false other input frame rest o b e d =
      rw d (from_any_frame other input frame rest o b.0 e)
  all_frames true other input frame [] o b e d =
      let (a, c) = z.frame_recv-incoming input _ _ e in
      let last = z.rcvmore-incoming (z.zframe_recv input).1 ∙ ap (λ l. not (is_empty l)) c in
      rw (d, is_some-map _ _ a, last) (with_routing_id-IsObject other _ o)
  all_frames true other input frame (f ∷ fs) o b e d =
      let (run, _, rest) = recv_routing_id_lem other input _ _ _ e in
      rw (d, run) (from_any_frame _ _ f fs (with_routing_id-IsObject other _ o) b.1.0 rest)

  finish_lem :
      (o : Outcome (Unit {0}) × Machine Receiver)
      → EndsWell o
      → ((finish o).0 ≢ none) × IsObject (finish o).1.object
  unfolding finish
  finish_lem (Outcome.done a, m) h = (λ e. cc, h.0)
  finish_lem (Outcome.malformed rc, m) h = (λ e. cc, h)
  finish_lem (Outcome.fault, m) h = elim h [ ]

  -- Whatever frames of bytes wait on the socket, at least one: zproto_example_recv on a well formed
  -- object returns a code (no read or write out of bounds and no use of a missing container on the
  -- way), and leaves the object well formed.
  pub recv_lem :
      (self : Example z) (input : z.ZSock) (frame : Bytes) (rest : List Bytes)
      → IsObject self
      → All (All IsByte) (frame ∷ rest)
      → z.incoming input ≡ frame ∷ rest
      → ((recv self input).0 ≢ none) × IsObject (recv self input).1.object
  unfolding recv
  recv_lem self input frame rest o b e =
      finish_lem _ (all_frames _ self input frame rest o b e refl)
