-- ===== src/Recv/Bounded.antt =====
-- zproto_example_recv as a whole: what it keeps is bounded by the frame that has arrived.
use zproto.Base.{◌≢◌, none, All, ℕ, ◌+◌, ◌≤◌, ◌≡◌, Bool, true, false, List, [], ◌∷◌, length, arith}
use zproto.CharArray.{Bytes}
use zproto.Get.{at, Outcome, Machine, ◌>>◌, ◌>>=◌, gets}
use zproto.Get.Costs.{Left}
use zproto.Czmq.{Czmq}
use zproto.CharArray.Laws.{IsByte}
use zproto.Example.{Example}
use zproto.Example.View.{IsObject}
use zproto.Recv.AnyFrames.{recv_lem}
use zproto.Recv.{Receiver, receive, recv_frame, receive_all, recv_routing_id, finish, recv, load}
use zproto.Recv.Arrived.{wire, recv_routing_id_lem, with_routing_id}
use zproto.Recv.Costs.{kept, weight}
use zproto.Recv.Costs.Frame.{Cheap-frame}

module _ ⦃z : Czmq⦄ where
  frame-kept :
      (self : Example z) (input : z.ZSock) (frame : Bytes) (rest : List Bytes)
      → z.incoming input ≡ frame ∷ rest
      → Left weight
          (λ (_ : Unit {0}). 0)
          (kept self + length frame)
          ((receive z.zmq_msg_recv >>= λ f. load f >> recv_frame)
            (at (record { object = self; input = input }) []))
  unfolding receive load
  frame-kept self input frame rest e = rw ((z.zmq_recv-incoming input _ _ e).0) (
      Cheap-frame.run (record { object = self; input = (z.zmq_msg_recv input).1 }) frame
        (kept self + length frame) (omega arith))

  receive_all-kept :
      (router : Bool) (self : Example z) (input : z.ZSock) (rid frame : Bytes)
      (further : List Bytes)
      → z.is_router input ≡ router
      → z.incoming input ≡ wire router rid frame further
      → Left weight
          (λ (_ : Unit {0}). 0)
          (kept self + length frame)
          (receive_all (at (record { object = self; input = input }) []))
  unfolding receive_all gets recv_routing_id
  receive_all-kept false self input rid frame further d e =
      rw d (frame-kept self input frame further e)
  receive_all-kept true self input rid frame further d e =
      let (run, _, rest) = recv_routing_id_lem self input rid frame further e in
      rw (d, run)
        (frame-kept (with_routing_id self (z.zframe_recv input).0) (z.zframe_recv input).1 frame
          further rest)

  finish-kept :
      (k : ℕ) (o : Outcome (Unit {0}) × Machine Receiver)
      → Left weight (λ (_ : Unit {0}). 0) k o
      → kept (finish o).1.object ≤ k
  unfolding finish
  finish-kept k (Outcome.done a, m) h = omega arith
  finish-kept k (Outcome.malformed rc, m) h = h
  finish-kept k (Outcome.fault, m) h = h

  wire-codes :
      (router : Bool) (self : Example z) (input : z.ZSock) (rid frame : Bytes)
      (further : List Bytes)
      → IsObject self
      → All (All IsByte) (rid ∷ frame ∷ further)
      → z.incoming input ≡ wire router rid frame further
      → ((recv self input).0 ≢ none) × IsObject (recv self input).1.object
  wire-codes false self input rid frame further o b e = recv_lem self input frame further o b.1 e
  wire-codes true self input rid frame further o b e =
      recv_lem self input rid (frame ∷ further) o b e

  -- Whatever bytes arrive, and whatever their length and size fields say: zproto_example_recv on a
  -- well formed object returns a code, with no read or write out of bounds on the way, and leaves
  -- the object well formed; and the aliases counted four times, the headers counted five times, the
  -- bytes of data and those of the public key are then together no more than they were before the
  -- call and the bytes of the frame.
  pub recv-kept :
      (router : Bool) (self : Example z) (input : z.ZSock) (rid frame : Bytes)
      (further : List Bytes)
      → IsObject self
      → All (All IsByte) (rid ∷ frame ∷ further)
      → z.is_router input ≡ router
      → z.incoming input ≡ wire router rid frame further
      → ((recv self input).0 ≢ none)
        × IsObject (recv self input).1.object
        × (kept (recv self input).1.object ≤ kept self + length frame)
  unfolding recv
  recv-kept router self input rid frame further o b d e =
      let (code, formed) = wire-codes router self input rid frame further o b e in
      (code, formed, finish-kept _ _ (receive_all-kept router self input rid frame further d e))
