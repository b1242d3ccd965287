-- ===== src/Network.antt =====
-- Two sockets that are connected, over the message queue of ZeroMQ: zproto_example_send on one side
-- and zproto_example_recv on the other, each as often as it is called and in any order.
pub mod Kept
pub mod Carried
pub mod Fifo
pub mod Extra
use zproto.Base.{
  Bool, true, false, ◌≡◌, Option, none, some, List, [], ◌∷◌, ◌++◌, length, ◌+◌, ◌<◌, ◌^◌,
}
use zproto.CharArray.{Bytes}
use zproto.Czmq.{Czmq}
use zproto.Get.{Rc}
use zproto.Example.{Example}
use zproto.Example.View.{IsObject, Fits, Message, message}
use zproto.Send.{Calls, count_content, send}
use zproto.Recv.{recv}
use zproto.Recv.RoundTrip.{IsKnown}
use zproto.Delivery.{frames_of}

-- The queue behind a socket. `waiting` is the messages behind the one that is being read; `wait`
-- is what the first receiving call of zproto_example_recv does before it reads: it waits for the
-- next message, unless one is half read.
pub record Network (z : Czmq) : Type 0 where
  pub waiting : z.ZSock → List (List Bytes)
  pub arrive : z.ZSock → List Bytes → z.ZSock
  pub wait : z.ZSock → z.ZSock
  pub waiting-arrive :
      (s : z.ZSock) (frames : List Bytes) → waiting (arrive s frames) ≡ waiting s ++ frames ∷ []
  pub incoming-arrive :
      (s : z.ZSock) (frames : List Bytes) → z.incoming (arrive s frames) ≡ z.incoming s
  pub router-arrive :
      (s : z.ZSock) (frames : List Bytes) → z.is_router (arrive s frames) ≡ z.is_router s
  pub wait-next :
      (s : z.ZSock) (frames : List Bytes) (rest : List (List Bytes))
      → z.incoming s ≡ []
      → waiting s ≡ frames ∷ rest
      → (z.incoming (wait s) ≡ frames) × (waiting (wait s) ≡ rest)
  pub wait-same : (s : z.ZSock) (f : Bytes) (fs : List Bytes) → z.incoming s ≡ f ∷ fs → wait s ≡ s
  pub router-wait : (s : z.ZSock) → z.is_router (wait s) ≡ z.is_router s
  -- Reading a frame of one message changes nothing of the others.
  pub waiting-frame_recv : (s : z.ZSock) → waiting (z.zframe_recv s).1 ≡ waiting s
  pub waiting-msg_recv : (s : z.ZSock) → waiting (z.zmsg_recv s).1 ≡ waiting s
  pub waiting-zmq_recv : (s : z.ZSock) → waiting (z.zmq_msg_recv s).1 ≡ waiting s
  pub router-frame_recv : (s : z.ZSock) → z.is_router (z.zframe_recv s).1 ≡ z.is_router s
  pub router-msg_recv : (s : z.ZSock) → z.is_router (z.zmsg_recv s).1 ≡ z.is_router s
  pub router-zmq_recv : (s : z.ZSock) → z.is_router (z.zmq_msg_recv s).1 ≡ z.is_router s

module _ ⦃z : Czmq⦄ ⦃n : Network z⦄ where
  -- A ROUTER puts the peer's routing id in front.
  abbrev pub delivered : Bool → Bytes → List Bytes → List Bytes
  delivered false rid frames = frames
  delivered true rid frames = rid ∷ frames

  -- What a call of recv reports: its code, and what the object then says.
  abbrev pub Report : Type 0
  Report = Option Rc × Message

  abbrev pub report : Example z → z.ZSock → Report
  report other input = ((recv other (n.wait input)).0, message (recv other (n.wait input)).1.object)

  -- The runs of a connection from the socket `s0` on: the messages sent, the reports of recv, and
  -- the receiving socket. Sender and receiver act in any order; recv returns where a message waits.
  pub data Run (s0 : z.ZSock) : List Message → List Report → z.ZSock → Type 0 where
    start : Run s0 [] [] s0
    sends :
        {sent : List Message} {got : List Report} {s : z.ZSock}
        → Run s0 sent got s
        → (self self' : Example z) (calls : Calls) (rid : Bytes) → IsObject self
        → Fits self
        → IsKnown self.id
        → count_content self.content + 2 < 2 ^ 64
        → send self false ≡ some (calls, self')
        → Run s0
            (sent ++ message self ∷ [])
            got
            (n.arrive s (delivered (z.is_router s) rid (frames_of calls)))
    receives :
        {sent : List Message} {got : List Report} {s : z.ZSock}
        → Run s0 sent got s
        → (other : Example z) (frames : List Bytes) (rest : List (List Bytes)) → IsObject other
        → n.waiting s ≡ frames ∷ rest
        → Run s0 sent (got ++ report other s ∷ []) (recv other (n.wait s)).1.input
