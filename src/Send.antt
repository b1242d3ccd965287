-- ===== src/Send.antt =====
-- zproto_example_send of src/zproto_example.c. What goes to the socket is the list of calls that
-- are made, in their order; the program does not look at what they return.
pub mod Parts
use zproto.Base.{
  ℕ, ◌+◌, ◌-◌, ◌%◌, ◌^◌, Bool, true, false, not, Option, none, some, List, [], ◌∷◌, ◌++◌,
}
use zproto.Base.{◌==◌, if◌then◌else◌}
use zproto.CharArray.{Bytes}
use zproto.Put.{Frame, fresh}
use zproto.Czmq.{Czmq}
use zproto.Example.{Example, id_binary}
use zproto.Encode.{frame_size, serialize}

-- zmq_msg_send of the bytes, zframe_send of the frame, and zmq_send (…, NULL, 0, …), each with its
-- ZMQ_SNDMORE or ZFRAME_MORE flag.
pub data Call (F : Type 0) : Type 0 where
  msg_send : Bytes → Bool → Call F
  frame_send : Option F → Bool → Call F
  empty_send : Bool → Call F

-- `--nbr_frames`, a size_t
unfoldable pub decrement : ℕ → ℕ
decrement n = (n + 2 ^ 64 - 1) % 2 ^ 64

-- The test of the new value.
abbrev pub nonzero : ℕ → Bool
nonzero n = not (n == 0)

module _ ⦃z : Czmq⦄ where
  abbrev pub Calls : Type 0
  Calls = List (Call z.ZFrame)

  -- the loop over zmsg_first, zmsg_next
  unfoldable pub send_content : ℕ → List z.ZFrame → Calls
  send_content nbr_frames [] = []
  send_content nbr_frames (frame ∷ rest) =
      let n = decrement nbr_frames in frame_send (some frame) (nonzero n) ∷ send_content n rest

  unfoldable pub count_content : Option z.ZMsg → ℕ
  count_content none = 1
  count_content (some content) = z.zmsg_size content

  unfoldable pub send_address : Option z.ZFrame → Bool → Call z.ZFrame
  send_address none more = empty_send more
  send_address (some frame) more = frame_send (some frame) more

  unfoldable pub send_rest : ℕ → Option z.ZMsg → Calls
  send_rest nbr_frames none = empty_send false ∷ []
  send_rest nbr_frames (some content) = send_content nbr_frames (z.zmsg_frames content)

  -- "Now send the data frame", "any frame fields", "the content if necessary"
  unfoldable pub send_frames : Example z → Bytes → Calls
  send_frames self frame =
      let binary = self.id == id_binary in
      let nbr_frames = if binary then 1 + 1 + count_content self.content else 1 in
      let n = decrement nbr_frames in
      let m = decrement n in
      msg_send frame (nonzero n)
      ∷ (if binary then send_address self.address (nonzero m) ∷ send_rest m self.content else [])

  -- The routing id goes first on a ROUTER.
  unfoldable pub send_routing_id : Bool → Option z.ZFrame → Calls
  send_routing_id false routing_id = []
  send_routing_id true routing_id = frame_send routing_id true ∷ []

  finish : Bool → Option Frame → Example z → Option (Calls × Example z)
  finish router none self = none
  finish router (some f) self =
      some (send_routing_id router self.routing_id ++ send_frames self (f.done ++ f.room), self)

  -- `router` tells whether zsock_type (output) is ZMQ_ROUTER; `none` is a write past the frame.
  unfoldable pub send : Example z → Bool → Option (Calls × Example z)
  unfolding finish
  send self router =
      let (size, self') = frame_size self in
      finish router (serialize self' (fresh (z.new_msg_memory size))) self'
