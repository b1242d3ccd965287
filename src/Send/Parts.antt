-- ===== src/Send/Parts.antt =====
-- The calls of zproto_example_send as one message of several parts.
use zproto.Base.{
  ℕ, suc, ◌+◌, ◌-◌, ◌^◌, ◌≤◌, ◌<◌, ◌≡◌, refl, sym, ◌∙◌, Bool, true, false, Option, none, some, List,
  [], ◌∷◌, ◌++◌,
}
use zproto.Base.{length, length-map, append_assoc, arith}
use mathlib.Core.List.{map}
use zproto.Put.{fresh}
use zproto.CharArray.{Bytes}
use zproto.Czmq.{Czmq}
use zproto.Example.{Example}
use zproto.Example.View.{frame_bytes, content_parts, further_frames}
use zproto.Encode.{serialize, frame_size}
use zproto.Encode.Image.{image}
use zproto.Encode.Exact.{
  leftover, serialize_lem, further-frame_size, routing_id-frame_size, content-frame_size,
}
use zproto.Send.{Call, msg_send, frame_send, empty_send, decrement, nonzero, Calls, send_content}
use zproto.Send.{count_content, send_address, send_rest, send_frames, send_routing_id, finish, send}

-- The parts of a message, with the flag `more` on all but the last.
unfoldable pub flagged : List Bytes → List (Bytes × Bool)
flagged [] = []
flagged (b ∷ []) = (b, false) ∷ []
flagged (b ∷ c ∷ rest) = (b, true) ∷ flagged (c ∷ rest)

flagged_cons : (b : Bytes) (l : List Bytes) → flagged (b ∷ l) ≡ (b, nonzero (length l)) ∷ flagged l
unfolding flagged
flagged_cons b [] = refl
flagged_cons b (c ∷ rest) = ground arith

decrement-suc : (n : ℕ) → suc n < 2 ^ 64 → decrement (suc n) ≡ n
unfolding decrement
decrement-suc n h = omega arith

flagged_nil : flagged [] ≡ []
unfolding flagged
flagged_nil = refl

decrement_pos : (n : ℕ) → 1 ≤ n → n < 2 ^ 64 → decrement n ≡ n - 1
unfolding decrement
decrement_pos n k h = omega arith

module _ ⦃z : Czmq⦄ where
  -- What a call puts on the wire: zframe_send of NULL sends nothing.
  abbrev pub part : Call z.ZFrame → List (Bytes × Bool)
  part (msg_send bytes more) = (bytes, more) ∷ []
  part (frame_send none more) = []
  part (frame_send (some frame) more) = (z.zframe_data frame, more) ∷ []
  part (empty_send more) = ([], more) ∷ []

  abbrev pub parts : Calls → List (Bytes × Bool)
  parts [] = []
  parts (call ∷ calls) = part call ++ parts calls

  parts-append : (calls further : Calls) → parts (calls ++ further) ≡ parts calls ++ parts further
  parts-append [] further = refl
  parts-append (call ∷ calls) further =
      rw (parts-append calls further, append_assoc (part call) (parts calls) (parts further)) refl

  -- With as many frames to go as the count says, the last is the only one without the flag.
  part-send_content :
      (l : List z.ZFrame)
      → length l < 2 ^ 64
      → parts (send_content (length l) l) ≡ flagged (map z.zframe_data l)
  unfolding send_content
  part-send_content [] h = unfold flagged in refl
  part-send_content (f ∷ l) h = rw (
    decrement-suc (length l) h,
    part-send_content l (omega arith),
    flagged_cons,
    length-map l z.zframe_data,
  )

  -- The number of parts of the content.
  length-content_parts : (o : Option z.ZMsg) → length (content_parts o) ≡ count_content o
  unfolding count_content
  length-content_parts none = refl
  length-content_parts (some content) =
      length-map (z.zmsg_frames content) z.zframe_data ∙ sym (z.size-frames content)

  part-send_rest :
      (o : Option z.ZMsg)
      → count_content o < 2 ^ 64
      → parts (send_rest (count_content o) o) ≡ flagged (content_parts o)
  unfolding send_rest count_content
  part-send_rest none h = unfold flagged in refl
  part-send_rest (some content) h =
      rw z.size-frames (part-send_content (z.zmsg_frames content) (rw z.size-frames at h))

  part-send_address :
      (o : Option z.ZFrame) (more : Bool) → part (send_address o more) ≡ (frame_bytes o, more) ∷ []
  unfolding send_address
  part-send_address none more = refl
  part-send_address (some frame) more = refl

  -- The first frame and the further frames go out as one message.
  part-send_frames :
      (self : Example z) (frame : Bytes)
      → count_content self.content + 2 < 2 ^ 64
      → parts (send_frames self frame) ≡ flagged (frame ∷ further_frames self)
  unfolding send_frames
  part-send_frames self frame h =
      let count = count_content self.content in
      let address = frame_bytes self.address in
      let content = content_parts self.content in
      ground (
        arith,
        decrement_pos (1 + 1 + count),
        decrement_pos (1 + count),
        decrement_pos 1,
        flagged_cons frame (address ∷ content),
        flagged_cons address content,
        flagged_cons frame [],
        flagged_nil,
        length-content_parts self.content,
        part-send_address self.address (nonzero count),
        part-send_rest self.content,
      )

  -- The routing id, where the socket is a ROUTER and the object has one.
  abbrev pub envelope : Bool → Option z.ZFrame → List (Bytes × Bool)
  envelope false routing_id = []
  envelope true none = []
  envelope true (some routing_id) = (z.zframe_data routing_id, true) ∷ []

  part-send_routing_id :
      (router : Bool) (o : Option z.ZFrame) → parts (send_routing_id router o) ≡ envelope router o
  unfolding send_routing_id
  part-send_routing_id false o = refl
  part-send_routing_id true none = refl
  part-send_routing_id true (some routing_id) = refl

  pub send-finish :
      (self : Example z) (router : Bool) (tail : Bytes)
      → serialize (frame_size self).1 (fresh (z.new_msg_memory (frame_size self).0))
        ≡ some (record { done = image self; room = tail })
      → send self router
        ≡ some (
          send_routing_id router (frame_size self).1.routing_id
              ++ send_frames (frame_size self).1 (image self ++ tail),
          (frame_size self).1,
        )
  unfolding send finish
  send-finish self router tail e = rw e refl

  -- With the first frame serialized, the calls of send.
  pub send-serialize :
      (self : Example z) (router : Bool) (tail : Bytes)
      → count_content self.content + 2 < 2 ^ 64
      → serialize (frame_size self).1 (fresh (z.new_msg_memory (frame_size self).0))
        ≡ some (record { done = image self; room = tail })
      → (calls : Calls) × (send self router ≡ some (calls, (frame_size self).1))
        × (parts calls
            ≡ envelope router self.routing_id
              ++ flagged ((image self ++ tail) ∷ further_frames self))
  send-serialize self router tail few e =
      let self' = (frame_size self).1 in
      let frame = image self ++ tail in
      (
        send_routing_id router self'.routing_id ++ send_frames self' frame,
        send-finish self router tail e,
        rw (
          parts-append,
          part-send_routing_id,
          part-send_frames self' frame (rw content-frame_size few),
          routing_id-frame_size,
          further-frame_size,
        ),
      )

  -- For flags of 4 bytes and fewer than 2 ^ 64 - 2 content frames, zproto_example_send stays inside
  -- the frame that it allocates, and its calls put on the wire the routing id, if the socket is a
  -- ROUTER and the object has one, and then one message of the first frame, which is the image and
  -- the leftover bytes, and the further frames, with the more flag on all but the last.
  pub send_lem :
      (self : Example z) (router : Bool)
      → length self.flags ≡ 4
      → count_content self.content + 2 < 2 ^ 64
      → (tail : Bytes) × (calls : Calls) × (send self router ≡ some (calls, (frame_size self).1))
        × (parts calls
            ≡ envelope router self.routing_id
              ++ flagged ((image self ++ tail) ∷ further_frames self))
        × (length tail ≡ leftover self)
  send_lem self router h few =
      let (tail, e, l) = serialize_lem self _ h (z.length-new_msg_memory (frame_size self).0) in
      let (calls, done, p) = send-serialize self router tail few e in (tail, calls, done, p, l)
