-- ===== src/Delivery.antt =====
-- zproto_example_send on one side and zproto_example_recv on the other: what the calls of the one
-- put on the wire is the message that waits for the other.
use zproto.Base.{
  sym, ◌+◌, ◌^◌, ◌<◌, ◌≡◌, refl, ap, ◌∙◌, Bool, true, false, some, List, [], ◌∷◌, ◌++◌,
}
use zproto.CharArray.{Bytes}
use zproto.Get.{success}
use zproto.Czmq.{Czmq}
use zproto.Example.{Example}
use zproto.Example.View.{IsObject, Fits, message, frame_bytes, further_frames}
use zproto.Encode.Image.{image}
use zproto.Send.{Calls, count_content, send}
use zproto.Send.Parts.{flagged, parts, send_lem}
use zproto.Recv.{recv}
use zproto.Recv.RoundTrip.{IsKnown}
use zproto.Recv.Arrived.{recv-send_dealer, recv-send_router}

abbrev pub payloads : List (Bytes × Bool) → List Bytes
payloads [] = []
payloads (p ∷ rest) = p.0 ∷ payloads rest

payloads-flagged : (l : List Bytes) → payloads (flagged l) ≡ l
unfolding flagged
payloads-flagged [] = refl
payloads-flagged (b ∷ []) = refl
payloads-flagged (b ∷ c ∷ rest) = ap (λ l. b ∷ l) (payloads-flagged (c ∷ rest))

module _ ⦃z : Czmq⦄ where
  -- The frames that the calls send, without the flags.
  abbrev pub frames_of : Calls → List Bytes
  frames_of calls = payloads (parts calls)

  -- What a successful call has sent on a socket that is no ROUTER.
  pub frames_of-send :
      (self : Example z) (calls : Calls) (self' : Example z)
      → IsObject self
      → count_content self.content + 2 < 2 ^ 64
      → send self false ≡ some (calls, self')
      → (tail : Bytes) × (frames_of calls ≡ (image self ++ tail) ∷ further_frames self)
  frames_of-send self calls self' v few sent =
      let (tail, calls', e, p, _) = send_lem self false v.flags few in
      let same : calls ≡ calls' = cc in (tail, rw same (ap payloads p ∙ payloads-flagged _))

  -- For two well formed objects, a known message id, every count within its length field, and fewer
  -- than 2 ^ 64 - 2 content frames: when the frames that zproto_example_send has sent wait on a
  -- socket that is no ROUTER, recv returns 0, the receiving object then says the same message, and
  -- the frames are used up.
  pub recv-send :
      (self self' other : Example z) (calls : Calls) (input : z.ZSock)
      → IsObject self
      → IsObject other
      → Fits self
      → IsKnown self.id
      → count_content self.content + 2 < 2 ^ 64
      → send self false ≡ some (calls, self')
      → z.is_router input ≡ false
      → z.incoming input ≡ frames_of calls
      → ((recv other input).0 ≡ some success)
        × (message (recv other input).1.object ≡ message self)
        × (z.incoming (recv other input).1.input ≡ [])
  recv-send self self' other calls input v o f known few sent d e =
      let (tail, e') = frames_of-send self calls self' v few sent in
      recv-send_dealer self other input tail v o f known d (e ∙ e')

  -- Under the conditions of recv-send (both objects well formed, a known id, every count within its
  -- length field, fewer than 2 ^ 64 - 2 content frames), on a ROUTER, which hands over the sender's
  -- routing id in front: recv returns 0, the object keeps the routing id and says the same message,
  -- and the frames are used up.
  pub recv-send_routed :
      (self self' other : Example z) (calls : Calls) (input : z.ZSock) (rid : Bytes)
      → IsObject self
      → IsObject other
      → Fits self
      → IsKnown self.id
      → count_content self.content + 2 < 2 ^ 64
      → send self false ≡ some (calls, self')
      → z.is_router input ≡ true
      → z.incoming input ≡ rid ∷ frames_of calls
      → ((recv other input).0 ≡ some success)
        × (frame_bytes (recv other input).1.object.routing_id ≡ rid)
        × (message (recv other input).1.object ≡ message self)
        × (z.incoming (recv other input).1.input ≡ [])
  recv-send_routed self self' other calls input rid v o f known few sent d e =
      let (tail, e') = frames_of-send self calls self' v few sent in
      recv-send_router self other input rid tail v o f known d (e ∙ ap (λ l. rid ∷ l) e')

  -- The frames tell the message: two well formed objects with known ids, whose counts fit, and of
  -- which zproto_example_send puts the same frames on the wire, say the same message. (`input` is
  -- a socket at which the frames have arrived.)
  pub same_frames-message :
      (self self' other other' : Example z) (calls calls' : Calls) (input : z.ZSock)
      → IsObject self
      → IsObject other
      → Fits self
      → Fits other
      → IsKnown self.id
      → IsKnown other.id
      → count_content self.content + 2 < 2 ^ 64
      → count_content other.content + 2 < 2 ^ 64
      → send self false ≡ some (calls, self')
      → send other false ≡ some (calls', other')
      → frames_of calls ≡ frames_of calls'
      → z.is_router input ≡ false
      → z.incoming input ≡ frames_of calls
      → message self ≡ message other
  same_frames-message self self' other other' calls calls' input v o f g k l few few' s t e d i =
      let (_, a, _) = recv-send self self' other calls input v o f k few s d i in
      let (_, b, _) = recv-send other other' other calls' input o o g l few' t d (i ∙ e) in
      sym a ∙ b
