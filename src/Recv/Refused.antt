-- ===== src/Recv/Refused.antt =====
-- zproto_example_recv on a frame that is no message of this protocol.
use zproto.Base.{ℕ, ◌+◌, ◌*◌, ◌^◌, ◌≡◌, ◌≢◌, refl, Bool, true, false, some, List, ◌∷◌, arith}
use zproto.Base.{◌==◌, length, ltb, ◌⊎◌, inl, inr}
use zproto.CharArray.{Bytes}
use zproto.Get.{
  gets, modify, check, Outcome, at, bad, get_number1, get_number2, room, peek, advance,
}
use zproto.Czmq.{Czmq}
use zproto.Example.{Example}
use zproto.Recv.{
  Receiver, recv_body, recv_frame, receive, load, receive_all, recv_routing_id, finish, recv,
}
use zproto.Recv.RoundTrip.{IsKnown}

module _ ⦃z : Czmq⦄ where
  number2-cons :
      (r : Receiver) (a b : ℕ) (rest : Bytes)
      → get_number2 (at r (a ∷ b ∷ rest)) ≡ (Outcome.done (a * 2 ^ 8 + b), at r rest)
  unfolding get_number2 room peek advance
  number2-cons r a b rest =
      let there : ltb (length (a ∷ b ∷ rest)) 2 ≡ false = ground arith in rw there refl

  number1-cons :
      (r : Receiver) (a : ℕ) (rest : Bytes)
      → get_number1 (at r (a ∷ rest)) ≡ (Outcome.done a, at r rest)
  unfolding get_number1 room peek advance
  number1-cons r a rest =
      let there : ltb (length (a ∷ rest)) 1 ≡ false = ground arith in rw there refl

  abbrev pub with_id : ℕ → Example z → Example z
  with_id n s = record s { id = n }

  body-unknown :
      (r : Receiver) (id : ℕ) (bs : Bytes)
      → ¬ IsKnown id
      → recv_body id (at r bs) ≡ (Outcome.malformed bad, at r bs)
  unfolding recv_body
  body-unknown r id bs h = ground arith

  frame-signature :
      (r : Receiver) (a b : ℕ) (rest : Bytes)
      → a * 2 ^ 8 + b ≢ 0xAAA0
      → recv_frame (at r (a ∷ b ∷ rest)) ≡ (Outcome.malformed bad, at r rest)
  unfolding recv_frame check
  frame-signature r a b rest h =
      let no : (a * 2 ^ 8 + b == 0xAAA0) ≡ false = ground arith in
      rw (number2-cons r a b rest, no) refl

  frame-id :
      (r : Receiver) (a b id : ℕ) (rest : Bytes)
      → a * 2 ^ 8 + b ≡ 0xAAA0
      → ¬ IsKnown id
      → recv_frame (at r (a ∷ b ∷ id ∷ rest))
        ≡ (Outcome.malformed bad, at (record r { object = with_id id r.object }) rest)
  unfolding recv_frame check modify
  frame-id r a b id rest e h =
      let yes : (a * 2 ^ 8 + b == 0xAAA0) ≡ true = ground arith in
      rw (number2-cons r a b (id ∷ rest), yes, number1-cons r id rest, body-unknown _ id rest h)
        refl

  frame-refused :
      (right : Bool) (r : Receiver) (a b id : ℕ) (rest : Bytes)
      → (a * 2 ^ 8 + b == 0xAAA0) ≡ right
      → (a * 2 ^ 8 + b ≢ 0xAAA0) ⊎ (¬ IsKnown id)
      → (n : ℕ) × (bs : Bytes) × (recv_frame (at r (a ∷ b ∷ id ∷ rest))
          ≡ (Outcome.malformed bad, at (record r { object = with_id n r.object }) bs))
  frame-refused false r a b id rest e h =
      (r.object.id, id ∷ rest, frame-signature r a b (id ∷ rest) (ground arith))
  frame-refused true r a b id rest e (inl h) = absurd (h (ground arith))
  frame-refused true r a b id rest e (inr h) = (id, rest, frame-id r a b id rest (ground arith) h)

  -- On a socket that is no ROUTER: a frame of at least three bytes with another signature than
  -- 0xAAA0, or with a message id outside of 1 to 4, makes zproto_example_recv return -2, and no
  -- field of the object has changed but the message id.
  pub recv-refused :
      (self : Example z) (input : z.ZSock) (a b id : ℕ) (tail : Bytes) (rest : List Bytes)
      → z.is_router input ≡ false
      → z.incoming input ≡ (a ∷ b ∷ id ∷ tail) ∷ rest
      → (a * 2 ^ 8 + b ≢ 0xAAA0) ⊎ (¬ IsKnown id)
      → ((recv self input).0 ≡ some bad)
        × ((recv self input).1.object ≡ with_id (recv self input).1.object.id self)
  unfolding recv receive_all gets recv_routing_id receive load finish
  recv-refused self input a b id tail rest d e h =
      let r : Receiver = record { object = self; input = (z.zmq_msg_recv input).1 } in
      let (n, bs, run) = frame-refused _ r a b id tail refl h in
      rw (d, (z.zmq_recv-incoming input _ _ e).0, run) (refl, refl)
