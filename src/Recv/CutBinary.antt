-- ===== src/Recv/CutBinary.antt =====
-- zproto_example_recv on a BINARY message whose first frame ends too early.
use zproto.Base.{
  ap, ◌∙◌, ℕ, ◌+◌, ◌-◌, ◌<◌, ◌≡◌, refl, false, some, List, ◌∷◌, ◌++◌, arith, if◌then◌else◌, ltb,
}
use zproto.Base.{length, take, append_assoc, length-append}
use zproto.CharArray.{Bytes}
use zproto.Put.Writes.{big_endian}
use zproto.Get.{Machine, gets, Outcome, success, bad, Rc}
use zproto.Get.Runs.{Runs-number1, Runs-number2, Runs-number4, Runs-octets, Runs-block}
use zproto.Get.Cuts.{Cuts-number1, Cuts-number2, Cuts-number4}
use zproto.Get.Breaks.{
  Breaks, Breaks-bind, Breaks-block, Breaks-last_block, Breaks-modify_then, Breaks-check_then,
  Cuts-octets, code,
}
use zproto.Czmq.{Czmq}
use zproto.Example.{Example, id_binary}
use zproto.Example.View.{IsObject, Fits, key_bytes, uuid_bytes}
use zproto.Encode.Image.{image, binary_image}
use zproto.Recv.{
  Receiver, recv_binary, recv_body, recv_frame, receive, load, receive_all, recv_routing_id, finish,
  recv,
}
use zproto.Recv.Binary.{length-uuid_bytes}

module _ ⦃z : Czmq⦄ where
  -- The public key and the identifier, which are checked for by statements of their own.
  abbrev block_size : Example z → ℕ
  block_size self = length (key_bytes self.public_key) + 16

  Breaks-binary :
      (self : Example z) (r : Receiver)
      → IsObject self
      → Fits self
      → Breaks (block_size self) recv_binary r (binary_image self)
  unfolding recv_binary binary_image
  Breaks-binary self r v f =
      let key = key_bytes self.public_key in
      let uuid = uuid_bytes self.identifier in
      let l = length-uuid_bytes self.identifier in
      let both = length-append key uuid in
      let number = big_endian 4 (length key) in
      let three = length-append number (key ++ uuid) in
      let four = length-append self.flags (number ++ (key ++ uuid)) in
      rw (append_assoc (big_endian 4 (length key)) key uuid) (
        Breaks-bind _ _ (omega (arith, l, both, three, four)) (Runs-number2 _ _ v.sequence)
          (Cuts-number2 _ _)
          (Breaks-modify_then _ _ (
            Breaks-bind _ _ (omega (arith, l, both, three)) (Runs-octets self.flags 4 _ v.flags)
              (Cuts-octets 4 _ self.flags v.flags)
              (Breaks-modify_then _ _ (
                Breaks-bind _ _ (omega (arith, l, both)) (Runs-number4 _ _ f.public_key)
                  (Cuts-number4 _ _)
                  (Breaks-block _ _ refl (omega (arith, l, both)) (Runs-block key _ _ _ refl)
                    (Breaks-modify_then _ _ (Breaks-last_block 16 _ l (omega (arith, l))))))))))

  length-binary_image :
      (self : Example z) → IsObject self → length (binary_image self) ≡ 10 + block_size self
  unfolding binary_image big_endian
  length-binary_image self v =
      let key = key_bytes self.public_key in
      let uuid = uuid_bytes self.identifier in
      omega (
        arith,
        v.flags,
        length-append self.flags ((big_endian 4 (length key) ++ key) ++ uuid),
        length-append key uuid,
        length-uuid_bytes self.identifier,
      )

  Breaks-frame :
      (self : Example z) (r : Receiver)
      → IsObject self
      → Fits self
      → Breaks
          (block_size self)
          recv_frame
          r
          (big_endian 2 0xAAA0 ++ (big_endian 1 id_binary ++ binary_image self))
  unfolding recv_frame recv_body
  Breaks-frame self r v f =
      let l = length-binary_image self v in
      let longer = length-append (big_endian 1 id_binary) (binary_image self) in
      Breaks-bind _ _ (omega (arith, l, longer)) (Runs-number2 0xAAA0 _ (omega arith))
        (Cuts-number2 _ _)
        (Breaks-check_then _ _ _ refl (
          Breaks-bind _ _ (omega (arith, l)) (Runs-number1 id_binary _ (omega arith))
            (Cuts-number1 _ _) (Breaks-modify_then _ _ (Breaks-binary self _ v f))))

  pub image-binary :
      (self : Example z)
      → self.id ≡ id_binary
      → image self ≡ big_endian 2 0xAAA0 ++ (big_endian 1 id_binary ++ binary_image self)
  unfolding image
  image-binary self e = rw e refl

  finish-Exits :
      (rc : Rc) (o : Outcome (Unit {0}) × Machine Receiver)
      → o.0 ≡ Outcome.malformed rc
      → (finish o).0 ≡ some rc
  unfolding finish
  finish-Exits rc (Outcome.done a, m) h = cc
  finish-Exits rc (Outcome.malformed rc', m) h = cc
  finish-Exits rc (Outcome.fault, m) h = cc

  first_code : (k n : ℕ) → n < 13 + k → code k (13 + k - n) ≡ (if ltb n 13 then success else bad)
  first_code k n h = ground arith

  -- On a socket that is no ROUTER: of the first frame of a well formed BINARY message whose counts
  -- fit, the first `n` bytes without the last ones make zproto_example_recv return -2 where the
  -- frame ends inside of the public key or of the identifier, and 0, the code of success, where it
  -- ends in front of these, which is before the 13th byte.
  pub recv-truncated_binary :
      (self other : Example z) (input : z.ZSock) (n : ℕ) (rest : List Bytes)
      → IsObject self
      → Fits self
      → self.id ≡ id_binary
      → z.is_router input ≡ false
      → n < length (image self)
      → z.incoming input ≡ take n (image self) ∷ rest
      → (recv other input).0 ≡ some (if ltb n 13 then success else bad)
  unfolding recv receive_all gets recv_routing_id receive load big_endian
  recv-truncated_binary self other input n rest v f b d h e =
      let r : Receiver = record { object = other; input = (z.zmq_msg_recv input).1 } in
      let bytes = image-binary self b in
      let l = length-binary_image self v in
      let long : length (image self) ≡ 13 + block_size self = ap length bytes ∙ omega (arith, l) in
      let run = (Breaks-frame self r v f).cut n (omega (arith, h, long, l)) in
      let frame = big_endian 2 0xAAA0 ++ (big_endian 1 id_binary ++ binary_image self) in
      let size : length frame ≡ 13 + block_size self = omega (arith, l) in
      let rc =
        ap (λ m. code (block_size self) (m - n)) size
        ∙ first_code (block_size self) n (omega (arith, h, long)) in
      let e' = e ∙ ap (λ bs. take n bs ∷ rest) bytes in
      rw (d, (z.zmq_recv-incoming input _ _ e').0)
        (finish-Exits _ _ (run ∙ ap Outcome.malformed rc))
