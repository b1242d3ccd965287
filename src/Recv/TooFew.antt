-- ===== src/Recv/TooFew.antt =====
-- zproto_example_recv on a ZeroMQ message with fewer frames than it needs.
use zproto.Base.{◌≡◌, refl, ap, ◌∙◌, not, Bool, false, true, some, [], ◌∷◌, ◌++◌, arith, length}
use zproto.Base.{append_assoc, append-nil}
use zproto.CharArray.{Bytes}
use zproto.Put.Writes.{big_endian}
use zproto.Get.{Outcome, at, Get, ◌>>=◌, modify, gets, check, Rc, bad}
use zproto.Get.Runs.{Runs, Runs-number1, Runs-number2, Runs-number4, Runs-octets, Runs-block}
use zproto.Czmq.{Czmq, is_empty}
use zproto.Example.{Example, id_binary}
use zproto.Example.View.{IsObject, Fits, key_bytes, uuid_bytes}
use zproto.Encode.Image.{image, binary_image}
use zproto.Recv.{
  Receiver, assign, more, recv_frames, recv_binary, recv_body, recv_frame, receive, load,
  receive_all, recv_routing_id, finish, recv,
}
use zproto.Recv.CutBinary.{image-binary}
use zproto.Recv.Binary.{binary_received, length-uuid_bytes}

module _ {S : Type 0} where
  -- On `bs` and whatever follows it, `g` takes `bs` and leaves for `malformed` with the code `rc`.
  record Fails {A : Type 0} (g : Get S A) (s : S) (bs : Bytes) (rc : Rc) (s' : S) : Type 0 where
    run : (rest : Bytes) → g (at s (bs ++ rest)) ≡ (Outcome.malformed rc, at s' rest)

  Fails-bind :
      {A B : Type 0} (g : Get S A) (f : A → Get S B) {s s' s'' : S} {bs cs : Bytes} {a : A}
      {rc : Rc}
      → Runs g s bs a s'
      → Fails (f a) s' cs rc s''
      → Fails (g >>= f) s (bs ++ cs) rc s''
  Fails-bind g f {bs = bs} {cs = cs} p q = record {
    run = λ rest. rw (append_assoc bs cs rest, p.run (cs ++ rest)) (q.run rest);
  }

  Fails-last :
      {A B : Type 0} (g : Get S A) (f : A → Get S B) {s s' s'' : S} {bs : Bytes} {a : A} {rc : Rc}
      → Runs g s bs a s'
      → Fails (f a) s' [] rc s''
      → Fails (g >>= f) s bs rc s''
  Fails-last g f p q = rw append-nil at (Fails-bind g f p q)

  Fails-modify_then :
      {B : Type 0} (f : S → S) (k : Unit {0} → Get S B) {s s' : S} {bs : Bytes} {rc : Rc}
      → Fails (k tt) (f s) bs rc s'
      → Fails (modify f >>= k) s bs rc s'
  unfolding modify
  Fails-modify_then f k q = record { run = q.run }

  Fails-check_then :
      {B : Type 0} (good : Bool) (rc : Rc) (k : Unit {0} → Get S B) {s s' : S} {bs : Bytes}
      {rc' : Rc}
      → good ≡ true
      → Fails (k tt) s bs rc' s'
      → Fails (check good rc >>= k) s bs rc' s'
  unfolding check
  Fails-check_then good rc k e q = record { run = λ rest. rw e (q.run rest) }

module _ ⦃z : Czmq⦄ where
  Fails-frames : (r : Receiver) → z.zsock_rcvmore r.input ≡ false → Fails recv_frames r [] bad r
  unfolding recv_frames more gets check
  Fails-frames r h = record { run = λ rest. rw h refl }

  Fails-binary :
      (self : Example z) (r : Receiver)
      → IsObject self
      → Fits self
      → z.zsock_rcvmore r.input ≡ false
      → Fails recv_binary r (binary_image self) bad (assign (binary_received self) r)
  unfolding recv_binary binary_image
  Fails-binary self r v f h =
      let key = key_bytes self.public_key in
      let uuid = uuid_bytes self.identifier in
      rw (append_assoc (big_endian 4 (length key)) key uuid) (
        Fails-bind _ _ (Runs-number2 _ _ v.sequence) (
          Fails-modify_then _ _ (
            Fails-bind _ _ (Runs-octets self.flags 4 _ v.flags) (
              Fails-modify_then _ _ (
                Fails-bind _ _ (Runs-number4 _ _ f.public_key) (
                  Fails-bind _ _ (Runs-block key _ _ _ refl) (
                    Fails-modify_then _ _ (
                      Fails-last _ _ (Runs-block uuid 16 _ _ (length-uuid_bytes self.identifier))
                        (Fails-modify_then _ _ (Fails-frames _ h))))))))))

  -- What recv has stored of a BINARY message up to its last field in the first frame.
  abbrev pub first_frame_of : Example z → Example z → Example z
  first_frame_of self other = binary_received self (record other { id = id_binary })

  Fails-frame :
      (self : Example z) (r : Receiver)
      → IsObject self
      → Fits self
      → self.id ≡ id_binary
      → z.zsock_rcvmore r.input ≡ false
      → Fails recv_frame r (image self) bad (record r { object = first_frame_of self r.object })
  unfolding recv_frame recv_body
  Fails-frame self r v f e h = rw (image-binary self e) (
      Fails-bind _ _ (Runs-number2 0xAAA0 _ (omega arith)) (
        Fails-check_then _ _ _ refl (
          Fails-bind _ _ (Runs-number1 id_binary _ (omega arith))
            (Fails-modify_then _ _ (Fails-binary self _ v f h)))))

  -- On a socket that is no ROUTER: a BINARY message of a well formed object whose counts fit, of
  -- which only the first frame has come, makes zproto_example_recv return -2. The fields of the
  -- first frame are then in the object, and its address and its content are still the old ones.
  pub recv-missing_frames :
      (self other : Example z) (input : z.ZSock) (tail : Bytes)
      → IsObject self
      → Fits self
      → self.id ≡ id_binary
      → z.is_router input ≡ false
      → z.incoming input ≡ (image self ++ tail) ∷ []
      → ((recv other input).0 ≡ some bad)
        × ((recv other input).1.object ≡ first_frame_of self other)
        × (z.incoming (recv other input).1.input ≡ [])
  unfolding recv receive_all gets recv_routing_id receive load finish
  recv-missing_frames self other input tail v f b d e =
      let (a, l) = z.zmq_recv-incoming input _ _ e in
      let last = z.rcvmore-incoming (z.zmq_msg_recv input).1 ∙ ap (λ fs. not (is_empty fs)) l in
      let r : Receiver = record { object = other; input = (z.zmq_msg_recv input).1 } in
      rw (d, a, (Fails-frame self r v f b last).run tail) (refl, refl, l)
