-- ===== src/Recv/RoundTrip.antt =====
-- zproto_example_recv on a whole message that zproto_example_send has put on the wire: it reports
-- success, and the object says what the sender's says.
use zproto.Base.{
  ℕ, zero, suc, ◌^◌, ◌≤◌, ◌<◌, ◌≡◌, refl, ap, ◌∙◌, Bool, true, false, not, Option, none, some, [],
  arith,
}
use zproto.Base.{◌==◌, if◌then◌else◌}
use mathlib.Core.Path.{fun_ext}
use zproto.CharArray.{Bytes, c_string}
use zproto.CharArray.Laws.{filled, c_string-append_nul, c_string-c_string}
use zproto.Get.{Get}
use zproto.Get.Runs.{Runs, Runs-bind, Runs-modify_then, Runs-check_then, Runs-number1, Runs-number2}
use zproto.Czmq.{Czmq, is_empty}
use zproto.Example.{Example, switch, id_log, id_structures, id_binary, id_types}
use zproto.Example.View.{IsObject, Fits, message, message_as, frames_as}
use zproto.Example.View.{log_message, structures_message, types_message, text_of}
use zproto.Encode.Image.{image}
use zproto.Recv.{Receiver, assign, recv_body, recv_frame}
use zproto.Recv.Fields.{log_received, types_received, Runs-log, Runs-types}
use zproto.Recv.Structures.{structures_received, Runs-structures, items-received, lookup-received}
use zproto.Recv.Binary.{
  binary_received, frames_received, frames_received_lem, id-frames_received, Runs-binary,
  length-uuid_bytes,
}

-- One of the four message ids.
abbrev pub IsKnown : ℕ → Type 0
IsKnown id = (1 ≤ id) × (id ≤ 4)

Runs-if :
    {S A : Type 0} (b : Bool) {g h : Get S A} {s s' s'' : S} {bs cs : Bytes} {a : A}
    → (b ≡ true → Runs g s bs a s')
    → (b ≡ false → Runs h s cs a s'')
    → Runs (if b then g else h) s (if b then bs else cs) a (if b then s' else s'')
Runs-if true p q = p refl
Runs-if false p q = q refl

module _ ⦃z : Czmq⦄ where
  unfoldable pub received_as : ℕ → Example z → Receiver → Receiver
  received_as id self r =
      let r' : Receiver = assign (λ s. record s { id = id }) r in
      switch id (assign (log_received self) r') (assign (structures_received self) r')
        (frames_received (assign (binary_received self) r')) (assign (types_received self) r') r'

  unfoldable pub received : Example z → Receiver → Receiver
  unfolding received_as
  received self r = received_as self.id self r

  pub with_id-IsObject :
      (s : Example z) (n : ℕ) → n < 2 ^ 32 → IsObject s → IsObject (record s { id = n })
  with_id-IsObject s n h o = assumption

  pub Runs-frame :
      (self : Example z) (r : Receiver)
      → IsObject self
      → IsObject r.object
      → Fits self
      → IsKnown self.id
      → (self.id ≡ id_binary → z.zsock_rcvmore r.input ≡ true)
      → Runs recv_frame r (image self) tt (received self r)
  unfolding recv_frame recv_body image received
  Runs-frame self r v o f known following =
      let r' : Receiver = assign (λ s. record s { id = self.id }) r in
      let o' = with_id-IsObject r.object self.id (omega arith) o in
      Runs-bind _ _ (Runs-number2 0xAAA0 _ (omega arith)) (
        Runs-check_then _ _ _ refl (
          Runs-bind _ _ (Runs-number1 self.id _ (omega arith)) (
            Runs-modify_then _ _ (
              Runs-if (self.id == id_log) (λ e. Runs-log self r' v o' f)
                λ e₁.
                  Runs-if (self.id == id_structures) (λ e. Runs-structures self r' v f)
                    λ e₂.
                      Runs-if (self.id == id_binary)
                        (λ e. Runs-binary self r' v f (following (ground arith)))
                        λ e₃.
                          Runs-if (self.id == id_types) (λ e. Runs-types self r' v o')
                            λ e₄. absurd (ground arith)))))

  -- A C string that went through GET_STRING reads the same.
  c_string-filled : (cells s : Bytes) → c_string (filled cells (c_string s)) ≡ c_string s
  c_string-filled cells s = c_string-append_nul (c_string s) _ ∙ c_string-c_string s

  text_of-received : (o : Option Bytes) → c_string (c_string (text_of o)) ≡ text_of o
  text_of-received none = unfold c_string in refl
  text_of-received (some text) = ap c_string (c_string-c_string text) ∙ c_string-c_string text

  log_message-received : (self s : Example z) → log_message (log_received self s) ≡ log_message self
  log_message-received self s = rw (c_string-filled, text_of-received)

  types_message-received :
      (self s : Example z) → types_message (types_received self s) ≡ types_message self
  types_message-received self s = simp c_string-filled

  structures_message-received :
      (self s : Example z)
      → structures_message (structures_received self s) ≡ structures_message self
  structures_message-received self s =
      rw (items-received self.aliases, fun_ext (lookup-received self.headers))

  -- Where no frames follow the first, the socket stays as it is.
  pub received_one_frame :
      (id : ℕ) (self : Example z) (r : Receiver)
      → IsKnown id
      → (id == id_binary) ≡ false
      → (message (received_as id self r).object ≡ message_as id self)
        × ((received_as id self r).input ≡ r.input)
  unfolding received_as
  received_one_frame zero self r known h = absurd (omega arith)
  received_one_frame (suc zero) self r known h =
      (log_message-received self (record (r.object) { id = 1 }), refl)
  received_one_frame (suc (suc zero)) self r known h =
      (structures_message-received self (record (r.object) { id = 2 }), refl)
  received_one_frame (suc (suc (suc zero))) self r known h = cc
  received_one_frame (suc (suc (suc (suc zero)))) self r known h =
      (types_message-received self (record (r.object) { id = 4 }), refl)
  received_one_frame (suc (suc (suc (suc (suc n))))) self r known h = absurd (omega arith)

  pub received_as_lem :
      (id : ℕ) (self other : Example z) (input : z.ZSock)
      → IsKnown id
      → z.incoming input ≡ frames_as id self
      → (message (received_as id self (record { object = other; input = input })).object
          ≡ message_as id self)
        × (z.incoming (received_as id self (record { object = other; input = input })).input ≡ [])
  unfolding received_as
  received_as_lem zero self other input known e = absurd (omega arith)
  received_as_lem (suc zero) self other input known e =
      let (a, b) =
        received_one_frame 1 self (record { object = other; input = input }) known refl in
      (a, ap z.incoming b ∙ e)
  received_as_lem (suc (suc zero)) self other input known e =
      let (a, b) =
        received_one_frame 2 self (record { object = other; input = input }) known refl in
      (a, ap z.incoming b ∙ e)
  received_as_lem (suc (suc (suc zero))) self other input known e =
      let r : Receiver = record {
        object = binary_received self (record other { id = 3 });
        input = input;
      } in
      let (a, b) = frames_received_lem r _ _ e in
      (
        ap (λ n. message_as n (frames_received r).object) (id-frames_received r)
            ∙ (a
                ∙ rw
                    (z.chunk_data-new, z.uuid_data-new_from _ (length-uuid_bytes self.identifier))),
        b,
      )
  received_as_lem (suc (suc (suc (suc zero)))) self other input known e =
      let (a, b) =
        received_one_frame 4 self (record { object = other; input = input }) known refl in
      (a, ap z.incoming b ∙ e)
  received_as_lem (suc (suc (suc (suc (suc n))))) self other input known e = absurd (omega arith)

  pub more-further :
      (id : ℕ) (self : Example z) (input : z.ZSock)
      → z.incoming input ≡ frames_as id self
      → id ≡ id_binary
      → z.zsock_rcvmore input ≡ true
  more-further id self input e three =
      z.rcvmore-incoming input ∙ ap (λ l. not (is_empty l)) (e ∙ ap (λ n. frames_as n self) three)
