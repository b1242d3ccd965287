-- ===== src/Recv/Costs/Frame.antt =====
-- The other messages, and the first frame as a whole.
use zproto.Base.{ℕ, refl, Bool, true, false, arith}
use zproto.CharArray.Laws.{length-c_string}
use zproto.Get.{bad, gets}
use zproto.Get.Costs.{
  Costs, Costs-bind, Costs-leave, Costs-modify, Costs-number1, Costs-number2, Costs-number4,
  Costs-number8, Costs-octets, Costs-block, Costs-longstr,
}
use zproto.Czmq.{Czmq}
use zproto.Example.{switch_all}
use zproto.Recv.{
  recv_log, recv_types, receive, more, recv_content, recv_frames, recv_binary, recv_body,
  recv_frame,
}
use zproto.Recv.Costs.{weight, CheapBlock, Cheap-store, Cheap-field, Cheap-check_then}
use zproto.Recv.Costs.Lists.{Cheap-structures}

module _ ⦃z : Czmq⦄ where
  Cheap-log : CheapBlock recv_log
  unfolding recv_log
  Cheap-log =
      Cheap-store _ _ Costs-number2 (λ n s. refl)
        λ _. Costs-bind Costs-number2 λ version. Cheap-check_then _ _ _ (
          Cheap-store _ _ Costs-number1 (λ n s. refl)
            λ _.
              Cheap-store _ _ Costs-number1 (λ n s. refl)
                λ _.
                  Cheap-store _ _ Costs-number2 (λ n s. refl)
                    λ _.
                      Cheap-store _ _ Costs-number2 (λ n s. refl)
                        λ _.
                          Cheap-store _ _ Costs-number8 (λ n s. refl)
                            λ _. Costs-bind (Cheap-field _ _ (λ s cells. refl)) λ _.
                              Costs-bind Costs-longstr
                                λ text. Costs-modify _ (λ r. omega (arith, length-c_string text)))

  Cheap-types : CheapBlock recv_types
  unfolding recv_types
  Cheap-types =
      Cheap-store _ _ Costs-number2 (λ n s. refl)
        λ _. Costs-bind (Cheap-field _ _ (λ s cells. refl)) λ _.
          Costs-bind (Cheap-field _ _ (λ s cells. refl)) λ _.
            Costs-bind (Cheap-field _ _ (λ s cells. refl)) λ _.
              Costs-bind (Cheap-field _ _ (λ s cells. refl)) λ _.
                Costs-bind (Cheap-field _ _ (λ s cells. refl)) λ _.
                  Costs-bind (Cheap-field _ _ (λ s cells. refl)) λ _.
                    Costs-bind (Cheap-field _ _ (λ s cells. refl))
                      λ _. Cheap-field _ _ (λ s cells. refl)

  Cheap-receive :
      {A : Type 0} (call : z.ZSock → A × z.ZSock) → Costs weight 0 (receive call) (λ _. 0)
  unfolding receive
  Cheap-receive call = record { run = λ r bs k h. h }

  Cheap-more : Costs weight 0 more (λ _. 0)
  unfolding more gets
  Cheap-more = record { run = λ r bs k h. h }

  Cheap-content : (following : Bool) → CheapBlock (recv_content following)
  unfolding recv_content
  Cheap-content true = Costs-bind (Cheap-receive _) λ m. Costs-modify _ (λ r. omega arith)
  Cheap-content false = Costs-modify _ (λ r. omega arith)

  Cheap-frames : CheapBlock recv_frames
  unfolding recv_frames
  Cheap-frames = Costs-bind Cheap-more λ following. Cheap-check_then _ _ _ (
      Cheap-store _ _ (Cheap-receive _) (λ frame s. refl)
        λ frame. Costs-bind Cheap-more Cheap-content)

  Cheap-binary : CheapBlock recv_binary
  unfolding recv_binary
  Cheap-binary =
      Cheap-store _ _ Costs-number2 (λ n s. refl)
        λ _.
          Cheap-store _ _ (Costs-octets 4) (λ flags s. refl)
            λ _. Costs-bind Costs-number4 λ chunk_size.
              Costs-bind (Costs-block chunk_size _) λ bytes.
                Costs-bind (Costs-modify _ (λ r. rw z.chunk_data-new (omega arith)))
                  λ _. Cheap-store _ _ (Costs-block 16 _) (λ bytes s. refl) λ _. Cheap-frames

  Cheap-body : (id : ℕ) → CheapBlock (recv_body id)
  unfolding recv_body
  Cheap-body id =
      switch_all (λ g. CheapBlock g) id _ _ _ _ _ Cheap-log Cheap-structures Cheap-binary
        Cheap-types (Costs-leave bad)

  pub Cheap-frame : CheapBlock recv_frame
  unfolding recv_frame
  Cheap-frame = Costs-bind Costs-number2 λ signature.
      Cheap-check_then _ _ _ (Cheap-store _ _ Costs-number1 (λ id s. refl) λ id. Cheap-body id)
