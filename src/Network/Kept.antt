-- ===== src/Network/Kept.antt =====
-- What zproto_example_recv leaves of a socket behind the message that it reads.
use zproto.Base.{Bool, true, false, ◌≡◌, refl, ◌∙◌}
use zproto.Czmq.{Czmq}
use zproto.Example.{Example, switch_all}
use zproto.Recv.{Receiver}
use zproto.Recv.Binary.{content_from, frames_received}
use zproto.Recv.RoundTrip.{received, received_as}
use zproto.Network.{Network}

module _ ⦃z : Czmq⦄ ⦃n : Network z⦄ where
  abbrev pub Kept : z.ZSock → z.ZSock → Type 0
  Kept s t = (n.waiting t ≡ n.waiting s) × (z.is_router t ≡ z.is_router s)

  pub Kept-trans : {s t u : z.ZSock} → Kept s t → Kept t u → Kept s u
  Kept-trans (a, b) (a', b') = (a' ∙ a, b' ∙ b)

  pub frame_recv-Kept : (s : z.ZSock) → Kept s (z.zframe_recv s).1
  frame_recv-Kept s = (n.waiting-frame_recv s, n.router-frame_recv s)

  pub zmq_recv-Kept : (s : z.ZSock) → Kept s (z.zmq_msg_recv s).1
  zmq_recv-Kept s = (n.waiting-zmq_recv s, n.router-zmq_recv s)

  content_from-Kept : (following : Bool) (s : z.ZSock) → Kept s (content_from following s).1
  unfolding content_from
  content_from-Kept true s = (n.waiting-msg_recv s, n.router-msg_recv s)
  content_from-Kept false s = (refl, refl)

  frames_received-Kept : (r : Receiver) → Kept r.input (frames_received r).input
  unfolding frames_received
  frames_received-Kept r =
      Kept-trans {t = (z.zframe_recv r.input).1} (frame_recv-Kept r.input)
        (content_from-Kept (z.zsock_rcvmore (z.zframe_recv r.input).1) _)

  pub received-Kept : (self : Example z) (r : Receiver) → Kept r.input (received self r).input
  unfolding received received_as
  received-Kept self r =
      switch_all (λ (r' : Receiver). Kept r.input r'.input) self.id _ _ _ _ _ (refl, refl)
        (refl, refl) (frames_received-Kept _) (refl, refl) (refl, refl)
