-- ===== src/Network/Extra.antt =====
-- A ZeroMQ message in which two messages of the protocol stand one behind the other.
use zproto.Base.{◌≡◌, ap, ◌∙◌, false, some, List, [], ◌∷◌, ◌++◌, ◌==◌}
use zproto.CharArray.{Bytes}
use zproto.Czmq.{Czmq}
use zproto.Get.{success}
use zproto.Example.{Example, id_binary}
use zproto.Example.View.{IsObject, Fits, message, further_frames}
use zproto.Encode.Image.{image}
use zproto.Recv.{recv}
use zproto.Recv.RoundTrip.{IsKnown}
use zproto.Recv.Arrived.{recv-send_dealer}
use zproto.Recv.Extra.{recv-extra}
use zproto.Network.{Network, report}

module _ ⦃z : Czmq⦄ ⦃n : Network z⦄ where
  report_lem :
      (other : Example z) (s : z.ZSock) (first : Example z)
      → (recv other (n.wait s)).0 ≡ some success
      → message (recv other (n.wait s)).1.object ≡ message first
      → report other s ≡ (some success, message first)
  report_lem other s first a b =
      ap (λ c. (c, message (recv other (n.wait s)).1.object)) a ∙ ap (λ m. (some success, m)) b

  after_first :
      (second other : Example z) (s : z.ZSock) (tail : Bytes)
      → IsObject second
      → IsObject other
      → Fits second
      → IsKnown second.id
      → z.is_router s ≡ false
      → z.incoming s ≡ (image second ++ tail) ∷ further_frames second
      → report other s ≡ (some success, message second)
  after_first second other s tail v o f k d e =
      let (a, b, _) = recv-send_dealer second other s tail v o f k d e in
      report_lem other s second (ap (λ i. (recv other i).0) (n.wait-same s _ _ e) ∙ a)
        (ap (λ i. message (recv other i).1.object) (n.wait-same s _ _ e) ∙ b)

  -- One ZeroMQ message may pass for two. On a socket that is no ROUTER, let a message wait whose
  -- first frame is that of an object `first` which is no BINARY message, and whose other frames are
  -- those of an object `second`; both objects are well formed, have known ids and fit their length
  -- fields. Then recv returns 0 and hands out the first message, and the next call of recv, which
  -- waits for nothing, returns 0 and hands out the second: no call has refused the message.
  pub recv-recv :
      (first second other other' : Example z) (s : z.ZSock) (tail tail' : Bytes)
      (rest : List (List Bytes))
      → IsObject first
      → IsObject second
      → IsObject other
      → IsObject other'
      → Fits first
      → Fits second
      → IsKnown first.id
      → IsKnown second.id
      → (first.id == id_binary) ≡ false
      → z.is_router s ≡ false
      → z.incoming s ≡ []
      → n.waiting s
        ≡ ((image first ++ tail) ∷ (image second ++ tail') ∷ further_frames second) ∷ rest
      → (report other s ≡ (some success, message first))
        × (n.waiting (recv other (n.wait s)).1.input ≡ rest)
        × (report other' (recv other (n.wait s)).1.input ≡ (some success, message second))
  recv-recv first second other other' s tail tail' rest v v' o o' f f' k k' flat d whole w =
      let (i, w') = n.wait-next s _ rest whole w in
      let d' = n.router-wait s ∙ d in
      let (a, b, c, l) = recv-extra first other (n.wait s) tail _ v o f k flat d' i in
      let kind = ap z.is_router c ∙ n.router-zmq_recv (n.wait s) ∙ d' in
      (
        report_lem other s first a b,
        ap n.waiting c ∙ n.waiting-zmq_recv (n.wait s) ∙ w',
        after_first second other' (recv other (n.wait s)).1.input tail' v' o' f' k' kind l,
      )
