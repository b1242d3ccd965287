-- ===== src/SelfTest/Sent.antt =====
-- The two calls of zproto_example_send in zproto_example_test.
use zproto.Base.{
  ◌≤◌, ◌+◌, ◌<◌, ◌^◌, ◌≡◌, refl, ap, ◌∙◌, true, false, some, List, [], ◌∷◌, ◌++◌, arith,
}
use zproto.CharArray.{Bytes}
use zproto.Czmq.{Czmq}
use zproto.Zconfig.{Zconfig}
use zproto.Example.{Example}
use zproto.Example.View.{IsObject, further_frames}
use zproto.Encode.{frame_size}
use zproto.Encode.Image.{image}
use zproto.Encode.Exact.{image-frame_size, further-frame_size, content-frame_size}
use zproto.Send.{count_content}
use zproto.Send.Parts.{send_lem}
use zproto.Delivery.{frames_of, frames_of-send}
use zproto.Lifetime.Safe.{frame_size-IsObject}
use zproto.Network.{Network}
use zproto.SelfTest.{World}
use zproto.SelfTest.Exchange.{send_once, sent_by}

module _ ⦃z : Czmq⦄ ⦃c : Zconfig z⦄ ⦃n : Network z⦄ where
  -- Between two statements of an exchange: the object is well formed, with a content of at most one
  -- frame; nothing is half read, and `rest` waits.
  pub record Ready (t : c.Tree) (rest : List (List Bytes)) (w : World) : Type 0 where
    pub object : IsObject w.self
    pub small : count_content w.self.content ≤ 1
    pub whole : z.incoming w.input ≡ []
    pub queue : n.waiting w.input ≡ rest
    pub kind : z.is_router w.input ≡ true
    pub tree : w.tree ≡ t

  -- The frames of a message like that of `sent`, as they arrive.
  pub record IsSent (rid : Bytes) (sent : Example z) (frames : List Bytes) : Type 0 where
    pub tail : Bytes
    pub bytes : frames ≡ rid ∷ (image sent ++ tail) ∷ further_frames sent

  -- The object would send what `sent` would.
  pub record Like (sent self : Example z) : Type 0 where
    pub image : image self ≡ image sent
    pub further : further_frames self ≡ further_frames sent

  pub send_once_lem :
      (rid : Bytes) (sent : Example z) (t : c.Tree) (rest : List (List Bytes)) (w : World)
      → Ready t rest w
      → Like sent w.self
      → (w' : World) × (frames : List Bytes) × (send_once rid w ≡ some (tt, w'))
        × Ready t (rest ++ frames ∷ []) w'
        × Like sent w'.self
        × IsSent rid sent frames
  unfolding send_once sent_by
  send_once_lem rid sent t rest w r like =
      let few : count_content w.self.content + 2 < 2 ^ 64 = omega (arith, r.small) in
      let (_, calls, done, _, _) = send_lem w.self false r.object.flags few in
      let (tail, e) = frames_of-send w.self calls _ r.object few done in
      let frames = rid ∷ frames_of calls in
      (
        record w { self = (frame_size w.self).1; input = n.arrive w.input frames },
        frames,
        rw (done, r.kind) refl,
        record {
          object = frame_size-IsObject w.self r.object;
          small = rw content-frame_size r.small;
          whole = n.incoming-arrive w.input frames ∙ r.whole;
          queue = n.waiting-arrive w.input frames ∙ ap (λ l. l ++ frames ∷ []) r.queue;
          kind = n.router-arrive w.input frames ∙ r.kind;
          tree = r.tree;
        },
        record {
          image = image-frame_size w.self ∙ like.image;
          further = further-frame_size w.self ∙ like.further;
        },
        record {
          tail = tail;
          bytes =
              ap (λ l. rid ∷ l)
                (e
                  ∙ ap (λ i. (i ++ tail) ∷ further_frames w.self) like.image
                  ∙ ap (λ l. (image sent ++ tail) ∷ l) like.further);
        },
      )
