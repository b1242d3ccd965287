-- ===== src/SelfTest/Exchanged.antt =====
-- An exchange of zproto_example_test, up to the object that it imports and to its end.
use zproto.Base.{◌≤◌, ◌≡◌, refl, sym, ap, ◌∙◌, true, false, Option, none, some, List, [], ◌∷◌, ◌==◌}
use mathlib.Core.Path.{subst}
use zproto.CharArray.{Bytes}
use zproto.Get.{Rc, success}
use zproto.Czmq.{Czmq}
use zproto.Zconfig.{Zconfig}
use zproto.Example.{Example, id_binary}
use zproto.Example.View.{IsObject, Fits, Message, message, frame_bytes}
use zproto.Access.Owned.{routing_id}
use zproto.Send.{count_content}
use zproto.Recv.{Receiver, recv}
use zproto.Recv.RoundTrip.{IsKnown}
use zproto.Recv.Arrived.{is_some-map}
use zproto.Recv.Binary.{frame_bytes-map}
use zproto.Zpl.{Wrote, wrote, asserted, past_block, zpl}
use zproto.NewZpl.{Created, created, null, aborted, undefined, new_zpl}
use zproto.ConfigFormat.{Says, SaysAgain}
use zproto.Network.{Network}
use zproto.Network.Carried.{Carries, recv-Carries, recv-Carries_object}
use zproto.SelfTest.{World, Test}
use zproto.SelfTest.Exchange.{
  export, exported, recv_once, received_by, recv_and_check, import_and_check, imported, restored,
  exchange, send_once,
}
use zproto.SelfTest.Sent.{Ready, IsSent, Like, send_once_lem}

module _ ⦃z : Czmq⦄ ⦃c : Zconfig z⦄ where
  Says-created :
      (m : Message) (frame : Option z.ZFrame) (o : Created (Example z))
      → Says m frame o
      → (s : Example z) × (o ≡ created s) × (message s ≡ m)
  Says-created m frame (created s) h = (s, refl, h.0)
  Says-created m frame null h = absurd h
  Says-created m frame aborted h = absurd h
  Says-created m frame undefined h = absurd h

  SaysAgain-wrote :
      (assign_array : Bytes → Bytes → Bytes) (m : Message) (frame : Option z.ZFrame)
      (o : Wrote (c.Item × c.Tree))
      → SaysAgain assign_array m frame o
      → (config : c.Item) × (t : c.Tree) × (s : Example z) × (o ≡ wrote (config, t))
        × (new_zpl assign_array t config ≡ created s)
        × (message s ≡ m)
  SaysAgain-wrote assign_array m frame asserted h = absurd h
  SaysAgain-wrote assign_array m frame past_block h = absurd h
  SaysAgain-wrote assign_array m frame (wrote (config, t)) h =
      let (s, e, says) = Says-created m frame _ h in (config, t, s, refl, e, says)

module _ ⦃z : Czmq⦄ ⦃c : Zconfig z⦄ ⦃n : Network z⦄ where
  received_by_lem :
      (w : World) (p : Option Rc × Receiver)
      → p.0 ≡ some success
      → received_by w p ≡ some (tt, record w { self = p.1.object; input = p.1.input })
  unfolding received_by
  received_by_lem w (none, r) e = cc
  received_by_lem w (some rc, r) e = refl

  -- The assertions hold of the object of `w`, and what they leave of it.
  pub record Checked (sent : Example z) (check : Test (Unit {0})) (w : World) : Type 0 where
    pub after : Example z
    pub run : check w ≡ some (tt, record w { self = after })
    pub object : IsObject w.self → IsObject after
    pub routed : after.routing_id ≡ w.self.routing_id
    pub small :
        ((sent.id == id_binary) ≡ false → count_content w.self.content ≤ 1)
        → count_content after.content ≤ 1

  -- A message of the self test, and that its assertions hold of every object that says the message.
  pub record Exchanges (sent : Example z) (said : Message) (check : Test (Unit {0})) : Type 0 where
    pub object : IsObject sent
    pub fits : Fits sent
    pub known : IsKnown sent.id
    pub says : message sent ≡ said
    pub checks : (w : World) → message w.self ≡ said → Checked sent check w

  recv_and_check_lem :
      (rid : Bytes) (sent : Example z) (said : Message) (check : Test (Unit {0})) (t : c.Tree)
      (frames : List Bytes) (rest : List (List Bytes)) (w : World)
      → Exchanges sent said check
      → IsSent rid sent frames
      → Ready t (frames ∷ rest) w
      → (w' : World) × (recv_and_check check w ≡ some (tt, w'))
        × Ready t rest w'
        × (frame_bytes w'.self.routing_id ≡ rid)
  unfolding recv_and_check recv_once routing_id
  recv_and_check_lem rid sent said check t frames rest w x s r =
      let carried : Carries true frames said = record {
        self = sent;
        rid = rid;
        tail = s.tail;
        object = x.object;
        fits = x.fits;
        known = x.known;
        bytes = s.bytes;
        says = x.says;
      } in
      let (i, w1) = n.wait-next w.input frames rest r.whole r.queue in
      let kind = n.router-wait w.input ∙ r.kind in
      let input = n.wait w.input in
      let (a, b, l, (q, k)) = recv-Carries true w.self input frames said carried r.object kind i in
      let (o, id, content) = recv-Carries_object w.self input frames said carried r.object kind i in
      let got = (recv w.self input).1 in
      let w2 : World = record w { self = got.object; input = got.input } in
      let ck = x.checks w2 b in
      (
        record w2 { self = ck.after },
        rw (received_by_lem w (recv w.self input) a, is_some-map _ _ id) ck.run,
        record {
          object = ck.object o;
          small = ck.small (λ h. subst (λ m. count_content m ≤ 1) (sym (content h)) r.small);
          whole = l;
          queue = q ∙ w1;
          kind = k ∙ kind;
          tree = r.tree;
        },
        ap frame_bytes ck.routed ∙ frame_bytes-map _ _ id,
      )

  export_lem :
      (w : World) (config : c.Item) (t : c.Tree)
      → zpl w.self none w.tree ≡ wrote (config, t)
      → export w ≡ some (config, record w { tree = t })
  unfolding export exported
  export_lem w config t e = rw e refl

  import_and_check_lem :
      (assign_array : Bytes → Bytes → Bytes) (check : Test (Unit {0})) (config : c.Item) (w : World)
      (s after : Example z)
      → new_zpl assign_array w.tree config ≡ created s
      → check (record w { self = s }) ≡ some (tt, record w { self = after })
      → import_and_check assign_array check config w ≡ some (tt, w)
  unfolding import_and_check imported restored
  import_and_check_lem assign_array check config w s after e k = rw (e, k) refl

  import_and_check-none :
      (assign_array : Bytes → Bytes → Bytes) (check : Test (Unit {0})) (config : c.Item) (w : World)
      (s : Example z)
      → new_zpl assign_array w.tree config ≡ created s
      → check (record w { self = s }) ≡ none
      → import_and_check assign_array check config w ≡ none
  unfolding import_and_check imported restored
  import_and_check-none assign_array check config w s e k = rw (e, k) refl

  exchange_steps :
      (assign_array : Bytes → Bytes → Bytes) (rid : Bytes) (check : Test (Unit {0}))
      (config : c.Item) (w w0 w1 w2 w3 w4 : World)
      → export w ≡ some (config, w0)
      → send_once rid w0 ≡ some (tt, w1)
      → send_once rid w1 ≡ some (tt, w2)
      → recv_and_check check w2 ≡ some (tt, w3)
      → recv_and_check check w3 ≡ some (tt, w4)
      → exchange assign_array rid check w ≡ import_and_check assign_array check config w4
  unfolding exchange
  exchange_steps assign_array rid check config w w0 w1 w2 w3 w4 e0 e1 e2 e3 e4 =
      rw (e0, e1, e2, e3, e4) refl

  -- An exchange in which both receptions have passed: what is left is to check the object `s` that
  -- zproto_example_new_zpl makes, which says `m`.
  record Imports (assign_array : Bytes → Bytes → Bytes) (rid : Bytes) (m : Message)
      (check : Test (Unit {0})) (w : World) : Type 0 where
    config : c.Item
    before : World
    made : Example z
    run : exchange assign_array rid check w ≡ import_and_check assign_array check config before
    back : new_zpl assign_array before.tree config ≡ created made
    says : message made ≡ m
    ready : Ready before.tree [] before
    routed : frame_bytes before.self.routing_id ≡ rid

  exchange-Imports :
      (assign_array : Bytes → Bytes → Bytes) (rid : Bytes) (sent : Example z) (said m : Message)
      (frame : Option z.ZFrame) (check : Test (Unit {0})) (t : c.Tree) (w : World)
      → Exchanges sent said check
      → Ready t [] w
      → Like sent w.self
      → SaysAgain assign_array m frame (zpl w.self none w.tree)
      → Imports assign_array rid m check w
  exchange-Imports assign_array rid sent said m frame check t w x r like again =
      let (config, t', s, done, back, says) = SaysAgain-wrote assign_array m frame _ again in
      let w0 : World = record w { tree = t' } in
      let r0 : Ready t' [] w0 = record {
        object = r.object;
        small = r.small;
        whole = r.whole;
        queue = r.queue;
        kind = r.kind;
        tree = refl;
      } in
      let (w1, d1, e1, r1, like1, s1) = send_once_lem rid sent t' [] w0 r0 like in
      let (w2, d2, e2, r2, like2, s2) = send_once_lem rid sent t' (d1 ∷ []) w1 r1 like1 in
      let (w3, e3, r3, _) = recv_and_check_lem rid sent said check t' d1 (d2 ∷ []) w2 x s1 r2 in
      let (w4, e4, r4, routed) = recv_and_check_lem rid sent said check t' d2 [] w3 x s2 r3 in
      record {
        config = config;
        before = w4;
        made = s;
        run =
            exchange_steps assign_array rid check config w w0 w1 w2 w3 w4
              (export_lem w config t' done) e1 e2 e3 e4;
        back = ap (λ t. new_zpl assign_array t config) r4.tree ∙ back;
        says = says;
        ready = record {
          object = r4.object;
          small = r4.small;
          whole = r4.whole;
          queue = r4.queue;
          kind = r4.kind;
          tree = refl;
        };
        routed = routed;
      }

  -- Of an object that would send the message, and of which zproto_example_zpl makes items that say
  -- it again: the exchange comes to its end, and nothing is left waiting.
  pub exchange_lem :
      (assign_array : Bytes → Bytes → Bytes) (rid : Bytes) (sent : Example z) (said m : Message)
      (frame : Option z.ZFrame) (check : Test (Unit {0})) (t : c.Tree) (w : World)
      → Exchanges sent said check
      → Ready t [] w
      → Like sent w.self
      → SaysAgain assign_array m frame (zpl w.self none w.tree)
      → m ≡ said
      → (w' : World) × (exchange assign_array rid check w ≡ some (tt, w'))
        × Ready w'.tree [] w'
        × (frame_bytes w'.self.routing_id ≡ rid)
  exchange_lem assign_array rid sent said m frame check t w x r like again same =
      let p = exchange-Imports assign_array rid sent said m frame check t w x r like again in
      let ck = x.checks (record p.before { self = p.made }) (p.says ∙ same) in
      let last = import_and_check_lem assign_array check p.config p.before p.made ck.after in
      (p.before, p.run ∙ last p.back ck.run, p.ready, p.routed)

  -- Where the imported object says another message, on which the assertions fail: it stops there.
  pub exchange-none :
      (assign_array : Bytes → Bytes → Bytes) (rid : Bytes) (sent : Example z) (said m : Message)
      (frame : Option z.ZFrame) (check : Test (Unit {0})) (t : c.Tree) (w : World)
      → Exchanges sent said check
      → Ready t [] w
      → Like sent w.self
      → SaysAgain assign_array m frame (zpl w.self none w.tree)
      → ((w' : World) → message w'.self ≡ m → check w' ≡ none)
      → exchange assign_array rid check w ≡ none
  exchange-none assign_array rid sent said m frame check t w x r like again fails =
      let p = exchange-Imports assign_array rid sent said m frame check t w x r like again in
      p.run
      ∙ import_and_check-none assign_array check p.config p.before p.made p.back
          (fails (record p.before { self = p.made }) p.says)
