-- ===== src/SelfTest/Rounds.antt =====
-- The four messages of zproto_example_test, each set and exchanged in the state that the one before
-- it has left.
use zproto.Base.{
  false, take, ◌≤◌, ◌≡◌, refl, sym, ap, ◌∙◌, Option, none, some, [], All, arith, replicate,
}
use mathlib.Core.Path.{subst}
use zproto.CharArray.{Bytes, c_string}
use zproto.CharArray.Laws.{IsByte}
use zproto.Czmq.{Czmq}
use zproto.Zconfig.{Zconfig, codes}
use zproto.Example.{Example, new}
use zproto.Example.View.{IsObject, Message, message, frame_bytes}
use zproto.Send.{count_content}
use zproto.ConfigFormat.Log.{log-new_zpl-zpl}
use zproto.ConfigFormat.Structures.{structures-new_zpl-zpl}
use zproto.ConfigFormat.Binary.{binary-new_zpl-zpl}
use zproto.ConfigFormat.Types.{types-new_zpl-zpl}
use zproto.Network.{Network}
use zproto.SelfTest.{Inspect, World, Test}
use zproto.SelfTest.Exchange.{exchange}
use zproto.SelfTest.Steps.{
  set_log, check_log, set_structures, check_structures, set_binary, check_binary, set_types,
  check_types,
}
use zproto.SelfTest.Log.{
  said_log, log_set, log_set-IsObject, log_set-image, log_set-message, set_log_lem,
}
use zproto.SelfTest.Structures.{
  said_structures, structures_set, structures_set-IsObject, structures_set-image,
  structures_set-message, set_structures_lem, three_aliases-items, one_header-items,
}
use zproto.SelfTest.Binary.{
  said_binary, binary_set, binary_set-IsObject, binary_set-image, binary_set-message,
  set_binary_lem, test-HoldsBytes, test_key, test_address, test_content, test_content-size,
}
use zproto.SelfTest.Types.{
  said_types, types_set, types_set-IsObject, types_set-image, types_set-message, set_types_lem,
}
use zproto.SelfTest.Sent.{Ready, Like}
use zproto.SelfTest.Exchanged.{Exchanges, exchange_lem, exchange-none}
use zproto.SelfTest.Binary.Check.{check_binary-none}
use zproto.Zpl.{zpl}
use zproto.ConfigFormat.{SaysAgain}
use zproto.Base.{same_bytes, lookup}
use zproto.SelfTest.Said.{
  said_log-Exchanges, said_structures-Exchanges, said_binary-Exchanges, said_types-Exchanges,
}

module _ ⦃z : Czmq⦄ ⦃c : Zconfig z⦄ ⦃i : Inspect z c⦄ ⦃n : Network z⦄ where
  -- What a message of the test does from one state between messages to the next.
  pub record Round (assign_array : Bytes → Bytes → Bytes) (rid : Bytes)
      (set check : Test (Unit {0})) (w : World) : Type 0 where
    pub begun : World
    pub ended : World
    pub set_run : set w ≡ some (tt, begun)
    pub exchange_run : exchange assign_array rid check begun ≡ some (tt, ended)
    pub ready : Ready ended.tree [] ended
    pub routed : All IsByte (frame_bytes ended.self.routing_id)

  module _ (assign_array : Bytes → Bytes → Bytes) (rid : Bytes) (bytes : All IsByte rid) where
    round :
        (sent : Example z) (said m : Message) (frame : Option z.ZFrame)
        (set check : Test (Unit {0})) (w : World) (self1 : Example z)
        → Exchanges sent said check
        → Ready w.tree [] w
        → set w ≡ some (tt, record w { self = self1 })
        → IsObject self1
        → count_content self1.content ≤ 1
        → Like sent self1
        → SaysAgain assign_array m frame (zpl self1 none w.tree)
        → m ≡ said
        → Round assign_array rid set check w
    round sent said m frame set check w self1 x r run o small like again same =
        let w1 : World = record w { self = self1 } in
        let r1 : Ready w.tree [] w1 = record {
          object = o;
          small = small;
          whole = r.whole;
          queue = r.queue;
          kind = r.kind;
          tree = refl;
        } in
        let (w2, run2, r2, routed) =
          exchange_lem assign_array rid sent said m frame check w.tree w1 x r1 like again same in
        record {
          begun = w1;
          ended = w2;
          set_run = run;
          exchange_run = run2;
          ready = r2;
          routed = subst (λ bs. All IsByte bs) (sym routed) bytes;
        }

    pub set_log-Round :
        (w : World)
        → Ready w.tree [] w
        → All IsByte (frame_bytes w.self.routing_id)
        → Round assign_array rid set_log check_log w
    set_log-Round w r b =
        let o = log_set-IsObject w.self r.object in
        round (log_set new) said_log _ w.self.routing_id set_log check_log w (log_set w.self)
          said_log-Exchanges r (set_log_lem w r.object) o r.small
          (record { image = log_set-image w.self new; further = refl })
          (log-new_zpl-zpl assign_array (log_set w.self) none w.tree _ o b refl refl)
          (log_set-message w.self)

    pub set_structures-Round :
        (w : World)
        → Ready w.tree [] w
        → All IsByte (frame_bytes w.self.routing_id)
        → Round assign_array rid set_structures check_structures w
    unfolding same_bytes lookup c_string
    set_structures-Round w r b =
        let o = structures_set-IsObject w.self r.object in
        round (structures_set new) said_structures _ w.self.routing_id set_structures
          check_structures w (structures_set w.self) said_structures-Exchanges r
          (set_structures_lem w) o r.small
          (record { image = structures_set-image w.self new; further = refl })
          (structures-new_zpl-zpl assign_array (structures_set w.self) none w.tree o b refl
            (rw three_aliases-items (omega arith)) (rw one_header-items refl))
          (structures_set-message w.self)

    pub set_binary-Round :
        (w : World)
        → assign_array (replicate 4 0) (codes "b38c") ≡ codes "b38c"
        → Ready w.tree [] w
        → All IsByte (frame_bytes w.self.routing_id)
        → Round assign_array rid set_binary check_binary w
    unfolding count_content
    set_binary-Round w flags r b =
        let o = binary_set-IsObject w.self r.object in
        round (binary_set new) said_binary _ w.self.routing_id set_binary check_binary w
          (binary_set w.self) said_binary-Exchanges r (set_binary_lem w r.object) o
          (omega (arith, test_content-size))
          (record { image = binary_set-image w.self new; further = refl })
          (binary-new_zpl-zpl assign_array (binary_set w.self) none w.tree test_key test_address
            test_content o b test-HoldsBytes refl refl refl refl)
          (ap (λ cells. message (record (binary_set w.self) { flags = cells })) flags
            ∙ binary_set-message w.self)

    -- Where the assignment to the array leaves other bytes.
    pub set_binary-none :
        (w : World)
        → same_bytes (take 4 (assign_array (replicate 4 0) (codes "b38c"))) (codes "b38c") ≡ false
        → Ready w.tree [] w
        → All IsByte (frame_bytes w.self.routing_id)
        → exchange assign_array rid check_binary (record w { self = binary_set w.self }) ≡ none
    unfolding count_content
    set_binary-none w other r b =
        let o = binary_set-IsObject w.self r.object in
        let r1 : Ready w.tree [] (record w { self = binary_set w.self }) = record {
          object = o;
          small = omega (arith, test_content-size);
          whole = r.whole;
          queue = r.queue;
          kind = r.kind;
          tree = r.tree;
        } in
        exchange-none assign_array rid (binary_set new) said_binary _ w.self.routing_id check_binary
          w.tree (record w { self = binary_set w.self }) said_binary-Exchanges r1
          (record { image = binary_set-image w.self new; further = refl })
          (binary-new_zpl-zpl assign_array (binary_set w.self) none w.tree test_key test_address
            test_content o b test-HoldsBytes refl refl refl refl)
          (λ w' says. check_binary-none w' _ _ _ _ _ says other)

    pub set_types-Round :
        (w : World)
        → Ready w.tree [] w
        → All IsByte (frame_bytes w.self.routing_id)
        → Round assign_array rid set_types check_types w
    set_types-Round w r b =
        let o = types_set-IsObject w.self r.object in
        round (types_set new) said_types _ w.self.routing_id set_types check_types w
          (types_set w.self) said_types-Exchanges r (set_types_lem w r.object) o r.small
          (record { image = types_set-image w.self new; further = refl })
          (types-new_zpl-zpl assign_array (types_set w.self) none w.tree o b refl)
          (types_set-message w.self)
