-- ===== src/SelfTest/Exchange.antt =====
-- The part of zproto_example_test (src/zproto_example.c) that is the same for each message: the
-- message is turned into configuration items and sent twice, and then read back three times.
use zproto.Base.{Option, none, some, false}
use zproto.CharArray.{Bytes}
use zproto.Get.{Rc}
use zproto.Czmq.{Czmq}
use zproto.Zconfig.{Zconfig}
use zproto.Example.{Example}
use zproto.Access.Owned.{routing_id}
use zproto.Send.{Calls, send}
use zproto.Recv.{Receiver, is_some, recv}
use zproto.Zpl.{Wrote, wrote, asserted, past_block, zpl}
use zproto.NewZpl.{Created, created, null, aborted, undefined, new_zpl}
use zproto.Delivery.{frames_of}
use zproto.Network.{Network, delivered}
use zproto.SelfTest.{World, Test, ◌>>=◌, ◌>>◌, get_self, assert}

module _ ⦃z : Czmq⦄ ⦃c : Zconfig z⦄ ⦃n : Network z⦄ where
  -- zproto_example_zpl (self, NULL)
  unfoldable pub exported : World → Wrote (c.Item × c.Tree) → Option (c.Item × World)
  exported w asserted = none
  exported w past_block = none
  exported w (wrote (config, t)) = some (config, record w { tree = t })

  unfoldable pub export : Test c.Item
  unfolding exported
  export w = exported w (zpl w.self none w.tree)

  unfoldable pub sent_by : Bytes → World → Option (Calls × Example z) → Option (Unit {0} × World)
  sent_by rid w none = none
  sent_by rid w (some (calls, self')) = some (
    tt,
    record w {
      self = self';
      input = n.arrive w.input (delivered (z.is_router w.input) rid (frames_of calls));
    },
  )

  -- zproto_example_send (self, output): the message goes to `input`, which knows `output` by `rid`.
  unfoldable pub send_once : Bytes → Test (Unit {0})
  unfolding sent_by
  send_once rid w = sent_by rid w (send w.self false)

  unfoldable pub received_by : World → Option Rc × Receiver → Option (Unit {0} × World)
  received_by w (none, r) = none
  received_by w (some rc, r) = some (tt, record w { self = r.object; input = r.input })

  -- zproto_example_recv (self, input); the test does not look at what it returns.
  unfoldable pub recv_once : Test (Unit {0})
  unfolding received_by
  recv_once w = received_by w (recv w.self (n.wait w.input))

  -- The first two instances of the loop.
  unfoldable pub recv_and_check : Test (Unit {0}) → Test (Unit {0})
  recv_and_check check = do recv_once; self ← get_self; assert (is_some (routing_id self)); check

  -- self = self_temp
  unfoldable pub restored : Example z → Option (Unit {0} × World) → Option (Unit {0} × World)
  restored self_temp none = none
  restored self_temp (some (u, w)) = some (u, record w { self = self_temp })

  unfoldable pub imported :
      Test (Unit {0}) → World → Created (Example z) → Option (Unit {0} × World)
  imported check w (created s) = restored w.self (check (record w { self = s }))
  imported check w null = none
  imported check w aborted = none
  imported check w undefined = none

  -- The third: the object that zproto_example_new_zpl makes is checked and destroyed.
  unfoldable pub import_and_check :
      (Bytes → Bytes → Bytes) → Test (Unit {0}) → c.Item → Test (Unit {0})
  unfolding imported restored
  import_and_check assign_array check config w =
      imported check w (new_zpl assign_array w.tree config)

  unfoldable pub exchange : (Bytes → Bytes → Bytes) → Bytes → Test (Unit {0}) → Test (Unit {0})
  exchange assign_array rid check = do
    config ← export
    send_once rid
    send_once rid
    recv_and_check check
    recv_and_check check
    import_and_check assign_array check config
