-- ===== src/Tests/Connected.antt =====
-- A connection of two sockets over a list of messages, and a run of it.
use zproto.Base.{◌≡◌, refl, true, false, some, List, [], ◌∷◌, ◌++◌, arith}
use zproto.CharArray.{Bytes}
use zproto.Get.{success}
use zproto.Example.View.{Message, message}
use zproto.Recv.{recv}
use zproto.Delivery.{frames_of}
use zproto.Network.{Network, Report, report}
use zproto.Base.{append-nil}
use zproto.Encode.Image.{image}
use zproto.Example.View.{further_frames}
use zproto.Network.Extra.{recv-recv}
use zproto.Tests.Containers.{bare, Socket, pop, pop_all}
use zproto.Tests.Objects.{message_with_id, message_with_id-IsObject, message_with_id-Fits}
use zproto.Tests.Delivered.{calls}

abbrev pub arrive_last : Socket → List Bytes → Socket
arrive_last (router, fs, w) frames = (router, fs, w ++ frames ∷ [])

abbrev pub wait_first : Socket → Socket
wait_first (router, [], []) = (router, [], [])
wait_first (router, [], m ∷ w) = (router, m, w)
wait_first (router, f ∷ fs, w) = (router, f ∷ fs, w)

pub next_first :
    (s : Socket) (frames : List Bytes) (rest : List (List Bytes))
    → s.1 ≡ []
    → s.2 ≡ frames ∷ rest
    → ((wait_first s).1 ≡ frames) × ((wait_first s).2 ≡ rest)
next_first (router, [], []) frames rest h k = cc
next_first (router, [], m ∷ w) frames rest h k = (cc, cc)
next_first (router, f ∷ fs, w) frames rest h k = cc

pub same_first : (s : Socket) (f : Bytes) (fs : List Bytes) → s.1 ≡ f ∷ fs → wait_first s ≡ s
same_first (router, [], []) f fs h = cc
same_first (router, [], m ∷ w) f fs h = cc
same_first (router, g ∷ gs, w) f fs h = refl

pub router_first : (s : Socket) → (wait_first s).0 ≡ s.0
router_first (router, [], []) = refl
router_first (router, [], m ∷ w) = refl
router_first (router, f ∷ fs, w) = refl

pub pop_kept : (s : Socket) → ((pop s).1.2 ≡ s.2) × ((pop s).1.0 ≡ s.0)
pop_kept (router, [], w) = (refl, refl)
pop_kept (router, f ∷ fs, w) = (refl, refl)

pub pop_all_kept : (s : Socket) → ((pop_all s).1.2 ≡ s.2) × ((pop_all s).1.0 ≡ s.0)
pop_all_kept (router, [], w) = (refl, refl)
pop_all_kept (router, f ∷ fs, w) = (refl, refl)

instance abbrev pub queued : Network bare
queued = record {
  waiting = λ s. s.2;
  arrive = arrive_last;
  wait = wait_first;
  waiting-arrive = λ s frames. refl;
  incoming-arrive = λ s frames. refl;
  router-arrive = λ s frames. refl;
  wait-next = next_first;
  wait-same = same_first;
  router-wait = router_first;
  waiting-frame_recv = λ s. (pop_kept s).0;
  waiting-msg_recv = λ s. (pop_all_kept s).0;
  waiting-zmq_recv = λ s. (pop_kept s).0;
  router-frame_recv = λ s. (pop_kept s).1;
  router-msg_recv = λ s. (pop_all_kept s).1;
  router-zmq_recv = λ s. (pop_kept s).1;
}

abbrev silent : Socket
silent = (true, [], [])

-- Two messages sent, one received.
abbrev two_sent : Socket
two_sent =
    arrive_last (arrive_last silent ((1 ∷ []) ∷ frames_of calls)) ((1 ∷ []) ∷ frames_of calls)

abbrev one_report : List Report
one_report = report (message_with_id 1) two_sent ∷ []

abbrev one_received : Socket
one_received = (recv (message_with_id 1) (wait_first two_sent)).1.input

abbrev both : List Message
both = message (message_with_id 3) ∷ message (message_with_id 3) ∷ []

-- The frames of a message of strings, and behind them those of a BINARY one.
abbrev joined : Socket
joined = (
  false,
  [],
  (image (message_with_id 4) ∷ image (message_with_id 3) ∷ further_frames (message_with_id 3)) ∷ [],
)

abbrev after_joined : Socket
after_joined = (recv (message_with_id 1) (wait_first joined)).1.input

recv-recv_example :
    (report (message_with_id 1) joined ≡ (some success, message (message_with_id 4)))
    × (queued.waiting after_joined ≡ [])
    × (report (message_with_id 2) after_joined ≡ (some success, message (message_with_id 3)))
recv-recv_example =
    recv-recv (message_with_id 4) (message_with_id 3) (message_with_id 1) (message_with_id 2) joined
      [] [] [] (message_with_id-IsObject 4 (omega arith)) (message_with_id-IsObject 3 (omega arith))
      (message_with_id-IsObject 1 (omega arith)) (message_with_id-IsObject 2 (omega arith))
      (message_with_id-Fits 4) (message_with_id-Fits 3) (omega arith) (omega arith) refl refl refl
      (rw (append-nil (image (message_with_id 4)), append-nil (image (message_with_id 3))) refl)
