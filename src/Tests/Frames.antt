-- ===== src/Tests/Frames.antt =====
-- zproto_example_recv on frames that no zproto_example_send has sent.
use zproto.Base.{◌≡◌, false, ◌<◌, some, inr, take, length}
use zproto.CharArray.{c_string}
use zproto.Put.Writes.{big_endian, short_string, long_string}
use zproto.Get.{success, bad}
use zproto.Encode.Image.{image, log_image, binary_image}
use zproto.Recv.CutBinary.{recv-truncated_binary}
use zproto.Recv.Cut.{recv-truncated}
use zproto.Recv.Refused.{with_id, recv-refused}
use zproto.Base.{◌≢◌, refl, true, none, [], ◌∷◌, arith}
use zproto.Example.View.{IsObject}
use zproto.Recv.{recv}
use zproto.Recv.AnyFrames.{recv_lem}
use zproto.Base.{◌≤◌, ◌+◌}
use zproto.Example.{new}
use zproto.NewZpl.AnyTree.{new-IsObject}
use zproto.Tests.Trees.{trees}
use zproto.Recv.Costs.{kept}
use zproto.Recv.Bounded.{recv-kept}
use zproto.Base.{append-nil}
use zproto.Recv.TooFew.{first_frame_of, recv-missing_frames}
use zproto.Tests.Containers.{bare, Socket}
use zproto.Tests.Objects.{message_with_id-Fits, message_with_id, message_with_id-IsObject}

-- On a ROUTER: a STRUCTURES message that promises 255 aliases and ends in the first one.
abbrev broken : Socket
broken =
    (true, (7 ∷ []) ∷ (170 ∷ 160 ∷ 2 ∷ 0 ∷ 1 ∷ 0 ∷ 0 ∷ 0 ∷ 255 ∷ 0 ∷ 0 ∷ 0 ∷ 9 ∷ 65 ∷ []) ∷ [], [])

recv_lem_example :
    ((recv (message_with_id 1) broken).0 ≢ none)
    × IsObject (recv (message_with_id 1) broken).1.object
recv_lem_example =
    recv_lem (message_with_id 1) broken _ _ (message_with_id-IsObject 1 (omega arith)) (omega arith)
      refl

-- A LOG message of which only the signature, the id and half of the sequence have come.
abbrev short : Socket
short = (false, take 4 (image (message_with_id 1)) ∷ [], [])

enough : 4 < length (image (message_with_id 1))
unfolding image log_image big_endian short_string long_string c_string
enough = omega arith

recv-truncated_example : (recv (message_with_id 4) short).0 ≡ some success
recv-truncated_example =
    recv-truncated (message_with_id 1) (message_with_id 4) short 4 []
      (message_with_id-IsObject 1 (omega arith)) (message_with_id-IsObject 4 (omega arith))
      (message_with_id-Fits 1) (omega arith) (omega arith) refl enough refl

-- A frame with the message id 9.
abbrev foreign : Socket
foreign = (false, (170 ∷ 160 ∷ 9 ∷ 1 ∷ []) ∷ [], [])

recv-refused_example :
    ((recv (message_with_id 4) foreign).0 ≡ some bad)
    × ((recv (message_with_id 4) foreign).1.object
        ≡ with_id (recv (message_with_id 4) foreign).1.object.id (message_with_id 4))
recv-refused_example =
    recv-refused (message_with_id 4) foreign 170 160 9 (1 ∷ []) [] refl refl (inr (omega arith))

-- The broken message on an object that is new.
recv-kept_example :
    ((recv new broken).0 ≢ none)
    × IsObject (recv new broken).1.object
    × (kept (recv new broken).1.object ≤ kept new + 14)
recv-kept_example = recv-kept true new broken (7 ∷ []) _ [] new-IsObject (omega arith) refl refl

-- The BINARY message without the last bytes of its identifier.
abbrev cut_binary : Socket
cut_binary = (false, take 20 (image (message_with_id 3)) ∷ [], [])

enough_binary : 20 < length (image (message_with_id 3))
unfolding image binary_image big_endian
enough_binary = omega arith

recv-truncated_binary_example : (recv (message_with_id 4) cut_binary).0 ≡ some bad
recv-truncated_binary_example =
    recv-truncated_binary (message_with_id 3) (message_with_id 4) cut_binary 20 []
      (message_with_id-IsObject 3 (omega arith)) (message_with_id-Fits 3) refl refl enough_binary
      refl

-- The first frame of the BINARY message alone.
abbrev one_frame : Socket
one_frame = (false, image (message_with_id 3) ∷ [], [])

recv-missing_frames_example :
    ((recv (message_with_id 4) one_frame).0 ≡ some bad)
    × ((recv (message_with_id 4) one_frame).1.object
        ≡ first_frame_of (message_with_id 3) (message_with_id 4))
    × ((recv (message_with_id 4) one_frame).1.input.1 ≡ [])
recv-missing_frames_example =
    recv-missing_frames (message_with_id 3) (message_with_id 4) one_frame []
      (message_with_id-IsObject 3 (omega arith)) (message_with_id-Fits 3) refl refl
      (rw (append-nil (image (message_with_id 3))) refl)
