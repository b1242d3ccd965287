-- ===== src/Tests/Delivered.antt =====
-- The delivery theorems at the self test's BINARY message, which takes three frames.
use zproto.Base.{◌≡◌, refl, true, false, some, [], ◌∷◌, arith}
use zproto.Put.{write, put_octets, put_number1, put_number2, put_number4}
use zproto.Get.{success}
use zproto.Encode.{frame_size, binary_size, chunk_bytes, serialize, put_binary, put_chunk, put_uuid}
use zproto.Encode.Image.{image, binary_image}
use zproto.Put.Writes.{big_endian}
use zproto.Example.{Example}
use zproto.Example.View.{IsObject, Fits, message, frame_bytes}
use zproto.Send.{
  Calls, msg_send, frame_send, send, send_frames, send_content, send_rest, send_address,
}
use zproto.Send.{count_content, decrement, send_routing_id}
use zproto.Recv.{recv}
use zproto.Delivery.{frames_of, recv-send, recv-send_routed, same_frames-message}
use zproto.Tests.Containers.{bare, Socket}
use zproto.Tests.Objects.{message_with_id, message_with_id-IsObject, message_with_id-Fits}

abbrev pub calls : Calls
calls =
    msg_send (image (message_with_id 3)) true
    ∷ frame_send (some (48 ∷ 50 ∷ [])) true
    ∷ frame_send (some (55 ∷ 50 ∷ 56 ∷ [])) false
    ∷ []

pub send-calls : send (message_with_id 3) false ≡ some (calls, message_with_id 3)
unfolding send frame_size binary_size chunk_bytes serialize put_binary put_chunk put_uuid write
    put_octets put_number1 put_number2 put_number4 image binary_image big_endian send_frames
    send_content send_rest send_address count_content decrement send_routing_id
send-calls = refl

abbrev dealer : Socket
dealer = (false, frames_of calls, [])

abbrev router : Socket
router = (true, (1 ∷ 2 ∷ []) ∷ frames_of calls, [])

recv-send_example :
    ((recv (message_with_id 1) dealer).0 ≡ some success)
    × (message (recv (message_with_id 1) dealer).1.object ≡ message (message_with_id 3))
    × ((recv (message_with_id 1) dealer).1.input.1 ≡ [])
unfolding count_content
recv-send_example =
    recv-send (message_with_id 3) (message_with_id 3) (message_with_id 1) calls dealer
      (message_with_id-IsObject 3 (omega arith)) (message_with_id-IsObject 1 (omega arith))
      (message_with_id-Fits 3) (omega arith) (omega arith) send-calls refl refl

recv-send_routed_example :
    ((recv (message_with_id 1) router).0 ≡ some success)
    × (frame_bytes (recv (message_with_id 1) router).1.object.routing_id ≡ 1 ∷ 2 ∷ [])
    × (message (recv (message_with_id 1) router).1.object ≡ message (message_with_id 3))
    × ((recv (message_with_id 1) router).1.input.1 ≡ [])
unfolding count_content
recv-send_routed_example =
    recv-send_routed (message_with_id 3) (message_with_id 3) (message_with_id 1) calls router
      (1 ∷ 2 ∷ []) (message_with_id-IsObject 3 (omega arith))
      (message_with_id-IsObject 1 (omega arith)) (message_with_id-Fits 3) (omega arith)
      (omega arith) send-calls refl refl

-- The same message in an object that has counted header bytes for an earlier one.
abbrev copy_of_it : Example bare
copy_of_it = record (message_with_id 3) { headers_bytes = 7 }

copy_of_it-IsObject : IsObject copy_of_it
copy_of_it-IsObject = let o = message_with_id-IsObject 3 (omega arith) in search o

copy_of_it-Fits : Fits copy_of_it
copy_of_it-Fits = let f = message_with_id-Fits 3 in search f

send-copy_of_it : send copy_of_it false ≡ some (calls, copy_of_it)
unfolding send frame_size binary_size chunk_bytes serialize put_binary put_chunk put_uuid write
    put_octets put_number1 put_number2 put_number4 image binary_image big_endian send_frames
    send_content send_rest send_address count_content decrement send_routing_id
send-copy_of_it = refl

same_frames-message_example : message (message_with_id 3) ≡ message copy_of_it
unfolding count_content
same_frames-message_example =
    same_frames-message (message_with_id 3) (message_with_id 3) copy_of_it copy_of_it calls calls
      dealer (message_with_id-IsObject 3 (omega arith)) copy_of_it-IsObject (message_with_id-Fits 3)
      copy_of_it-Fits (omega arith) (omega arith) (omega arith) (omega arith) send-calls
      send-copy_of_it refl refl refl
