-- ===== src/Tests/Codec.antt =====
-- The codec's theorems at the messages of `Objects`.
use zproto.Base.{◌≡◌, [], refl, true, some, ◌∷◌, ◌++◌, length, arith}
use zproto.CharArray.{Bytes}
use zproto.Encode.{encode, frame_size}
use zproto.Encode.Image.{image}
use zproto.Encode.Exact.{leftover, encode_lem}
use zproto.Example.View.{further_frames}
use zproto.Send.{Calls, send, count_content, send_routing_id}
use zproto.Example.{Example}
use zproto.Send.Parts.{parts, flagged, send_lem}
use zproto.Tests.Containers.{bare}
use zproto.Tests.Objects.{message_with_id}

encode_lem_example :
    (tail : Bytes) × (encode (message_with_id 3)
      ≡ some (image (message_with_id 3) ++ tail, (frame_size (message_with_id 3)).1))
    × (length tail ≡ leftover (message_with_id 3))
encode_lem_example = encode_lem (message_with_id 3) refl

-- On a ROUTER, with a routing id.
abbrev routed_message : Example bare
routed_message = record (message_with_id 3) { routing_id = some (7 ∷ []) }

send_lem_example :
    (tail : Bytes) × (calls : Calls) × (send routed_message true
      ≡ some (calls, (frame_size routed_message).1))
    × (parts calls
        ≡ (7 ∷ [], true) ∷ flagged ((image routed_message ++ tail) ∷ further_frames routed_message))
    × (length tail ≡ leftover routed_message)
unfolding count_content
send_lem_example = send_lem routed_message true refl (omega arith)

-- Without one the first frame of the message is the first on the wire.
unrouted : parts (send_routing_id true (message_with_id 3).routing_id) ≡ []
unfolding send_routing_id
unrouted = refl
