-- ===== src/Tests/Copies.antt =====
-- The theorems on duplicates and setters at concrete objects.
use zproto.Base.{length, ◌≡◌, some, replicate, arith}
use zproto.Example.{Example}
use zproto.Example.View.{
  IsObject, header_list, frame_bytes, log_message, structures_message, binary_message,
  types_message,
}
use zproto.Encode.Exact.{leftover}
use zproto.Dup.{dup}
use zproto.Dup.Says.{dup_lem}
use zproto.Tests.Containers.{bare}
use zproto.Tests.Objects.{message_with_id, message_with_id-IsObject}

dup_lem_example :
    (copy : Example bare) × (dup (message_with_id 3) ≡ some copy)
    × IsObject copy
    × (copy.id ≡ 3)
    × (frame_bytes copy.routing_id ≡ frame_bytes (message_with_id 3).routing_id)
    × (log_message copy ≡ log_message (message_with_id 3))
    × (structures_message copy ≡ structures_message (message_with_id 3))
    × (length (header_list copy.headers) ≡ length (header_list (message_with_id 3).headers))
    × (types_message copy ≡ types_message (message_with_id 3))
    × (binary_message copy ≡ binary_message (record (message_with_id 3) { flags = replicate 4 0 }))
    × (leftover copy ≡ 0)
dup_lem_example = dup_lem (message_with_id 3) (message_with_id-IsObject 3 (omega arith))
