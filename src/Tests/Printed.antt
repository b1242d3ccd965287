-- ===== src/Tests/Printed.antt =====
-- The theorem on the output of zproto_example_print at two objects that hold a LOG message.
use zproto.Base.{[], ◌∷◌, All, ◌≡◌, refl, inl, arith}
use zproto.CharArray.{Bytes}
use zproto.CharArray.Laws.{IsByte}
use zproto.Example.{Example}
use zproto.Example.View.{IsObject, message}
use zproto.Print.{print, print_as, print_log}
use zproto.Print.Tells.{print-message}
use zproto.Tests.Containers.{bare, Uuid}
use zproto.Tests.Objects.{message_with_id, message_with_id-IsObject}

abbrev data_of : Uuid → Bytes
data_of u = u.0

-- The same LOG message in an object with other flags.
abbrev other_flags : Example bare
other_flags = record (message_with_id 1) { flags = 1 ∷ 2 ∷ 3 ∷ 4 ∷ [] }

other_flags-IsObject : IsObject other_flags
other_flags-IsObject =
    let o = message_with_id-IsObject 1 (omega arith) in
    let b : All IsByte (1 ∷ 2 ∷ 3 ∷ 4 ∷ []) = omega arith in search (o, b)

print-message_example : message (message_with_id 1) ≡ message other_flags
unfolding print print_as print_log
print-message_example =
    print-message data_of (message_with_id 1) other_flags (message_with_id-IsObject 1 (omega arith))
      other_flags-IsObject (inl refl) refl
