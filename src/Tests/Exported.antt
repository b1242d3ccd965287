-- ===== src/Tests/Exported.antt =====
-- The theorems of the configuration format at the messages of the self test, some with a routing id.
use zproto.Base.{ℕ, refl, none, some, [], ◌∷◌, same_bytes, lookup, arith}
use zproto.CharArray.{Bytes, c_string}
use zproto.Example.{Example}
use zproto.Example.View.{IsObject, message}
use zproto.Zpl.{zpl}
use zproto.ConfigFormat.{SaysAgain, IsRefused}
use zproto.ConfigFormat.Log.{log-new_zpl-zpl, log-no_text}
use zproto.ConfigFormat.Types.{types-new_zpl-zpl}
use zproto.ConfigFormat.Binary.{reassigned, binary-new_zpl-zpl}
use zproto.ConfigFormat.Structures.{structures-new_zpl-zpl}
use zproto.Tests.Containers.{bare}
use zproto.Tests.Trees.{trees}
use zproto.Tests.Items.{Store}
use zproto.Tests.Objects.{message_with_id, message_with_id-IsObject}

abbrev empty_store : Store
empty_store = (0, λ i. [])

abbrev second_of : Bytes → Bytes → Bytes
second_of cells source = source

-- The message with a routing id.
abbrev routed : ℕ → Example bare
routed n = record (message_with_id n) { routing_id = some (1 ∷ 0 ∷ 255 ∷ []) }

log_routed-IsObject : IsObject (routed 1)
log_routed-IsObject = let o = message_with_id-IsObject 1 (omega arith) in search o

types_routed-IsObject : IsObject (routed 4)
types_routed-IsObject = let o = message_with_id-IsObject 4 (omega arith) in search o

abbrev textless : Example bare
textless = record (message_with_id 1) { text = none }

textless-IsObject : IsObject textless
textless-IsObject = let o = message_with_id-IsObject 1 (omega arith) in search o

log-new_zpl-zpl_example :
    SaysAgain second_of (message (routed 1)) (routed 1).routing_id (zpl (routed 1) none empty_store)
log-new_zpl-zpl_example =
    log-new_zpl-zpl second_of (routed 1) none empty_store (84 ∷ 104 ∷ 105 ∷ 115 ∷ [])
      log_routed-IsObject (omega arith) refl refl

types-new_zpl-zpl_example :
    SaysAgain second_of (message (routed 4)) (routed 4).routing_id (zpl (routed 4) none empty_store)
types-new_zpl-zpl_example =
    types-new_zpl-zpl second_of (routed 4) none empty_store types_routed-IsObject (omega arith) refl

structures-new_zpl-zpl_example :
    SaysAgain second_of
      (message (message_with_id 2))
      none
      (zpl (message_with_id 2) none empty_store)
unfolding c_string same_bytes lookup
structures-new_zpl-zpl_example =
    structures-new_zpl-zpl second_of (message_with_id 2) none empty_store
      (message_with_id-IsObject 2 (omega arith)) tt refl (omega arith) refl

binary-new_zpl-zpl_example :
    SaysAgain second_of
      (message (reassigned second_of (message_with_id 3)))
      none
      (zpl (message_with_id 3) none empty_store)
binary-new_zpl-zpl_example =
    binary-new_zpl-zpl second_of (message_with_id 3) none empty_store (56 ∷ 57 ∷ 0 ∷ 102 ∷ [])
      (48 ∷ 50 ∷ []) ((55 ∷ 50 ∷ 56 ∷ []) ∷ []) (message_with_id-IsObject 3 (omega arith)) tt
      (record { public_key = omega arith; address = omega arith; content = omega arith }) refl refl
      refl refl

log-no_text_example : IsRefused second_of (zpl textless none empty_store)
log-no_text_example = log-no_text second_of textless none empty_store textless-IsObject tt refl refl
