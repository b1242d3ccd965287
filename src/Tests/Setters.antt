-- ===== src/Tests/Setters.antt =====
-- A setter of a string field on the self test's LOG message.
use zproto.Base.{[], ◌∷◌, arith}
use zproto.CharArray.{block}
use zproto.Access.StringFields.{supplier_email, setter, HasSet, setter_lem}
use zproto.Tests.Containers.{bare}
use zproto.Tests.Objects.{message_with_id, message_with_id-IsObject}

setter_lem_example :
    HasSet supplier_email
      (message_with_id 1)
      (65 ∷ 0 ∷ 66 ∷ [])
      (setter supplier_email (message_with_id 1) (block (65 ∷ 0 ∷ 66 ∷ [])))
setter_lem_example =
    setter_lem supplier_email (message_with_id 1) (65 ∷ 0 ∷ 66 ∷ [])
      (message_with_id-IsObject 1 (omega arith)) (omega arith)
