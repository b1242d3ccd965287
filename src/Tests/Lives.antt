-- ===== src/Tests/Lives.antt =====
-- An object in the course of some calls: made, given an id and a host, sent, and duplicated.
use zproto.Base.{◌≢◌, refl, true, none, [], ◌∷◌, arith}
use zproto.CharArray.{block}
use zproto.Example.{Example, new}
use zproto.Example.View.{IsObject}
use zproto.Access.Numbers.{set_id}
use zproto.Access.StringFields.{host, setter}
use zproto.Encode.{encode}
use zproto.Send.{send}
use zproto.Recv.{recv}
use zproto.Dup.{dup}
use zproto.Lifetime.{Reached, made, after, sets_id, sets_text, gets_headers}
use zproto.Lifetime.Safe.{Reached-IsObject, Reached-no_fault}
use zproto.Access.Strings.{set_text}
use zproto.Access.Owned.{get_headers}
use zproto.Tests.Containers.{bare, Socket}
use zproto.Tests.Trees.{trees}

abbrev with_text : Example bare
with_text = set_text (set_id new 1) (72 ∷ 105 ∷ [])

with_text-Reached : Reached with_text
with_text-Reached =
    after _ _ (after _ _ made (sets_id new 1)) (sets_text (set_id new 1) (72 ∷ 105 ∷ []))

abbrev waiting : Socket
waiting = (true, (1 ∷ []) ∷ (170 ∷ []) ∷ [], [])

Reached-IsObject_example : IsObject (get_headers with_text).1
Reached-IsObject_example =
    Reached-IsObject (get_headers with_text).1
      (after _ _ with_text-Reached (gets_headers with_text))

Reached-no_fault_example :
    (encode with_text ≢ none)
    × (send with_text true ≢ none)
    × (dup with_text ≢ none)
    × (setter host with_text (block (65 ∷ 0 ∷ [])) ≢ none)
    × ((recv with_text waiting).0 ≢ none)
Reached-no_fault_example =
    Reached-no_fault with_text true host (65 ∷ 0 ∷ []) waiting (1 ∷ []) ((170 ∷ []) ∷ [])
      with_text-Reached (omega arith) (omega arith) refl
