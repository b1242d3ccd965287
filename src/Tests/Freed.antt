-- ===== src/Tests/Freed.antt =====
-- The theorem on ownership at a message of the self test.
use zproto.Base.{some, List, [], ◌∷◌}
use zproto.Destroy.Transfers.{
  Transfer, sets_headers, sets_aliases, sets_routing_id, gets_aliases, gets_content,
}
use zproto.Tests.Containers.{bare}

-- The headers are replaced, the aliases taken out and put back, and the content taken out.
abbrev calls : List Transfer
calls =
    sets_headers (some [])
    ∷ gets_aliases
    ∷ sets_aliases (some [])
    ∷ sets_routing_id (some (7 ∷ []))
    ∷ gets_content
    ∷ []
