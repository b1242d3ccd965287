-- ===== src/Network/Fifo.antt =====
-- The connection as a queue: first in, first out.
use zproto.Base.{Bool, ◌≡◌, some, List, [], ◌++◌, All}
use mathlib.Core.List.{map}
use zproto.Czmq.{Czmq}
use zproto.Get.{success}
use zproto.Example.{Example}
use zproto.Example.View.{Message}
use zproto.Network.{Network, Report}
use zproto.Network.Carried.{Queue}

module _ ⦃z : Czmq⦄ ⦃n : Network z⦄ where
  abbrev pub said : List Report → List Message
  said reports = map (λ r. r.1) reports

  abbrev pub Succeeded : List Report → Type 0
  Succeeded = All (λ r. r.0 ≡ some success)

  -- Between two calls: nothing is half read, what waits are the messages not yet received, and
  -- what has been received is the beginning of what has been sent.
  record Inv (router : Bool) (sent : List Message) (got : List Report) (s : z.ZSock) : Type 0 where
    left : List Message
    whole : z.incoming s ≡ []
    queue : Queue router (n.waiting s) left
    order : sent ≡ said got ++ left
    codes : Succeeded got
    kind : z.is_router s ≡ router
