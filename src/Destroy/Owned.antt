-- ===== src/Destroy/Owned.antt =====
-- Who frees a container: the get and set functions, one call after another, and
-- zproto_example_destroy at the end.
use zproto.Base.{List, ◌++◌}
use mathlib.Core.List.{Perm}
use mathlib.Core.List.Perm
use zproto.Czmq.{Czmq}
use zproto.Example.{Example}
use zproto.Destroy.{Freed, frees}
use zproto.Destroy.Transfers.{Ledger}

module _ ⦃z : Czmq⦄ where
  -- Every container is accounted for: freed, in the caller's hands, or destroy will free it.
  abbrev IsBalanced : List Freed → Ledger → Type 0
  IsBalanced all l = Perm (l.freed ++ (l.handed ++ frees l.object)) (l.given ++ all)
