-- ===== src/Destroy/Transfers.antt =====
-- The get and set functions that hand a container over or copy one, as calls of which an account is
-- kept.
use zproto.Base.{Option, List, [], ◌∷◌, ◌++◌}
use zproto.Czmq.{Czmq}
use zproto.Example.{Example}
use zproto.Access.Owned.{
  set_routing_id, set_identifier, get_identifier, get_aliases, set_aliases, get_headers,
  set_headers, get_public_key, set_public_key, get_address, set_address, get_content, set_content,
}
use zproto.Destroy.{Freed, frame, list, hash, chunk, uuid, msg, part}

module _ ⦃z : Czmq⦄ where
  -- The calls that hand a container over. Of a setter that copies, the copy is what is handed over.
  pub data Transfer : Type 0 where
    sets_routing_id : Option z.ZFrame → Transfer
    sets_identifier : Option z.ZUuid → Transfer
    sets_aliases : Option z.ZList → Transfer
    sets_headers : Option z.ZHash → Transfer
    sets_public_key : Option z.ZChunk → Transfer
    sets_address : Option z.ZFrame → Transfer
    sets_content : Option z.ZMsg → Transfer
    gets_identifier gets_aliases gets_headers gets_public_key gets_address gets_content : Transfer

  -- The object, what the setters have destroyed so far, what the caller has got of the object, and
  -- what the object has been given.
  pub record Ledger : Type 0 where
    pub object : Example z
    pub freed : List Freed
    pub handed : List Freed
    pub given : List Freed

  abbrev set_entry : {C : Type 0} → (C → Freed) → Ledger → Example z → Option C → Option C → Ledger
  set_entry kind l self new old = record l {
    object = self;
    freed = part old kind ++ l.freed;
    given = part new kind ++ l.given;
  }

  abbrev get_entry : {C : Type 0} → (C → Freed) → Ledger → Option C × Example z → Ledger
  get_entry kind l got = record l { object = got.1; handed = part got.0 kind ++ l.handed }

  -- The caller reads what its own pointer is after the call: NULL, or the container still.
  unfoldable pub transfer : Transfer → Ledger → Ledger
  transfer (sets_routing_id p) l =
      let r = set_routing_id l.object p in set_entry frame l r.0 r.0.routing_id r.1
  transfer (sets_identifier p) l =
      let r = set_identifier l.object p in set_entry uuid l r.0 r.0.identifier r.1
  transfer (sets_aliases p) l =
      let r = set_aliases l.object p in
      let m = set_entry list l r.0 p r.2 in record m { handed = part r.1 list ++ m.handed }
  transfer (sets_headers p) l =
      let r = set_headers l.object p in
      let m = set_entry hash l r.0 p r.2 in record m { handed = part r.1 hash ++ m.handed }
  transfer (sets_public_key p) l =
      let r = set_public_key l.object p in
      let m = set_entry chunk l r.0 p r.2 in record m { handed = part r.1 chunk ++ m.handed }
  transfer (sets_address p) l =
      let r = set_address l.object p in
      let m = set_entry frame l r.0 p r.2 in record m { handed = part r.1 frame ++ m.handed }
  transfer (sets_content p) l =
      let r = set_content l.object p in
      let m = set_entry msg l r.0 p r.2 in record m { handed = part r.1 msg ++ m.handed }
  transfer gets_identifier l = get_entry uuid l (get_identifier l.object)
  transfer gets_aliases l = get_entry list l (get_aliases l.object)
  transfer gets_headers l = get_entry hash l (get_headers l.object)
  transfer gets_public_key l = get_entry chunk l (get_public_key l.object)
  transfer gets_address l = get_entry frame l (get_address l.object)
  transfer gets_content l = get_entry msg l (get_content l.object)

  unfoldable pub transfers : List Transfer → Ledger → Ledger
  transfers [] l = l
  transfers (t ∷ rest) l = transfers rest (transfer t l)

  abbrev pub opened : Example z → Ledger
  opened self = record { object = self; freed = []; handed = []; given = [] }
