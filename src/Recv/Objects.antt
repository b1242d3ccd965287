-- ===== src/Recv/Objects.antt =====
-- The object behind a message that zproto_example_recv has read to its end.
use zproto.Base.{◌≡◌, false, arith, ◌==◌}
use zproto.CharArray.{Bytes, c_string, strlen}
use zproto.CharArray.Laws.{IsArray, filled, filled-IsArray, c_string-IsByte}
use zproto.Czmq.{Czmq}
use zproto.Example.{Example, id_binary, switch_all}
use zproto.Example.View.{IsObject}
use zproto.Recv.{Receiver}
use zproto.Recv.Fields.{log_received, types_received}
use zproto.Recv.Structures.{structures_received}
use zproto.Recv.Binary.{binary_received, frames_received}
use zproto.Recv.RoundTrip.{received, received_as, with_id-IsObject}

got-IsArray :
    (cells text : Bytes) → IsArray cells → IsArray text → IsArray (filled cells (c_string text))
got-IsArray cells text a b =
    filled-IsArray cells (c_string text) (c_string-IsByte text b.bytes) (unfold strlen in b.ended) a

module _ ⦃z : Czmq⦄ where
  log_received-IsObject :
      (self s : Example z) → IsObject self → IsObject s → IsObject (log_received self s)
  log_received-IsObject self s v o = record {
    id = o.id;
    sequence = v.sequence;
    level = v.level;
    event = v.event;
    node = v.node;
    peer = v.peer;
    time = v.time;
    host = got-IsArray s.host self.host o.host v.host;
    flags = o.flags;
    flag_bytes = o.flag_bytes;
    client_forename = o.client_forename;
    client_surname = o.client_surname;
    client_mobile = o.client_mobile;
    client_email = o.client_email;
    supplier_forename = o.supplier_forename;
    supplier_surname = o.supplier_surname;
    supplier_mobile = o.supplier_mobile;
    supplier_email = o.supplier_email;
  }

  structures_received-IsObject :
      (self s : Example z) → IsObject self → IsObject s → IsObject (structures_received self s)
  structures_received-IsObject self s v o = let n = v.sequence in search (n, o)

  binary_received-IsObject :
      (self : Example z) (r : Receiver)
      → IsObject self
      → IsObject r.object
      → IsObject (frames_received (record r { object = binary_received self r.object })).object
  unfolding frames_received
  binary_received-IsObject self r v o =
      let n = v.sequence in let f = v.flags in let b = v.flag_bytes in search (n, f, b, o)

  types_received-IsObject :
      (self s : Example z) → IsObject self → IsObject s → IsObject (types_received self s)
  types_received-IsObject self s v o = record {
    id = o.id;
    sequence = v.sequence;
    level = o.level;
    event = o.event;
    node = o.node;
    peer = o.peer;
    time = o.time;
    host = o.host;
    flags = o.flags;
    flag_bytes = o.flag_bytes;
    client_forename =
        got-IsArray s.client_forename self.client_forename o.client_forename v.client_forename;
    client_surname =
        got-IsArray s.client_surname self.client_surname o.client_surname v.client_surname;
    client_mobile = got-IsArray s.client_mobile self.client_mobile o.client_mobile v.client_mobile;
    client_email = got-IsArray s.client_email self.client_email o.client_email v.client_email;
    supplier_forename =
        got-IsArray s.supplier_forename self.supplier_forename o.supplier_forename
          v.supplier_forename;
    supplier_surname =
        got-IsArray s.supplier_surname self.supplier_surname o.supplier_surname v.supplier_surname;
    supplier_mobile =
        got-IsArray s.supplier_mobile self.supplier_mobile o.supplier_mobile v.supplier_mobile;
    supplier_email =
        got-IsArray s.supplier_email self.supplier_email o.supplier_email v.supplier_email;
  }

  pub received-IsObject :
      (self : Example z) (r : Receiver)
      → IsObject self
      → IsObject r.object
      → IsObject (received self r).object
  unfolding received received_as
  received-IsObject self r v o =
      let o' = with_id-IsObject r.object self.id v.id o in
      let r' : Receiver = record r { object = record (r.object) { id = self.id } } in
      switch_all (λ (r'' : Receiver). IsObject r''.object) self.id _ _ _ _ _
        (log_received-IsObject self r'.object v o')
        (structures_received-IsObject self r'.object v o') (binary_received-IsObject self r' v o')
        (types_received-IsObject self r'.object v o') o'

  -- Only a BINARY message writes the content.
  pub received-content :
      (self : Example z) (r : Receiver)
      → (self.id == id_binary) ≡ false
      → (received self r).object.content ≡ r.object.content
  unfolding received received_as
  received-content self r h = ground arith
