-- ===== src/Recv.antt =====
-- zproto_example_recv of src/zproto_example.c.
pub mod Fields
pub mod Structures
pub mod Binary
pub mod RoundTrip
pub mod Arrived
pub mod Extra
pub mod Objects
pub mod Safe
pub mod AnyFrames
pub mod Cut
pub mod CutBinary
pub mod TooFew
pub mod Refused
pub mod Costs
pub mod Bounded
use zproto.Base.{ℕ, zero, suc, Bool, true, false, Option, none, some, [], ◌&&◌, ◌==◌, if◌then◌else◌}
use zproto.CharArray.{Bytes, array_size, c_string}
use zproto.Get.{Rc, success, interrupted, bad, Outcome, Machine, at, Get, ◌>>=◌, ◌>>◌, pure, leave}
use zproto.Get.{gets, modify, demand, check, room, octets, advance}
use zproto.Get.{
  get_block, get_octets, get_number1, get_number2, get_number4, get_number8, get_string,
  get_longstr,
}
use zproto.Czmq.{Czmq}
use zproto.Example.{Example, switch}

module _ ⦃z : Czmq⦄ where
  -- What the function works on: the object, and the socket that it reads.
  pub record Receiver : Type 0 where
    pub object : Example z
    pub input : z.ZSock

  abbrev pub Recv : Type 0 → Type 0
  Recv = Get Receiver

  -- An assignment to fields of `self`.
  abbrev pub assign : (Example z → Example z) → Receiver → Receiver
  assign f r = record r { object = f r.object }

  -- GET_STRING (self->field)
  unfoldable pub get_field : (Example z → Bytes) → (Bytes → Example z → Example z) → Recv (Unit {0})
  get_field field put = do
    cells ← gets (λ r. field r.object)
    cells' ← get_string cells
    modify (assign (put cells'))

  unfoldable pub recv_log : Recv (Unit {0})
  recv_log = do
    n ← get_number2
    modify (assign (λ s. record s { sequence = n }))
    version ← get_number2
    check (version == 3) bad
    n ← get_number1
    modify (assign (λ s. record s { level = n }))
    n ← get_number1
    modify (assign (λ s. record s { event = n }))
    n ← get_number2
    modify (assign (λ s. record s { node = n }))
    n ← get_number2
    modify (assign (λ s. record s { peer = n }))
    n ← get_number8
    modify (assign (λ s. record s { time = n }))
    get_field (λ s. s.host) (λ cells s. record s { host = cells })
    text ← get_longstr
    modify (assign (λ s. record s { text = some text }))

  -- while (list_size--); zlist_append wants a list.
  unfoldable pub recv_aliases : ℕ → Recv (Unit {0})
  recv_aliases zero = pure tt
  recv_aliases (suc list_size) = do
    string ← get_longstr
    current ← gets (λ r. r.object.aliases)
    list ← demand current
    modify (assign (λ s. record s { aliases = some (z.zlist_append list string) }))
    recv_aliases list_size

  -- while (hash_size--); the array `key` is not initialised.
  unfoldable pub recv_headers : ℕ → Recv (Unit {0})
  recv_headers zero = pure tt
  recv_headers (suc hash_size) = do
    key ← get_string (z.array_memory array_size)
    value ← get_longstr
    current ← gets (λ r. r.object.headers)
    hash ← demand current
    modify (assign (λ s. record s { headers = some (z.zhash_insert hash (c_string key) value) }))
    recv_headers hash_size

  unfoldable pub recv_structures : Recv (Unit {0})
  recv_structures = do
    n ← get_number2
    modify (assign (λ s. record s { sequence = n }))
    list_size ← get_number4
    modify (assign (λ s. record s { aliases = some z.zlist_new }))
    recv_aliases list_size
    hash_size ← get_number4
    modify (assign (λ s. record s { headers = some z.zhash_new }))
    recv_headers hash_size

  -- A receiving call: the value, and the socket behind it.
  unfoldable pub receive : {A : Type 0} → (z.ZSock → A × z.ZSock) → Recv A
  receive call m =
      let (a, input') = call m.self.input in
      (Outcome.done a, record m { self = record { object = m.self.object; input = input' } })

  unfoldable pub more : Recv Bool
  more = gets (λ r. z.zsock_rcvmore r.input)

  unfoldable pub recv_content : Bool → Recv (Unit {0})
  recv_content true = do
    message ← receive z.zmsg_recv
    modify (assign (λ s. record s { content = message }))
  recv_content false = modify (assign (λ s. record s { content = some z.zmsg_new }))

  -- "Get next frame off socket", "Get zero or more remaining frames"
  unfoldable pub recv_frames : Recv (Unit {0})
  recv_frames = do
    following ← more
    check following bad
    frame ← receive z.zframe_recv
    modify (assign (λ s. record s { address = frame }))
    following ← more
    recv_content following

  unfoldable pub recv_binary : Recv (Unit {0})
  recv_binary = do
    n ← get_number2
    modify (assign (λ s. record s { sequence = n }))
    flags ← get_octets 4
    modify (assign (λ s. record s { flags = flags }))
    chunk_size ← get_number4
    bytes ← get_block chunk_size bad
    modify (assign (λ s. record s { public_key = some (z.zchunk_new bytes) }))
    bytes ← get_block 16 bad
    modify (assign (λ s. record s { identifier = some (z.zuuid_new_from bytes) }))
    recv_frames

  unfoldable pub recv_types : Recv (Unit {0})
  recv_types = do
    n ← get_number2
    modify (assign (λ s. record s { sequence = n }))
    get_field (λ s. s.client_forename) (λ cells s. record s { client_forename = cells })
    get_field (λ s. s.client_surname) (λ cells s. record s { client_surname = cells })
    get_field (λ s. s.client_mobile) (λ cells s. record s { client_mobile = cells })
    get_field (λ s. s.client_email) (λ cells s. record s { client_email = cells })
    get_field (λ s. s.supplier_forename) (λ cells s. record s { supplier_forename = cells })
    get_field (λ s. s.supplier_surname) (λ cells s. record s { supplier_surname = cells })
    get_field (λ s. s.supplier_mobile) (λ cells s. record s { supplier_mobile = cells })
    get_field (λ s. s.supplier_email) (λ cells s. record s { supplier_email = cells })

  unfoldable pub recv_body : ℕ → Recv (Unit {0})
  recv_body id = switch id recv_log recv_structures recv_binary recv_types (leave bad)

  -- "Get and check protocol signature", "Get message id and parse per message type"
  unfoldable pub recv_frame : Recv (Unit {0})
  recv_frame = do
    signature ← get_number2
    check (signature == 0xAAA0) bad
    id ← get_number1
    modify (assign (λ s. record s { id = id }))
    recv_body id

  pub is_some : {A : Type 0} → Option A → Bool
  is_some none = false
  is_some (some a) = true

  -- The routing id, on a ROUTER socket.
  pub recv_routing_id : Bool → Recv (Unit {0})
  recv_routing_id false = pure tt
  recv_routing_id true = do
    frame ← receive z.zframe_recv
    modify (assign (λ s. record s { routing_id = frame }))
    following ← more
    check (is_some frame && following) interrupted

  -- self->needle = zmq_msg_data (&frame), and the ceiling behind its last byte
  load : Option Bytes → Recv (Unit {0})
  load none = leave interrupted
  load (some bytes) = λ m. (Outcome.done tt, record m { needle = bytes })

  unfoldable pub receive_all : Recv (Unit {0})
  unfolding is_some recv_routing_id load
  receive_all = do
    router ← gets (λ r. z.is_router r.input)
    recv_routing_id router
    frame ← receive z.zmq_msg_recv
    load frame
    recv_frame

  -- The return code, or `none` where the behaviour is undefined, and what has become of the object
  -- and the socket.
  finish : Outcome (Unit {0}) × Machine Receiver → Option Rc × Receiver
  finish (Outcome.done _, m) = (some success, m.self)
  finish (Outcome.malformed rc, m) = (some rc, m.self)
  finish (Outcome.fault, m) = (none, m.self)

  unfoldable pub recv : Example z → z.ZSock → Option Rc × Receiver
  unfolding finish
  recv self input = finish (receive_all (at (record { object = self; input = input }) []))
