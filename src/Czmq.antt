-- ===== src/Czmq.antt =====
-- What the program uses of CZMQ and libzmq, which are not part of the repository: the containers
-- and the sockets as abstract types, and of each function the behaviour that its documentation
-- promises. Containers of strings copy them (zlist_autofree, zhash_autofree). C strings and blocks are byte lists; `Option` is a pointer that may be NULL.
use zproto.Base.{
  ℕ, ◌≡◌, Option, none, some, Bool, not, List, [], ◌∷◌, ◌++◌, length, All, if◌then◌else◌, ◌≤◌, ◌+◌,
}
use zproto.Base.{same_bytes, lookup}
use mathlib.Core.Option
use mathlib.Core.List.{map}
use zproto.CharArray.{Bytes, c_string}

abbrev pub is_empty : List Bytes → Bool
is_empty [] = Bool.true
is_empty (x ∷ xs) = Bool.false

-- The first of two pointers that is not NULL.
abbrev pub or_else : Option Bytes → Option Bytes → Option Bytes
or_else none o = o
or_else (some v) o = some v

-- A byte string with no NUL in it.
abbrev pub IsCString : Bytes → Type 0
IsCString s = c_string s ≡ s

abbrev pub IsCPair : Bytes × Bytes → Type 0
IsCPair p = IsCString p.0 × IsCString p.1

pub record Czmq : Type 1 where
  pub ZList : Type 0
  pub ZHash : Type 0
  pub ZChunk : Type 0
  pub ZUuid : Type 0
  pub ZFrame : Type 0
  pub ZMsg : Type 0
  pub ZSock : Type 0
  -- Lists of strings. `zlist_items` is what zlist_first and then zlist_next return up to NULL.
  pub zlist_new : ZList
  pub zlist_append : ZList → Bytes → ZList
  pub zlist_items : ZList → List Bytes
  pub zlist_size : ZList → ℕ
  pub zlist_dup : Option ZList → Option ZList
  pub items-new : zlist_items zlist_new ≡ []
  pub items-append :
      (l : ZList) (s : Bytes) → zlist_items (zlist_append l s) ≡ zlist_items l ++ c_string s ∷ []
  pub items-text : (l : ZList) → All IsCString (zlist_items l)
  pub size-items : (l : ZList) → zlist_size l ≡ length (zlist_items l)
  pub items-dup :
      (o : Option ZList) → Option.map zlist_items (zlist_dup o) ≡ Option.map zlist_items o
  -- Hash tables. `zhash_items` is what zhash_first and zhash_next return up to NULL, each item
  -- behind its key, zhash_cursor. zhash_insert leaves the item of a key that is there.
  pub zhash_new : ZHash
  pub zhash_insert : ZHash → Bytes → Bytes → ZHash
  pub zhash_lookup : ZHash → Bytes → Option Bytes
  pub zhash_items : ZHash → List (Bytes × Bytes)
  pub zhash_size : ZHash → ℕ
  pub zhash_dup : Option ZHash → Option ZHash
  pub lookup-new : (k : Bytes) → zhash_lookup zhash_new k ≡ none
  pub lookup-insert :
      (h : ZHash) (k v j : Bytes)
      → zhash_lookup (zhash_insert h k v) j
        ≡ or_else (zhash_lookup h j) (if same_bytes (c_string k) j then some (c_string v) else none)
  pub size-new : zhash_size zhash_new ≡ 0
  pub size-insert : (h : ZHash) (k v : Bytes) → zhash_size (zhash_insert h k v) ≤ zhash_size h + 1
  pub hash_items-text : (h : ZHash) → All IsCPair (zhash_items h)
  pub lookup-items : (h : ZHash) (k : Bytes) → zhash_lookup h k ≡ lookup k (zhash_items h)
  pub hash_size-items : (h : ZHash) → zhash_size h ≡ length (zhash_items h)
  -- A duplicate has the same items, in an order of its own.
  pub lookup-dup :
      (o : Option ZHash) (k : Bytes)
      → Option.map (λ h. zhash_lookup h k) (zhash_dup o) ≡ Option.map (λ h. zhash_lookup h k) o
  pub hash_size-dup :
      (o : Option ZHash) → Option.map zhash_size (zhash_dup o) ≡ Option.map zhash_size o
  -- Chunks of memory, identifiers, frames, and messages of several frames.
  pub zchunk_new : Bytes → ZChunk
  pub zchunk_data : ZChunk → Bytes
  pub zchunk_size : ZChunk → ℕ
  pub zchunk_dup : Option ZChunk → Option ZChunk
  pub chunk_data-new : (bs : Bytes) → zchunk_data (zchunk_new bs) ≡ bs
  pub chunk_size-data : (c : ZChunk) → zchunk_size c ≡ length (zchunk_data c)
  pub chunk_data-dup :
      (o : Option ZChunk) → Option.map zchunk_data (zchunk_dup o) ≡ Option.map zchunk_data o
  pub zuuid_new_from : Bytes → ZUuid
  pub zuuid_data : ZUuid → Bytes
  pub zuuid_dup : Option ZUuid → Option ZUuid
  pub length-uuid_data : (u : ZUuid) → length (zuuid_data u) ≡ 16
  pub uuid_data-new_from : (bs : Bytes) → length bs ≡ 16 → zuuid_data (zuuid_new_from bs) ≡ bs
  pub uuid_data-dup :
      (o : Option ZUuid) → Option.map zuuid_data (zuuid_dup o) ≡ Option.map zuuid_data o
  pub zframe_data : ZFrame → Bytes
  pub zframe_dup : Option ZFrame → Option ZFrame
  pub frame_data-dup :
      (o : Option ZFrame) → Option.map zframe_data (zframe_dup o) ≡ Option.map zframe_data o
  pub zmsg_new : ZMsg
  pub zmsg_frames : ZMsg → List ZFrame
  pub zmsg_size : ZMsg → ℕ
  pub zmsg_dup : Option ZMsg → Option ZMsg
  pub frames-new : zmsg_frames zmsg_new ≡ []
  pub size-frames : (m : ZMsg) → zmsg_size m ≡ length (zmsg_frames m)
  pub frames-dup :
      (o : Option ZMsg)
      → Option.map (λ m. map zframe_data (zmsg_frames m)) (zmsg_dup o)
        ≡ Option.map (λ m. map zframe_data (zmsg_frames m)) o
  -- Memory that holds any bytes: of a frame as zframe_new leaves it, of a message part as
  -- zmq_msg_init_size leaves it, and of an array on the stack. Each has the size given, and nothing
  -- is said of the bytes in it.
  pub new_frame_memory : ℕ → Bytes
  pub new_msg_memory : ℕ → Bytes
  pub array_memory : ℕ → Bytes
  pub length-new_frame_memory : (size : ℕ) → length (new_frame_memory size) ≡ size
  pub length-new_msg_memory : (size : ℕ) → length (new_msg_memory size) ≡ size
  pub length-array_memory : (size : ℕ) → length (array_memory size) ≡ size
  -- Sockets. `incoming` is what is left to be read of the message that has arrived.
  pub is_router : ZSock → Bool
  pub incoming : ZSock → List Bytes
  pub zframe_recv : ZSock → Option ZFrame × ZSock
  pub zmsg_recv : ZSock → Option ZMsg × ZSock
  pub zmq_msg_recv : ZSock → Option Bytes × ZSock
  pub zsock_rcvmore : ZSock → Bool
  pub rcvmore-incoming : (s : ZSock) → zsock_rcvmore s ≡ not (is_empty (incoming s))
  pub frame_recv-incoming :
      (s : ZSock) (f : Bytes) (fs : List Bytes)
      → incoming s ≡ f ∷ fs
      → (Option.map zframe_data (zframe_recv s).0 ≡ some f) × (incoming (zframe_recv s).1 ≡ fs)
  pub msg_recv-incoming :
      (s : ZSock) (f : Bytes) (fs : List Bytes)
      → incoming s ≡ f ∷ fs
      → (Option.map (λ m. map zframe_data (zmsg_frames m)) (zmsg_recv s).0 ≡ some (f ∷ fs))
        × (incoming (zmsg_recv s).1 ≡ [])
  pub zmq_recv-incoming :
      (s : ZSock) (f : Bytes) (fs : List Bytes)
      → incoming s ≡ f ∷ fs
      → ((zmq_msg_recv s).0 ≡ some f) × (incoming (zmq_msg_recv s).1 ≡ fs)
