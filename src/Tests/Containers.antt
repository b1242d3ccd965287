-- ===== src/Tests/Containers.antt =====
-- Containers and sockets that behave as `Czmq` asks: lists of bytes.
use zproto.Base.{ℕ, ◌≡◌, refl, ◌∙◌, ap, Bool, not, Option, none, some, List, [], ◌∷◌, ◌++◌, arith}
use zproto.Base.{◌≤◌, ◌+◌, length, All, take, replicate, lookup, same_bytes, if◌then◌else◌}
use zproto.Base.{length-append, length-take, length-replicate, take-append}
use mathlib.Core.List.{map, map-append}
use mathlib.Core.Option
use zproto.CharArray.{Bytes, c_string}
use zproto.CharArray.Laws.{c_string-c_string}
use zproto.Czmq.{Czmq, is_empty, or_else, IsCString, IsCPair}

abbrev pub c_pair : Bytes × Bytes → Bytes × Bytes
c_pair (k, v) = (c_string k, c_string v)

pub texts : (l : List Bytes) → All IsCString (map c_string l)
texts [] = tt
texts (s ∷ l) = (c_string-c_string s, texts l)

pub text_pairs : (l : List (Bytes × Bytes)) → All IsCPair (map c_pair l)
text_pairs [] = tt
text_pairs ((k, v) ∷ l) = ((c_string-c_string k, c_string-c_string v), text_pairs l)

pub lookup_last :
    (l : List (Bytes × Bytes)) (k v j : Bytes)
    → lookup j (map c_pair (l ++ (k, v) ∷ []))
      ≡ or_else
          (lookup j (map c_pair l))
          (if same_bytes (c_string k) j then some (c_string v) else none)
unfolding lookup
lookup_last [] k v j = ground arith
lookup_last ((k', v') ∷ l) k v j = ground (arith, lookup_last l k v j)

pub insert_one :
    (l : List (Bytes × Bytes)) (k v : Bytes)
    → length (map c_pair (l ++ (k, v) ∷ [])) ≤ length (map c_pair l) + 1
insert_one [] k v = omega arith
insert_one (p ∷ l) k v = omega (arith, insert_one l k v)

map_id : {A : Type 0} (o : Option A) → Option.map (λ a. a) o ≡ o
map_id none = refl
map_id (some a) = refl

pub nothing : (k : Bytes) → lookup k [] ≡ none
unfolding lookup
nothing k = refl

abbrev pub Uuid : Type 0
Uuid = (bs : Bytes) × (length bs ≡ 16)

pub sixteen : (bs : Bytes) → length (take 16 (bs ++ replicate 16 0)) ≡ 16
sixteen bs = omega (
  arith,
  length-take 16 (bs ++ replicate 16 0),
  length-append bs (replicate 16 0),
  length-replicate {A = ℕ} 16 0,
)

pub whole : (bs : Bytes) → length bs ≡ 16 → take 16 (bs ++ replicate 16 0) ≡ bs
whole bs h = rw (← h) (take-append bs _)

-- Whether it is a ROUTER, what is left of the message that is being read, and the messages behind it.
abbrev pub Socket : Type 0
Socket = Bool × List Bytes × List (List Bytes)

abbrev pub pop : Socket → Option Bytes × Socket
pop (router, [], w) = (none, (router, [], w))
pop (router, f ∷ fs, w) = (some f, (router, fs, w))

abbrev pub pop_all : Socket → Option (List Bytes) × Socket
pop_all (router, [], w) = (none, (router, [], w))
pop_all (router, f ∷ fs, w) = (some (f ∷ fs), (router, [], w))

pub pop_frame :
    (s : Socket) (f : Bytes) (fs : List Bytes)
    → s.1 ≡ f ∷ fs
    → (Option.map (λ b. b) (pop s).0 ≡ some f) × ((pop s).1.1 ≡ fs)
pop_frame (router, [], w) f fs h = cc
pop_frame (router, g ∷ gs, w) f fs h = (cc, cc)

pub pop_bytes :
    (s : Socket) (f : Bytes) (fs : List Bytes)
    → s.1 ≡ f ∷ fs
    → ((pop s).0 ≡ some f) × ((pop s).1.1 ≡ fs)
pop_bytes (router, [], w) f fs h = cc
pop_bytes (router, g ∷ gs, w) f fs h = (cc, cc)

pub same_frames : (l : List Bytes) → map (λ b. b) l ≡ l
same_frames [] = refl
same_frames (b ∷ l) = ap (λ m. b ∷ m) (same_frames l)

pub pop_message :
    (s : Socket) (f : Bytes) (fs : List Bytes)
    → s.1 ≡ f ∷ fs
    → (Option.map (λ m. map (λ b. b) m) (pop_all s).0 ≡ some (f ∷ fs)) × ((pop_all s).1.1 ≡ [])
pop_message (router, [], w) f fs h = cc
pop_message (router, g ∷ gs, w) f fs h = (ap some (same_frames (g ∷ gs)) ∙ ap some h, refl)

instance abbrev pub bare : Czmq
bare = record {
  ZList = List Bytes;
  ZHash = List (Bytes × Bytes);
  ZChunk = Bytes;
  ZUuid = Uuid;
  ZFrame = Bytes;
  ZMsg = List Bytes;
  ZSock = Socket;
  zlist_new = [];
  zlist_append = λ l s. l ++ s ∷ [];
  zlist_items = λ l. map c_string l;
  zlist_size = λ l. length (map c_string l);
  zlist_dup = λ o. o;
  items-new = refl;
  items-append = λ l s. map-append c_string l (s ∷ []);
  items-text = texts;
  size-items = λ l. refl;
  items-dup = λ o. refl;
  zhash_new = [];
  zhash_insert = λ h k v. h ++ (k, v) ∷ [];
  zhash_lookup = λ h k. lookup k (map c_pair h);
  zhash_items = λ h. map c_pair h;
  zhash_size = λ h. length (map c_pair h);
  zhash_dup = λ o. o;
  lookup-new = nothing;
  lookup-insert = lookup_last;
  size-new = refl;
  size-insert = insert_one;
  hash_items-text = text_pairs;
  lookup-items = λ h k. refl;
  hash_size-items = λ h. refl;
  lookup-dup = λ o k. refl;
  hash_size-dup = λ o. refl;
  zchunk_new = λ bs. bs;
  zchunk_data = λ c. c;
  zchunk_size = λ c. length c;
  zchunk_dup = λ o. o;
  chunk_data-new = λ bs. refl;
  chunk_size-data = λ c. refl;
  chunk_data-dup = λ o. refl;
  zuuid_new_from = λ bs. (take 16 (bs ++ replicate 16 0), sixteen bs);
  zuuid_data = λ u. u.0;
  zuuid_dup = λ o. o;
  length-uuid_data = λ u. u.1;
  uuid_data-new_from = whole;
  uuid_data-dup = λ o. refl;
  zframe_data = λ f. f;
  zframe_dup = λ o. o;
  frame_data-dup = λ o. refl;
  zmsg_new = [];
  zmsg_frames = λ m. m;
  zmsg_size = λ m. length m;
  zmsg_dup = λ o. o;
  frames-new = refl;
  size-frames = λ m. refl;
  frames-dup = λ o. refl;
  new_frame_memory = λ size. replicate size 0;
  new_msg_memory = λ size. replicate size 165;
  array_memory = λ size. replicate size 90;
  length-new_frame_memory = λ size. length-replicate size 0;
  length-new_msg_memory = λ size. length-replicate size 165;
  length-array_memory = λ size. length-replicate size 90;
  is_router = λ s. s.0;
  incoming = λ s. s.1;
  zframe_recv = pop;
  zmsg_recv = pop_all;
  zmq_msg_recv = pop;
  zsock_rcvmore = λ s. not (is_empty s.1);
  rcvmore-incoming = λ s. refl;
  frame_recv-incoming = pop_frame;
  msg_recv-incoming = pop_message;
  zmq_recv-incoming = pop_bytes;
}
