-- ===== src/Lifetime.antt =====
-- The life of an object of src/zproto_example.c as its callers see it: made by zproto_example_new
-- or zproto_example_new_zpl, and handed to one function of the class after another.
pub mod Safe
use zproto.Base.{ℕ, ◌≡◌, Bool, Option, some, List, ◌∷◌, All, length}
use zproto.CharArray.{Bytes, block}
use zproto.CharArray.Laws.{IsByte}
use zproto.Czmq.{Czmq}
use zproto.Zconfig.{Zconfig}
use zproto.Example.{Example, new}
use zproto.Access.Numbers.{set_id, set_sequence, set_level, set_event, set_node, set_peer, set_time}
use zproto.Access.Strings.{set_text, set_flags}
use zproto.Access.Owned.{
  set_routing_id, set_identifier, get_identifier, get_aliases, set_aliases, get_headers,
  set_headers, get_public_key, set_public_key, get_address, set_address, get_content, set_content,
}
use zproto.Access.StringFields.{Field, setter}
use zproto.Encode.{encode}
use zproto.Send.{Calls, send}
use zproto.Recv.{recv}
use zproto.Dup.{dup}
use zproto.NewZpl.{created, new_zpl}
use zproto.NewZpl.Safe.{Readable}

module _ ⦃z : Czmq⦄ ⦃c : Zconfig z⦄ where
  -- A call, on the object before it and after it. Of dup the caller goes on with the copy.
  pub data Step : Example z → Example z → Type 0 where
    sets_id : (s : Example z) (n : ℕ) → Step s (set_id s n)
    sets_sequence : (s : Example z) (n : ℕ) → Step s (set_sequence s n)
    sets_level : (s : Example z) (n : ℕ) → Step s (set_level s n)
    sets_event : (s : Example z) (n : ℕ) → Step s (set_event s n)
    sets_node : (s : Example z) (n : ℕ) → Step s (set_node s n)
    sets_peer : (s : Example z) (n : ℕ) → Step s (set_peer s n)
    sets_time : (s : Example z) (n : ℕ) → Step s (set_time s n)
    sets_field :
        (s s' : Example z) (field : Field) (value : Bytes)
        → All IsByte value
        → setter field s (block value) ≡ some s'
        → Step s s'
    sets_text : (s : Example z) (value : Bytes) → Step s (set_text s value)
    sets_flags :
        (s s' : Example z) (value : Bytes)
        → All IsByte value
        → set_flags s value ≡ some s'
        → Step s s'
    sets_routing_id : (s : Example z) (frame : Option z.ZFrame) → Step s (set_routing_id s frame).0
    sets_identifier : (s : Example z) (uuid : Option z.ZUuid) → Step s (set_identifier s uuid).0
    sets_aliases : (s : Example z) (p : Option z.ZList) → Step s (set_aliases s p).0
    sets_headers : (s : Example z) (p : Option z.ZHash) → Step s (set_headers s p).0
    sets_public_key : (s : Example z) (p : Option z.ZChunk) → Step s (set_public_key s p).0
    sets_address : (s : Example z) (p : Option z.ZFrame) → Step s (set_address s p).0
    sets_content : (s : Example z) (p : Option z.ZMsg) → Step s (set_content s p).0
    gets_identifier : (s : Example z) → Step s (get_identifier s).1
    gets_aliases : (s : Example z) → Step s (get_aliases s).1
    gets_headers : (s : Example z) → Step s (get_headers s).1
    gets_public_key : (s : Example z) → Step s (get_public_key s).1
    gets_address : (s : Example z) → Step s (get_address s).1
    gets_content : (s : Example z) → Step s (get_content s).1
    encodes : (s s' : Example z) (frame : Bytes) → encode s ≡ some (frame, s') → Step s s'
    sends :
        (s s' : Example z) (router : Bool) (calls : Calls)
        → send s router ≡ some (calls, s')
        → Step s s'
    receives :
        (s : Example z) (input : z.ZSock) (frame : Bytes) (rest : List Bytes)
        → All (All IsByte) (frame ∷ rest)
        → z.incoming input ≡ frame ∷ rest
        → Step s (recv s input).1.object
    duplicates : (s s' : Example z) → dup s ≡ some s' → Step s s'

  -- The assignment to the array leaves four bytes in it.
  abbrev pub KeepsFour : (Bytes → Bytes → Bytes) → Type 0
  KeepsFour assign_array =
      (cells mem : Bytes)
      → (length (assign_array cells mem) ≡ 4) × All IsByte (assign_array cells mem)

  -- The objects that any calls lead to.
  pub data Reached : Example z → Type 0 where
    made : Reached new
    imported :
        (assign_array : Bytes → Bytes → Bytes) (t : c.Tree) (config : c.Item) (s : Example z)
        → KeepsFour assign_array
        → Readable t
        → new_zpl assign_array t config ≡ created s
        → Reached s
    after : (s s' : Example z) → Reached s → Step s s' → Reached s'
