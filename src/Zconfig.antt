-- ===== src/Zconfig.antt =====
-- What zproto_example_zpl and zproto_example_new_zpl use of CZMQ besides `Czmq`: the tree of
-- configuration items, as one store that all items stand in, and text and frame forms of the
-- containers. The laws are what the documentation promises; of a path they tell only for a path
-- of one name.
pub mod Puts
use zproto.Base.{
  ℕ, ◌≡◌, ◌≢◌, Option, none, some, Bool, true, false, not, ◌&&◌, ◌==◌, List, [], ◌∷◌, ◌++◌, All,
}
use zproto.Base.{same_bytes, lookup, if◌then◌else◌}
use mathlib.Core.Option
use mathlib.Core.List.{map}
use Prim.Native.Char.{code}
use Prim.Native.String.{String}
use zproto.CharArray.{Bytes, c_string}
use zproto.Czmq.{Czmq, IsCString, IsCPair}

-- The characters of a literal.
abbrev pub codes : String → Bytes
codes String.[] = []
codes (String.◌∷◌ c s) = code c ∷ codes s

abbrev pub has_slash : Bytes → Bool
has_slash [] = false
has_slash (c ∷ s) = if c == b'/' then true else has_slash s

abbrev pub is_nil : Bytes → Bool
is_nil [] = true
is_nil (c ∷ s) = false

-- A path of one name: no slash in it, and not empty.
abbrev pub IsName : Bytes → Type 0
IsName n = (has_slash n ≡ false) × (is_nil n ≡ false) × IsCString n

pub record Zconfig (z : Czmq) : Type 1 where
  pub Tree : Type 0
  pub Item : Type 0
  -- The item has been made. `entries` is the name and the value of each child, as zconfig_child
  -- and then zconfig_next go through them.
  pub Live : Tree → Item → Type 0
  pub entries : Tree → Item → List (Bytes × Bytes)
  pub zconfig_new : Tree → Bytes → Option Item → Item × Tree
  pub zconfig_put : Tree → Item → Bytes → Bytes → Tree
  pub zconfig_get : Tree → Item → Bytes → Option Bytes
  pub zconfig_locate : Tree → Item → Bytes → Option Item
  pub get-entries :
      (t : Tree) (i : Item) (n : Bytes)
      → Live t i
      → IsName n
      → zconfig_get t i n ≡ lookup n (entries t i)
  pub locate-entries :
      (t : Tree) (i : Item) (n : Bytes)
      → Live t i
      → IsName n
      → lookup n (entries t i) ≡ none
      → zconfig_locate t i n ≡ none
  -- zconfig_new makes an item with no children, and puts it last among the parent's.
  pub new-Live :
      (t : Tree) (n : Bytes) (p : Option Item) → Live (zconfig_new t n p).1 (zconfig_new t n p).0
  pub new-entries :
      (t : Tree) (n : Bytes) (p : Option Item)
      → entries (zconfig_new t n p).1 (zconfig_new t n p).0 ≡ []
  pub new-fresh :
      (t : Tree) (n : Bytes) (p : Option Item) (j : Item)
      → Live t j
      → Live (zconfig_new t n p).1 j × (j ≢ (zconfig_new t n p).0)
  pub new-parent :
      (t : Tree) (n : Bytes) (p : Item)
      → Live t p
      → IsCString n
      → entries (zconfig_new t n (some p)).1 p ≡ entries t p ++ (n, []) ∷ []
  pub new-locate :
      (t : Tree) (n : Bytes) (p : Item)
      → Live t p
      → IsName n
      → lookup n (entries t p) ≡ none
      → zconfig_locate (zconfig_new t n (some p)).1 p n ≡ some (zconfig_new t n (some p)).0
  pub new-locate_kept :
      (t : Tree) (n : Bytes) (p : Option Item) (j c : Item) (m : Bytes)
      → Live t j
      → zconfig_locate t j m ≡ some c
      → zconfig_locate (zconfig_new t n p).1 j m ≡ some c
  pub new-other :
      (t : Tree) (n : Bytes) (p : Option Item) (j : Item)
      → Live t j
      → p ≢ some j
      → entries (zconfig_new t n p).1 j ≡ entries t j
  -- zconfig_put with a new name puts a child last; it changes nothing elsewhere.
  pub put-Live :
      (t : Tree) (i : Item) (n v : Bytes) (j : Item) → Live t j → Live (zconfig_put t i n v) j
  pub put-entries :
      (t : Tree) (i : Item) (n v : Bytes)
      → Live t i
      → IsName n
      → lookup n (entries t i) ≡ none
      → entries (zconfig_put t i n v) i ≡ entries t i ++ (n, c_string v) ∷ []
  pub put-other :
      (t : Tree) (i : Item) (n v : Bytes) (j : Item)
      → Live t i
      → Live t j
      → IsName n
      → j ≢ i
      → entries (zconfig_put t i n v) j ≡ entries t j
  pub put-locate_kept :
      (t : Tree) (i : Item) (n v : Bytes) (j c : Item) (m : Bytes)
      → Live t i
      → Live t j
      → zconfig_locate t j m ≡ some c
      → zconfig_locate (zconfig_put t i n v) j m ≡ some c
  -- Containers: zhash_update replaces the item of a key that is there.
  pub zhash_update : z.ZHash → Bytes → Bytes → z.ZHash
  pub lookup-update :
      (h : z.ZHash) (k v j : Bytes)
      → z.zhash_lookup (zhash_update h k v) j
        ≡ (if same_bytes (c_string k) j then some (c_string v) else z.zhash_lookup h j)
  pub zframe_new : Bytes → z.ZFrame
  pub frame_data-new : (bs : Bytes) → z.zframe_data (zframe_new bs) ≡ bs
  pub zuuid_new : z.ZUuid
  pub zuuid_str : z.ZUuid → Bytes
  pub zuuid_set_str : z.ZUuid → Bytes → z.ZUuid
  pub uuid_str-text : (u : z.ZUuid) → IsCString (zuuid_str u)
  pub uuid_data-set_str :
      (u v : z.ZUuid) → z.zuuid_data (zuuid_set_str u (zuuid_str v)) ≡ z.zuuid_data v
  -- A message in one frame, and back; NULL for a frame that is none.
  pub zmsg_encode : z.ZMsg → z.ZFrame
  pub zmsg_decode : z.ZFrame → Option z.ZMsg
  pub decode-encode :
      (m : z.ZMsg) (f : z.ZFrame)
      → z.zframe_data f ≡ z.zframe_data (zmsg_encode m)
      → Option.map (λ m'. map z.zframe_data (z.zmsg_frames m')) (zmsg_decode f)
        ≡ some (map z.zframe_data (z.zmsg_frames m))
