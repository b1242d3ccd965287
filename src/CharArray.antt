-- ===== src/CharArray.antt =====
-- The fixed `char [256]` fields of the message (zproto_example.c, struct _zproto_example_t) and
-- the C string functions that the code applies to them. A byte is a number; an array is the list
-- of its cells. A write past the end of an array is a fault, `none`.
pub mod Laws
use zproto.Base.{ℕ, zero, suc, ◌-◌, ◌≡◌, Option, none, some, List, [], ◌∷◌, ◌++◌}
use zproto.Base.{◌==◌, ltb, if◌then◌else◌, length, take, drop, set, replicate}

abbrev pub Bytes : Type 0
Bytes = List ℕ

-- `char host [256]` and its like
abbrev pub array_size : ℕ
array_size = 256

-- What `strlen`, `strcpy` and `%s` see of a block: the bytes before the first NUL.
unfoldable pub c_string : Bytes → Bytes
c_string [] = []
c_string (b ∷ bs) = let rest = c_string bs in if b == 0 then [] else b ∷ rest

-- strlen
unfoldable pub strlen : Bytes → ℕ
strlen s = length (c_string s)

-- Writing `bs` over the front of `cells`.
unfoldable pub memcpy : Bytes → Bytes → Option Bytes
memcpy cells bs =
    if ltb (length cells) (length bs) then none else some (bs ++ drop (length bs) cells)

-- `cells [i] = b`
unfoldable pub store : Bytes → ℕ → ℕ → Option Bytes
store cells i b = if ltb i (length cells) then some (set cells i b) else none

-- strncpy (cells, value, n): at most `n` bytes of the C string, the rest of the `n` padded by NUL.
unfoldable pub strncpy : Bytes → Bytes → ℕ → Option Bytes
strncpy cells value n =
    let copied = take n (c_string value) in memcpy cells (copied ++ replicate (n - length copied) 0)

-- A `char *` handed to a setter: the field's own array, or another block.
pub data Source : Type 0 where
  itself : Source
  block : Bytes → Source

-- The body that zproto_example_set_host and the other setters of a `char [256]` field share.
unfoldable pub set_array : Bytes → Source → Option Bytes
set_array cells itself = some cells
set_array cells (block value) = elim (strncpy cells value 255) [
  | none ↦ none
  | some copied ↦ store copied 255 0
]

-- The end of GET_STRING: memcpy ((host), self->needle, string_size); (host) [string_size] = 0;
unfoldable pub fill_array : Bytes → Bytes → Option Bytes
fill_array cells bs = elim (memcpy cells bs) [
  | none ↦ none
  | some copied ↦ store copied (length bs) 0
]
