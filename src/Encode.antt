-- ===== src/Encode.antt =====
-- zproto_example_encode of src/zproto_example.c: the size of the first frame, and its bytes. The
-- same text stands in zproto_example_send.
pub mod Image
pub mod Exact
use zproto.Base.{ℕ, ◌+◌, Option, none, some, List, [], ◌∷◌, ◌++◌, replicate}
use zproto.CharArray.{Bytes, strlen}
use zproto.Put.{Frame, Put, fresh, ◌>>◌, skip, write, put_octets}
use zproto.Put.{put_number1, put_number2, put_number4, put_number8, put_string, put_longstr}
use zproto.Czmq.{Czmq}
use zproto.Example.{Example, switch}

-- frame_size += 4 + strlen (aliases), over the list
unfoldable pub add_aliases : ℕ → List Bytes → ℕ
add_aliases size [] = size
add_aliases size (s ∷ rest) = add_aliases (size + (4 + strlen s)) rest

-- self->headers_bytes += 1 + strlen (key), += 4 + strlen (item), over the table
unfoldable pub add_headers : ℕ → List (Bytes × Bytes) → ℕ
add_headers size [] = size
add_headers size ((key, item) ∷ rest) =
    add_headers (size + (1 + strlen key) + (4 + strlen item)) rest

unfoldable pub put_strings : List Bytes → Put
put_strings [] = skip
put_strings (s ∷ rest) = put_longstr s >> put_strings rest

unfoldable pub put_pairs : List (Bytes × Bytes) → Put
put_pairs [] = skip
put_pairs ((key, item) ∷ rest) = put_string key >> put_longstr item >> put_pairs rest

unfoldable pub put_text : Option Bytes → Put
put_text none = put_number4 0
put_text (some text) = put_longstr text

unfoldable pub text_size : Option Bytes → ℕ
text_size none = 0
text_size (some text) = strlen text

module _ ⦃z : Czmq⦄ where
  -- The value of `frame_size`, and the object with the `headers_bytes` that it assigns.
  unfoldable pub log_size : Example z → ℕ
  log_size self =
      2 + 1 + 2 + 2 + 1 + 1 + 2 + 2 + 8 + (1 + strlen self.host) + 4 + text_size self.text

  unfoldable pub aliases_size : ℕ → Option z.ZList → ℕ
  aliases_size size none = size
  aliases_size size (some list) = add_aliases size (z.zlist_items list)

  unfoldable pub count_headers : Example z → Option z.ZHash → Example z
  count_headers self none = self
  count_headers self (some hash) = record self {
    headers_bytes = add_headers 0 (z.zhash_items hash);
  }

  unfoldable pub structures_size : Example z → ℕ × Example z
  structures_size self =
      let self' = count_headers self self.headers in
      (aliases_size (2 + 1 + 2 + 4) self.aliases + 4 + self'.headers_bytes, self')

  unfoldable pub chunk_bytes : Option z.ZChunk → ℕ
  chunk_bytes none = 0
  chunk_bytes (some chunk) = z.zchunk_size chunk

  unfoldable pub binary_size : Example z → ℕ
  binary_size self = 2 + 1 + 2 + 4 + 4 + chunk_bytes self.public_key + 16

  unfoldable pub types_size : Example z → ℕ
  types_size self =
      2
      + 1
      + 2
      + (1 + strlen self.client_forename)
      + (1 + strlen self.client_surname)
      + (1 + strlen self.client_mobile)
      + (1 + strlen self.client_email)
      + (1 + strlen self.supplier_forename)
      + (1 + strlen self.supplier_surname)
      + (1 + strlen self.supplier_mobile)
      + (1 + strlen self.supplier_email)

  unfoldable pub frame_size : Example z → ℕ × Example z
  frame_size self =
      switch self.id (log_size self, self) (structures_size self) (binary_size self, self)
        (types_size self, self) (2 + 1, self)

  unfoldable pub put_log : Example z → Put
  put_log self =
      put_number2 self.sequence
      >> put_number2 3
      >> put_number1 self.level
      >> put_number1 self.event
      >> put_number2 self.node
      >> put_number2 self.peer
      >> put_number8 self.time
      >> put_string self.host
      >> put_text self.text

  unfoldable pub put_aliases : Option z.ZList → Put
  put_aliases none = put_number4 0
  put_aliases (some list) = put_number4 (z.zlist_size list) >> put_strings (z.zlist_items list)

  unfoldable pub put_headers : Option z.ZHash → Put
  put_headers none = put_number4 0
  put_headers (some hash) = put_number4 (z.zhash_size hash) >> put_pairs (z.zhash_items hash)

  unfoldable pub put_structures : Example z → Put
  put_structures self =
      put_number2 self.sequence >> put_aliases self.aliases >> put_headers self.headers

  unfoldable pub put_chunk : Option z.ZChunk → Put
  put_chunk none = put_number4 0
  put_chunk (some chunk) =
      put_number4 (z.zchunk_size chunk) >> put_octets (z.zchunk_data chunk) (z.zchunk_size chunk)

  -- zuuid_export, or memset by zeros
  unfoldable pub put_uuid : Option z.ZUuid → Put
  put_uuid none = write (replicate 16 0)
  put_uuid (some uuid) = write (z.zuuid_data uuid)

  unfoldable pub put_binary : Example z → Put
  put_binary self =
      put_number2 self.sequence
      >> put_octets self.flags 4
      >> put_chunk self.public_key
      >> put_uuid self.identifier

  unfoldable pub put_types : Example z → Put
  put_types self =
      put_number2 self.sequence
      >> put_string self.client_forename
      >> put_string self.client_surname
      >> put_string self.client_mobile
      >> put_string self.client_email
      >> put_string self.supplier_forename
      >> put_string self.supplier_surname
      >> put_string self.supplier_mobile
      >> put_string self.supplier_email

  -- "Now serialize message into the frame"
  unfoldable pub serialize : Example z → Put
  serialize self =
      put_number2 0xAAA0
      >> put_number1 self.id
      >> switch self.id (put_log self) (put_structures self) (put_binary self) (put_types self) skip

  -- The frame as it is returned: what was written, and what nothing was written to.
  unfoldable pub finish : Option Frame → Example z → Option (Bytes × Example z)
  finish none self = none
  finish (some f) self = some (f.done ++ f.room, self)

  unfoldable pub encode : Example z → Option (Bytes × Example z)
  encode self =
      let (size, self') = frame_size self in
      finish (serialize self' (fresh (z.new_frame_memory size))) self'
