-- ===== src/Encode/Exact.antt =====
-- The size that is allocated for the first frame, against the bytes that are written to it.
use zproto.Base.{
  ◌∙◌, ap, ℕ, ◌+◌, ◌≡◌, refl, Option, none, some, List, [], ◌∷◌, ◌++◌, length, drop, arith,
}
use zproto.Base.{length-drop}
use zproto.CharArray.{Bytes, c_string, strlen}
use zproto.Put.{fresh}
use zproto.Put.Writes.{big_endian}
use zproto.Put.Writes.{lengths}
use zproto.Czmq.{Czmq}
use zproto.Example.{Example, switch}
use zproto.Encode.{add_aliases, add_headers, text_size, log_size, aliases_size, count_headers}
use zproto.Encode.{
  structures_size, chunk_bytes, binary_size, types_size, frame_size, serialize, finish, encode,
}
use zproto.Example.View.{further_frames, text_of, alias_list, header_list, key_bytes, uuid_bytes}
use zproto.Encode.Image.{strings_image, pairs_image}
use zproto.Encode.Image.{
  log_image, structures_image, binary_image, types_image, image, Writes-serialize,
}

add_aliases-image : (n : ℕ) (l : List Bytes) → add_aliases n l ≡ n + length (strings_image l)
unfolding add_aliases strlen
add_aliases-image n [] = omega arith
add_aliases-image n (s ∷ rest) =
    omega (lengths, add_aliases-image (n + (4 + length (c_string s))) rest)

add_headers-image :
    (n : ℕ) (l : List (Bytes × Bytes)) → add_headers n l ≡ n + length (pairs_image l)
unfolding add_headers strlen
add_headers-image n [] = omega arith
add_headers-image n ((k, v) ∷ rest) =
    omega
      (lengths, add_headers-image (n + (1 + length (c_string k)) + (4 + length (c_string v))) rest)

text_size_lem : (o : Option Bytes) → text_size o ≡ length (text_of o)
unfolding text_size strlen
text_size_lem none = refl
text_size_lem (some text) = refl

module _ ⦃z : Czmq⦄ where
  log_size-image : (self : Example z) → log_size self ≡ 3 + length (log_image self)
  unfolding log_size log_image strlen
  log_size-image self = omega (lengths, text_size_lem self.text)

  types_size-image : (self : Example z) → types_size self ≡ 3 + length (types_image self)
  unfolding types_size types_image strlen
  types_size-image self = omega lengths

  chunk_bytes-image : (o : Option z.ZChunk) → chunk_bytes o ≡ length (key_bytes o)
  unfolding chunk_bytes
  chunk_bytes-image none = refl
  chunk_bytes-image (some chunk) = z.chunk_size-data chunk

  length-uuid_bytes : (o : Option z.ZUuid) → length (uuid_bytes o) ≡ 16
  length-uuid_bytes none = refl
  length-uuid_bytes (some uuid) = z.length-uuid_data uuid

  binary_size-image :
      (self : Example z) → length self.flags ≡ 4 → binary_size self ≡ 3 + length (binary_image self)
  unfolding binary_size binary_image
  binary_size-image self h =
      omega (lengths, h, chunk_bytes-image self.public_key, length-uuid_bytes self.identifier)

  aliases_size-image :
      (n : ℕ) (o : Option z.ZList) → aliases_size n o ≡ n + length (strings_image (alias_list o))
  unfolding aliases_size
  aliases_size-image n none = omega arith
  aliases_size-image n (some list) = add_aliases-image n (z.zlist_items list)

  -- With no table at hand `headers_bytes` keeps the value that an earlier call left there.
  abbrev pub stale_bytes : Example z → Option z.ZHash → ℕ
  stale_bytes self none = self.headers_bytes
  stale_bytes self (some hash) = 0

  -- What the size counts beyond the headers that the message has.
  abbrev pub leftover : Example z → ℕ
  leftover self = switch self.id 0 (stale_bytes self self.headers) 0 0 0

  headers_bytes-image :
      (self : Example z) (o : Option z.ZHash)
      → (count_headers self o).headers_bytes
        ≡ length (pairs_image (header_list o)) + stale_bytes self o
  unfolding count_headers
  headers_bytes-image self none = omega arith
  headers_bytes-image self (some hash) = omega (arith, add_headers-image 0 (z.zhash_items hash))

  structures_size-image :
      (self : Example z)
      → (structures_size self).0
        ≡ 3 + length (structures_image self) + stale_bytes self self.headers
  unfolding structures_size structures_image
  structures_size-image self =
      omega (lengths, headers_bytes-image self self.headers, aliases_size-image 9 self.aliases)

  length-head :
      (n : ℕ) (s : Bytes) → length (big_endian 2 0xAAA0 ++ (big_endian 1 n ++ s)) ≡ 3 + length s
  length-head n s = omega lengths

  -- The first frame has room for the image, and beyond it for the leftover bytes and no more.
  frame_size-image :
      (self : Example z)
      → length self.flags ≡ 4
      → (frame_size self).0 ≡ length (image self) + leftover self
  unfolding frame_size image
  frame_size-image self h = ground (
    arith,
    length-head self.id (log_image self),
    length-head self.id (structures_image self),
    length-head self.id (binary_image self),
    length-head self.id (types_image self),
    length-head self.id [],
    log_size-image self,
    structures_size-image self,
    binary_size-image self h,
    types_size-image self,
  )

  image-count_headers :
      (self : Example z) (o : Option z.ZHash) → image (count_headers self o) ≡ image self
  unfolding count_headers image log_image structures_image binary_image types_image
  image-count_headers self none = refl
  image-count_headers self (some hash) = refl

  pub image-frame_size : (self : Example z) → image (frame_size self).1 ≡ image self
  unfolding frame_size structures_size
  image-frame_size self = ground (arith, image-count_headers self self.headers)

  flags-frame_size : (self : Example z) → (frame_size self).1.flags ≡ self.flags
  unfolding frame_size structures_size count_headers
  flags-frame_size self = ground arith

  pub further-frame_size :
      (self : Example z) → further_frames (frame_size self).1 ≡ further_frames self
  unfolding frame_size structures_size count_headers
  further-frame_size self = ground arith

  pub routing_id-frame_size : (self : Example z) → (frame_size self).1.routing_id ≡ self.routing_id
  unfolding frame_size structures_size count_headers
  routing_id-frame_size self = ground arith

  pub content-frame_size : (self : Example z) → (frame_size self).1.content ≡ self.content
  unfolding frame_size structures_size count_headers
  content-frame_size self = ground arith

  -- Whatever the memory of its size holds, serializing fits in the frame: what is left behind the image is `leftover` bytes.
  pub serialize_lem :
      (self : Example z) (memory : Bytes)
      → length self.flags ≡ 4
      → length memory ≡ (frame_size self).0
      → (tail : Bytes) × (serialize (frame_size self).1 (fresh memory)
          ≡ some (record { done = image self; room = tail }))
        × (length tail ≡ leftover self)
  serialize_lem self memory h long =
      let self' = (frame_size self).1 in
      let fits = frame_size-image self h in
      (
        drop (length (image self)) memory,
        ground (
          arith,
          (Writes-serialize self' (ap length (flags-frame_size self) ∙ h)).run (fresh memory),
          image-frame_size self,
          fits,
          long,
        ),
        omega (arith, length-drop (length (image self)) memory),
      )

  -- zproto_example_encode never writes past the frame that it allocates: it returns the image of
  -- the message, and behind it as many bytes that it has not written as `leftover` counts.
  pub encode_lem :
      (self : Example z)
      → length self.flags ≡ 4
      → (tail : Bytes) × (encode self ≡ some (image self ++ tail, (frame_size self).1))
        × (length tail ≡ leftover self)
  unfolding encode finish
  encode_lem self h =
      let (tail, e, l) = serialize_lem self _ h (z.length-new_frame_memory (frame_size self).0) in
      (tail, rw e, l)
