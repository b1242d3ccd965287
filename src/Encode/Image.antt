-- ===== src/Encode/Image.antt =====
-- The bytes of each message, as a specification: the protocol's fields in order.
use zproto.Base.{ℕ, ◌≡◌, refl, Option, none, some, List, [], ◌∷◌, ◌++◌, length, append-nil, ◌==◌}
use zproto.CharArray.{Bytes, c_string}
use zproto.Put.{Put}
use zproto.Put.Writes.{
  Writes, Writes-write, Writes-then, Writes-skip, Writes-octets, Writes-if, big_endian,
}
use zproto.Put.Writes.{Writes-number1, Writes-number2, Writes-number4, Writes-number8}
use zproto.Put.Writes.{Writes-string, Writes-longstr, short_string, long_string}
use zproto.Czmq.{Czmq}
use zproto.Example.{Example, switch, id_log, id_structures, id_binary, id_types}
use zproto.Example.View.{text_of, alias_list, header_list, key_bytes, uuid_bytes}
use zproto.Encode.{put_strings, put_pairs, put_text, put_log, put_aliases, put_headers, put_uuid}
use zproto.Encode.{put_structures, put_chunk, put_binary, put_types, serialize}

abbrev pub strings_image : List Bytes → Bytes
strings_image [] = []
strings_image (s ∷ rest) = long_string (c_string s) ++ strings_image rest

abbrev pub pairs_image : List (Bytes × Bytes) → Bytes
pairs_image [] = []
pairs_image ((k, v) ∷ rest) =
    short_string (c_string k) ++ (long_string (c_string v) ++ pairs_image rest)

module _ ⦃z : Czmq⦄ where
  unfoldable pub log_image : Example z → Bytes
  log_image self =
      big_endian 2 self.sequence
      ++ (big_endian 2 3
          ++ (big_endian 1 self.level
              ++ (big_endian 1 self.event
                  ++ (big_endian 2 self.node
                      ++ (big_endian 2 self.peer
                          ++ (big_endian 8 self.time
                              ++ (short_string (c_string self.host)
                                  ++ long_string (text_of self.text))))))))

  unfoldable pub structures_image : Example z → Bytes
  structures_image self =
      let names = alias_list self.aliases in
      let pairs = header_list self.headers in
      big_endian 2 self.sequence
      ++ ((big_endian 4 (length names) ++ strings_image names)
          ++ (big_endian 4 (length pairs) ++ pairs_image pairs))

  unfoldable pub binary_image : Example z → Bytes
  binary_image self =
      let key = key_bytes self.public_key in
      big_endian 2 self.sequence
      ++ (self.flags ++ ((big_endian 4 (length key) ++ key) ++ uuid_bytes self.identifier))

  unfoldable pub types_image : Example z → Bytes
  types_image self =
      big_endian 2 self.sequence
      ++ (short_string (c_string self.client_forename)
          ++ (short_string (c_string self.client_surname)
              ++ (short_string (c_string self.client_mobile)
                  ++ (short_string (c_string self.client_email)
                      ++ (short_string (c_string self.supplier_forename)
                          ++ (short_string (c_string self.supplier_surname)
                              ++ (short_string (c_string self.supplier_mobile)
                                  ++ short_string (c_string self.supplier_email))))))))

  unfoldable pub image : Example z → Bytes
  image self =
      big_endian 2 0xAAA0
      ++ (big_endian 1 self.id
          ++ switch self.id (log_image self) (structures_image self) (binary_image self)
              (types_image self) [])

ruleset writes_rules = (
  Writes-write, Writes-then, Writes-skip, Writes-octets, Writes-number1, Writes-number2,
  Writes-number4, Writes-number8, Writes-string, Writes-longstr,
)

Writes-strings : (l : List Bytes) → Writes (put_strings l) (strings_image l)
unfolding put_strings
Writes-strings [] = Writes-skip
Writes-strings (s ∷ rest) = Writes-then (Writes-longstr s) (Writes-strings rest)

Writes-pairs : (l : List (Bytes × Bytes)) → Writes (put_pairs l) (pairs_image l)
unfolding put_pairs
Writes-pairs [] = Writes-skip
Writes-pairs ((k, v) ∷ rest) =
    Writes-then (Writes-string k) (Writes-then (Writes-longstr v) (Writes-pairs rest))

Writes-text : (o : Option Bytes) → Writes (put_text o) (long_string (text_of o))
unfolding put_text long_string big_endian
Writes-text none = Writes-number4 0
Writes-text (some text) = Writes-longstr text

module _ ⦃z : Czmq⦄ where
  Writes-log : (self : Example z) → Writes (put_log self) (log_image self)
  unfolding put_log log_image
  Writes-log self = search (writes_rules, Writes-text) depth 12

  Writes-aliases :
      (o : Option z.ZList)
      → Writes
          (put_aliases o)
          (big_endian 4 (length (alias_list o)) ++ strings_image (alias_list o))
  unfolding put_aliases
  Writes-aliases none = rw append-nil (Writes-number4 0)
  Writes-aliases (some list) =
      rw (z.size-items list) (Writes-then (Writes-number4 _) (Writes-strings (z.zlist_items list)))

  Writes-headers :
      (o : Option z.ZHash)
      → Writes
          (put_headers o)
          (big_endian 4 (length (header_list o)) ++ pairs_image (header_list o))
  unfolding put_headers
  Writes-headers none = rw append-nil (Writes-number4 0)
  Writes-headers (some hash) =
      rw (z.hash_size-items hash)
        (Writes-then (Writes-number4 _) (Writes-pairs (z.zhash_items hash)))

  Writes-structures : (self : Example z) → Writes (put_structures self) (structures_image self)
  unfolding put_structures structures_image
  Writes-structures self =
      Writes-then (Writes-number2 _)
        (Writes-then (Writes-aliases self.aliases) (Writes-headers self.headers))

  Writes-chunk :
      (o : Option z.ZChunk)
      → Writes (put_chunk o) (big_endian 4 (length (key_bytes o)) ++ key_bytes o)
  unfolding put_chunk
  Writes-chunk none = rw append-nil (Writes-number4 0)
  Writes-chunk (some chunk) =
      rw (z.chunk_size-data chunk)
        (Writes-then (Writes-number4 _) (Writes-octets (z.zchunk_data chunk) _ refl))

  Writes-uuid : (o : Option z.ZUuid) → Writes (put_uuid o) (uuid_bytes o)
  unfolding put_uuid
  Writes-uuid none = Writes-write _
  Writes-uuid (some uuid) = Writes-write _

  Writes-binary :
      (self : Example z) → length self.flags ≡ 4 → Writes (put_binary self) (binary_image self)
  unfolding put_binary binary_image
  Writes-binary self h = Writes-then (Writes-number2 _) (
      Writes-then (Writes-octets self.flags 4 h)
        (Writes-then (Writes-chunk self.public_key) (Writes-uuid self.identifier)))

  Writes-types : (self : Example z) → Writes (put_types self) (types_image self)
  unfolding put_types types_image
  Writes-types self = search writes_rules depth 12

  Writes-switch :
      (n : ℕ) {a b c d e : Put} {as' bs cs ds es : Bytes}
      → Writes a as'
      → Writes b bs
      → Writes c cs
      → Writes d ds
      → Writes e es
      → Writes (switch n a b c d e) (switch n as' bs cs ds es)
  Writes-switch n wa wb wc wd we = Writes-if (n == id_log) wa (
      Writes-if (n == id_structures) wb
        (Writes-if (n == id_binary) wc (Writes-if (n == id_types) wd we)))

  -- Serializing appends the image of the message to the frame, where there is room for it.
  pub Writes-serialize :
      (self : Example z) → length self.flags ≡ 4 → Writes (serialize self) (image self)
  unfolding serialize image
  Writes-serialize self h = Writes-then (Writes-number2 _) (
      Writes-then (Writes-number1 _) (
        Writes-switch self.id (Writes-log self) (Writes-structures self) (Writes-binary self h)
          (Writes-types self) Writes-skip))
