-- ===== src/NewZpl/AnyFields.antt =====
-- What zproto_example_new_zpl makes of the fields of each message, in any tree whose octets are
-- hexadecimal.
use zproto.Base.{bits16, bits8}
use zproto.Base.{◌%◌, ◌^◌, ◌≡◌, Option, none, some, All, length, replicate}
use zproto.CharArray.{Bytes}
use zproto.CharArray.Laws.{IsByte}
use zproto.Czmq.{Czmq}
use zproto.Zconfig.{Zconfig, codes}
use zproto.Example.{Example}
use zproto.Example.View.{IsObject}
use zproto.NewZpl.{
  need, read_log, read_structures, read_binary, read_types, read_aliases, read_headers,
  read_identifier,
}
use zproto.NewZpl.Flat.{IsBlank}
use zproto.NewZpl.Safe.{
  Makes, Makes-then, Makes-created, Makes-need, Readable, Makes-number, Makes-string, Makes-bytes,
}

module _ ⦃z : Czmq⦄ ⦃c : Zconfig z⦄ where
  -- As the object is when its fields are read: all arrays are zeros.
  pub record Starts (s : Example z) : Type 0 where
    pub object : IsObject s
    pub host : s.host ≡ replicate 256 0
    pub names : IsBlank s

  aliases-IsObject :
      (t : c.Tree) (o : Option c.Item) (s : Example z) → IsObject s → IsObject (read_aliases t o s)
  unfolding read_aliases
  aliases-IsObject t none s o = o
  aliases-IsObject t (some item) s o = search o

  headers-IsObject :
      (t : c.Tree) (o : Option c.Item) (s : Example z) → IsObject s → IsObject (read_headers t o s)
  unfolding read_headers
  headers-IsObject t none s o = o
  headers-IsObject t (some item) s o = search o

  identifier-IsObject :
      (o : Option Bytes) (s : Example z) → IsObject s → IsObject (read_identifier o s)
  unfolding read_identifier
  identifier-IsObject none s o = o
  identifier-IsObject (some text) s o = search o

  module _ (t : c.Tree) (content : c.Item) (ok : Readable t) where
    pub Makes-log : (s : Example z) → Starts s → Makes IsObject (read_log t content s)
    unfolding read_log
    Makes-log s h =
        let number = Makes-number t content ok in
        Makes-then _ _ _ (number _) λ n1 b1. Makes-then _ _ _ (number _) λ n2 b2.
          Makes-then _ _ _ (number _) λ n3 b3. Makes-then _ _ _ (number _) λ n4 b4.
            Makes-then _ _ _ (number _) λ n5 b5. Makes-then _ _ _ (number _) λ n6 b6.
              Makes-then _ _ _ (Makes-string t content ok _ _ h.host) λ cells a.
                Makes-then _ (need (c.zconfig_get t content (codes "data"))) _ (Makes-need _)
                  λ text e. Makes-created _ _ (let o = h.object in search (o, a, b6, bits16, bits8))

    pub Makes-types : (s : Example z) → Starts s → Makes IsObject (read_types t content s)
    unfolding read_types
    Makes-types s h =
        let string = Makes-string t content ok in
        Makes-then _ _ _ (Makes-number t content ok _) λ n b.
          Makes-then _ _ _ (string _ _ h.names.client_forename) λ c1 a1.
            Makes-then _ _ _ (string _ _ h.names.client_surname) λ c2 a2.
              Makes-then _ _ _ (string _ _ h.names.client_mobile) λ c3 a3.
                Makes-then _ _ _ (string _ _ h.names.client_email) λ c4 a4.
                  Makes-then _ _ _ (string _ _ h.names.supplier_forename) λ c5 a5.
                    Makes-then _ _ _ (string _ _ h.names.supplier_surname) λ c6 a6.
                      Makes-then _ _ _ (string _ _ h.names.supplier_mobile) λ c7 a7.
                        Makes-then _ _ _ (string _ _ h.names.supplier_email) λ c8 a8.
                          Makes-created _ _
                            (let o = h.object in search (o, a1, a2, a3, a4, a5, a6, a7, a8, bits16))

    pub Makes-structures : (s : Example z) → Starts s → Makes IsObject (read_structures t content s)
    unfolding read_structures
    Makes-structures s h = Makes-then _ _ _ (Makes-number t content ok _) λ n b. Makes-created _ _ (
        headers-IsObject t _ _ (
          aliases-IsObject t _ (record s { sequence = n % 2 ^ 16 })
            (let o = h.object in search (o, bits16))))

    pub Makes-binary :
        (assign_array : Bytes → Bytes → Bytes) (s : Example z)
        → ((cells mem : Bytes)
            → (length (assign_array cells mem) ≡ 4) × All IsByte (assign_array cells mem))
        → Starts s
        → Makes IsObject (read_binary t content assign_array s)
    unfolding read_binary
    Makes-binary assign_array s four h =
        let octets = Makes-bytes t content ok in
        Makes-then _ _ _ (Makes-number t content ok _) λ n b.
          Makes-then _ _ _ (octets _ ok.flags) λ m1 b1.
            Makes-then _ _ _ (octets _ ok.public_key) λ m2 b2.
              Makes-then _ _ _ (octets _ ok.address) λ m3 b3.
                Makes-then _ _ _ (octets _ ok.content) λ m4 b4. Makes-created _ _ (
                  let o = h.object in
                  let (l, bs) = four s.flags m1 in
                  let s' : Example z = record s {
                    sequence = n % 2 ^ 16;
                    flags = assign_array s.flags m1;
                    public_key = some (z.zchunk_new m2);
                  } in
                  let i =
                    identifier-IsObject (c.zconfig_get t content (codes "identifier")) s'
                      (search (o, bits16, l, bs)) in
                  search i)
