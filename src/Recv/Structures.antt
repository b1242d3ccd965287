-- ===== src/Recv/Structures.antt =====
-- The STRUCTURES message read back: the two loops, and what the containers then hold.
use zproto.Base.{◌^◌, ◌<◌, ◌≡◌, refl, ◌∙◌, Option, none, some, List, [], ◌∷◌, ◌++◌, arith}
use zproto.Base.{length, All, append-nil, append_assoc, lookup}
use zproto.CharArray.{Bytes, c_string, array_size}
use zproto.CharArray.Laws.{
  filled, fill_array_lem, c_string-c_string, c_string-append_nul, length-c_string,
}
use zproto.Put.Writes.{big_endian}
use zproto.Base.{All_mono}
use zproto.Get.Runs.{Runs, Runs-bind, Runs-modify_then, Runs-gets_then, Runs-demand_then, Runs-pure}
use zproto.Get.Runs.{Runs-number2, Runs-number4, Runs-string, Runs-longstr}
use zproto.Czmq.{Czmq, or_else, IsCString, IsCPair}
use zproto.Example.{Example}
use zproto.Example.View.{IsObject, Fits, alias_list, header_list}
use zproto.Encode.Image.{strings_image, pairs_image, structures_image}
use zproto.Recv.{Receiver, assign, recv_aliases, recv_headers, recv_structures}

module _ ⦃z : Czmq⦄ where
  abbrev pub with_aliases : z.ZList → Example z → Example z
  with_aliases list s = record s { aliases = some list }

  abbrev pub with_headers : z.ZHash → Example z → Example z
  with_headers hash s = record s { headers = some hash }

  pub append_all : z.ZList → List Bytes → z.ZList
  append_all list [] = list
  append_all list (s ∷ rest) = append_all (z.zlist_append list (c_string (c_string s))) rest

  pub Runs-aliases :
      (l : List Bytes) (list : z.ZList) (r : Receiver)
      → All (λ s. length (c_string s) < 2 ^ 32) l
      → Runs
          (recv_aliases (length l))
          (assign (with_aliases list) r)
          (strings_image l)
          tt
          (assign (with_aliases (append_all list l)) r)
  unfolding recv_aliases append_all
  Runs-aliases [] list r h = Runs-pure tt _
  Runs-aliases (s ∷ rest) list r h = Runs-bind _ _ (Runs-longstr _ _ h.0) (
      Runs-gets_then _ _
        (Runs-demand_then _ _ refl (Runs-modify_then _ _ (Runs-aliases rest _ r h.1))))

  pub insert_all : z.ZHash → List (Bytes × Bytes) → z.ZHash
  insert_all hash [] = hash
  insert_all hash ((k, v) ∷ rest) =
      insert_all
        (z.zhash_insert hash (c_string (filled (z.array_memory array_size) (c_string k)))
          (c_string (c_string v)))
        rest

  Runs-headers :
      (l : List (Bytes × Bytes)) (hash : z.ZHash) (r : Receiver)
      → All (λ p. (length (c_string p.0) < 2 ^ 8) × (length (c_string p.1) < 2 ^ 32)) l
      → Runs
          (recv_headers (length l))
          (assign (with_headers hash) r)
          (pairs_image l)
          tt
          (assign (with_headers (insert_all hash l)) r)
  unfolding recv_headers insert_all
  Runs-headers [] hash r h = Runs-pure tt _
  Runs-headers ((k, v) ∷ rest) hash r h =
      Runs-bind _ _
        (Runs-string _ _ _ _ h.0.0
          (fill_array_lem _ (c_string k) (omega (arith, z.length-array_memory array_size))))
        (Runs-bind _ _ (Runs-longstr _ _ h.0.1) (
          Runs-gets_then _ _
            (Runs-demand_then _ _ refl (Runs-modify_then _ _ (Runs-headers rest _ r h.1)))))

  pub short :
      (l : List Bytes) → All (λ s. length s < 2 ^ 32) l → All (λ s. length (c_string s) < 2 ^ 32) l
  short l h = All_mono l (λ s k. omega (arith, length-c_string s)) h

  pub short_pairs :
      (l : List (Bytes × Bytes))
      → All (λ p. (length p.0 < 2 ^ 8) × (length p.1 < 2 ^ 32)) l
      → All (λ p. (length (c_string p.0) < 2 ^ 8) × (length (c_string p.1) < 2 ^ 32)) l
  short_pairs l h = All_mono l (λ p k. omega (arith, length-c_string p.0, length-c_string p.1)) h

  abbrev pub structures_received : Example z → Example z → Example z
  structures_received self s = record s {
    sequence = self.sequence;
    aliases = some (append_all z.zlist_new (alias_list self.aliases));
    headers = some (insert_all z.zhash_new (header_list self.headers));
  }

  pub Runs-structures :
      (self : Example z) (r : Receiver)
      → IsObject self
      → Fits self
      → Runs recv_structures r (structures_image self) tt (assign (structures_received self) r)
  unfolding recv_structures structures_image
  Runs-structures self r v f =
      let names = alias_list self.aliases in
      let pairs = header_list self.headers in
      let r' : Receiver = assign (λ s. record s { sequence = self.sequence }) r in
      rw (append_assoc (big_endian 4 (length names)) (strings_image names) _) (
        Runs-bind _ _ (Runs-number2 _ _ v.sequence) (
          Runs-modify_then _ _ (
            Runs-bind _ _ (Runs-number4 _ _ f.alias_count) (
              Runs-modify_then _ _ (
                Runs-bind _ _ (Runs-aliases names z.zlist_new r' (short names f.aliases)) (
                  Runs-bind _ _ (Runs-number4 _ _ f.header_count) (
                    Runs-modify_then _ _ (
                      Runs-headers pairs z.zhash_new
                        (assign (with_aliases (append_all z.zlist_new names)) r')
                        (short_pairs pairs f.headers)))))))))

  -- The list that is received holds the strings in their order.
  items-append_all :
      (list : z.ZList) (l : List Bytes)
      → All IsCString l
      → z.zlist_items (append_all list l) ≡ z.zlist_items list ++ l
  unfolding append_all
  items-append_all list [] h = rw append-nil
  items-append_all list (s ∷ rest) h = rw (
    h.0,
    h.0,
    items-append_all (z.zlist_append list s) rest h.1,
    z.items-append,
    append_assoc,
    h.0,
  )

  pub items-received :
      (o : Option z.ZList) → z.zlist_items (append_all z.zlist_new (alias_list o)) ≡ alias_list o
  items-received o = items-append_all z.zlist_new (alias_list o) (texts o) ∙ rw z.items-new
    where
      texts : (o : Option z.ZList) → All IsCString (alias_list o)
      texts none = tt
      texts (some list) = z.items-text list

  -- A key of the table that is received has the first value that was sent with it.
  lookup-insert_all :
      (hash : z.ZHash) (l : List (Bytes × Bytes)) (key : Bytes)
      → All IsCPair l
      → z.zhash_lookup (insert_all hash l) key ≡ or_else (z.zhash_lookup hash key) (lookup key l)
  unfolding insert_all lookup
  lookup-insert_all hash [] key h = ground arith
  lookup-insert_all hash ((k, v) ∷ rest) key h =
      let k' = c_string (filled (z.array_memory array_size) (c_string k)) in
      let e : k' ≡ k = c_string-append_nul (c_string k) _ ∙ (c_string-c_string k ∙ h.0.0) in
      let e' : c_string (c_string v) ≡ v = c_string-c_string v ∙ h.0.1 in
      rw
        (
          e,
          e',
          lookup-insert_all (z.zhash_insert hash k v) rest key h.1,
          z.lookup-insert hash k v key,
        )
        (ground (arith, h.0.0, h.0.1))

  pub lookup-received :
      (o : Option z.ZHash) (key : Bytes)
      → lookup key (z.zhash_items (insert_all z.zhash_new (header_list o)))
        ≡ lookup key (header_list o)
  lookup-received o key =
      rw (← z.lookup-items (insert_all z.zhash_new (header_list o)) key)
        (lookup-insert_all z.zhash_new (header_list o) key (texts o) ∙ rw z.lookup-new)
    where
      texts : (o : Option z.ZHash) → All IsCPair (header_list o)
      texts none = tt
      texts (some hash) = z.hash_items-text hash
