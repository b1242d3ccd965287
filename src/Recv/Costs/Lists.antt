-- ===== src/Recv/Costs/Lists.antt =====
-- The two loops of the STRUCTURES message: each round is paid for by the bytes that it reads.
use zproto.Base.{ℕ, zero, suc, ◌+◌, ◌≤◌, ◌≡◌, refl, Option, none, some, [], ◌∷◌, arith, length}
use zproto.Base.{length-append}
use zproto.CharArray.{Bytes, c_string}
use zproto.Get.{at, ◌>>=◌, modify, gets, demand}
use zproto.Get.Costs.{
  Left, Costs, Costs-bind, Costs-less, Costs-pure, Costs-modify, Costs-number2, Costs-number4,
  Costs-string, Costs-longstr,
}
use zproto.Czmq.{Czmq}
use zproto.Example.{Example}
use zproto.Recv.{Receiver, Recv, assign, recv_aliases, recv_headers, recv_structures}
use zproto.Recv.Costs.{kept, weight, CheapBlock, Cheap-store}

module _ ⦃z : Czmq⦄ where
  -- An alias is paid for by the four bytes of its length.
  append-kept :
      (s : Example z) (list : z.ZList) (string : Bytes)
      → s.aliases ≡ some list
      → kept (record s { aliases = some (z.zlist_append list string) }) ≡ kept s + 4
  append-kept s list string e =
      rw (e, z.items-append)
        (omega (arith, length-append (z.zlist_items list) (c_string string ∷ [])))

  Cheap-append :
      (string : Bytes) (k : Recv (Unit {0}))
      → CheapBlock k
      → Costs weight 4
          (gets (λ r. r.object.aliases) >>= λ current. demand current >>= λ list.
            modify (assign (λ s. record s { aliases = some (z.zlist_append list string) })) >>= λ _.
            k)
          (λ _. 0)
  unfolding gets demand modify
  Cheap-append string k q = record { run = λ r bs n h. go r bs n r.object.aliases refl h }
    where
      go :
          (r : Receiver) (bs : Bytes) (n : ℕ) (o : Option z.ZList)
          → r.object.aliases ≡ o
          → weight r + length bs + 4 ≤ n
          → Left weight
              (λ (_ : Unit {0}). 0)
              n
              ((demand o >>= λ list.
                  modify (assign (λ s. record s { aliases = some (z.zlist_append list string) }))
                  >>= λ _. k)
                (at r bs))
      go r bs n none e h = omega arith
      go r bs n (some list) e h = q.run _ bs n (omega (arith, append-kept r.object list string e))

  Cheap-aliases : (n : ℕ) → CheapBlock (recv_aliases n)
  unfolding recv_aliases
  Cheap-aliases zero = Costs-pure tt
  Cheap-aliases (suc n) =
      Costs-bind Costs-longstr
        λ string. Costs-less {n = 4} (omega arith) (Cheap-append string _ (Cheap-aliases n))

  -- A header is paid for by the byte and the four bytes of its lengths.
  insert-kept :
      (s : Example z) (hash : z.ZHash) (key value : Bytes)
      → s.headers ≡ some hash
      → kept (record s { headers = some (z.zhash_insert hash key value) }) ≤ kept s + 5
  insert-kept s hash key value e = rw e (omega (arith, z.size-insert hash key value))

  Cheap-insert :
      (key value : Bytes) (k : Recv (Unit {0}))
      → CheapBlock k
      → Costs weight 5
          (gets (λ r. r.object.headers) >>= λ current. demand current >>= λ hash.
            modify (assign (λ s. record s { headers = some (z.zhash_insert hash key value) }))
            >>= λ _. k)
          (λ _. 0)
  unfolding gets demand modify
  Cheap-insert key value k q = record { run = λ r bs n h. go r bs n r.object.headers refl h }
    where
      go :
          (r : Receiver) (bs : Bytes) (n : ℕ) (o : Option z.ZHash)
          → r.object.headers ≡ o
          → weight r + length bs + 5 ≤ n
          → Left weight
              (λ (_ : Unit {0}). 0)
              n
              ((demand o >>= λ hash.
                  modify (assign (λ s. record s { headers = some (z.zhash_insert hash key value) }))
                  >>= λ _. k)
                (at r bs))
      go r bs n none e h = omega arith
      go r bs n (some hash) e h =
          q.run _ bs n (omega (arith, insert-kept r.object hash key value e))

  Cheap-headers : (n : ℕ) → CheapBlock (recv_headers n)
  unfolding recv_headers
  Cheap-headers zero = Costs-pure tt
  Cheap-headers (suc n) = Costs-bind (Costs-string _) λ key. Costs-bind Costs-longstr λ value.
      Costs-less {n = 5} (omega arith) (Cheap-insert (c_string key) value _ (Cheap-headers n))

  pub Cheap-structures : CheapBlock recv_structures
  unfolding recv_structures
  Cheap-structures =
      Cheap-store _ _ Costs-number2 (λ n s. refl)
        λ _. Costs-bind Costs-number4 λ list_size.
          Costs-bind (Costs-modify _ (λ r. rw z.items-new (omega arith))) λ _.
            Costs-bind (Cheap-aliases list_size) λ _. Costs-bind Costs-number4 λ hash_size.
              Costs-bind (Costs-modify _ (λ r. rw z.size-new (omega arith)))
                λ _. Cheap-headers hash_size
