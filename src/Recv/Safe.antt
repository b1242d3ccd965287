-- ===== src/Recv/Safe.antt =====
-- The statements of zproto_example_recv on any bytes: no read or write out of bounds, and the object
-- stays well formed, on the error paths too.
use zproto.Base.{Bool, ℕ, zero, suc, true, false, ◌≡◌, refl, some, arith}
use zproto.CharArray.{Bytes, array_size}
use zproto.CharArray.Laws.{IsArray}
use zproto.Get.Safe.{
  Safe, Safe-leave, Safe-pure, Safe-number4, Safe-demand, Safe-octets, Safe-block, Safe-mono,
  Safe-bind, Safe-modify, Safe-gets, Safe-check,
}
use zproto.Get.Safe.{Safe-number1, Safe-number2, Safe-number8, Safe-string, Safe-longstr}
use zproto.Get.{bad, ◌>>=◌, modify, gets, check, Rc}
use zproto.Czmq.{Czmq}
use zproto.Recv.RoundTrip.{with_id-IsObject}
use zproto.Example.{switch_all, Example}
use zproto.Example.View.{IsObject}
use zproto.Recv.{
  Receiver, Recv, assign, get_field, recv_log, recv_types, recv_aliases, recv_headers,
  recv_structures, receive, more, recv_content, recv_frames, recv_binary, recv_body, recv_frame,
}

module _ ⦃z : Czmq⦄ where
  abbrev pub Sound : Receiver → Type 0
  Sound r = IsObject r.object

  abbrev pub SafeBlock : Recv (Unit {0}) → Type 0
  SafeBlock g = Safe Sound Sound g (λ _. Sound)

  same : (r : Receiver) → Sound r → Sound r
  same r o = o

  -- A value is read, and put into a field that it fits.
  Safe-store :
      {A : Type 0} {g : Recv A} {V : A → Type 0} (f : A → Example z → Example z)
      (k : A → Unit {0} → Recv (Unit {0}))
      → Safe Sound Sound g (λ a r. V a × Sound r)
      → ((a : A) (s : Example z) → V a → IsObject s → IsObject (f a s))
      → ((a : A) → V a → SafeBlock (k a tt))
      → SafeBlock (g >>= λ a. modify (assign (f a)) >>= k a)
  unfolding modify
  Safe-store f k p w q =
      Safe-bind p λ a. record { run = λ r bs (v, o) b. (q a v).run _ bs (w a r.object v o) b }

  Safe-check_then :
      (good : Bool) (rc : Rc) (k : Unit {0} → Recv (Unit {0}))
      → SafeBlock (k tt)
      → SafeBlock (check good rc >>= k)
  Safe-check_then good rc k q = Safe-bind (Safe-check good rc same) λ _. Safe-mono (λ r (e, o). o) q

  Safe-field :
      (field : Example z → Bytes) (put : Bytes → Example z → Example z)
      → ((s : Example z) → IsObject s → IsArray (field s))
      → ((s : Example z) (cells : Bytes) → IsArray cells → IsObject s → IsObject (put cells s))
      → SafeBlock (get_field field put)
  unfolding get_field gets modify
  Safe-field field put a w = record {
    run = λ r bs o b.
        (Safe-bind (Safe-string same (field r.object) (a r.object o).size)
            (λ cells. Safe-modify _ (λ r' (c, o'). w r'.object cells (c (a r.object o)) o'))).run
          r bs o b;
  }

  Safe-log : SafeBlock recv_log
  unfolding recv_log
  Safe-log =
      Safe-store _ _ (Safe-number2 same) (λ n s b o. search (b, o))
        λ _ _. Safe-bind (Safe-number2 same) λ v.
          Safe-mono (λ r (b, o). o)
            (Safe-check_then _ _ _ (
              Safe-store _ _ (Safe-number1 same) (λ n s b o. search (b, o))
                λ _ _.
                  Safe-store _ _ (Safe-number1 same) (λ n s b o. search (b, o))
                    λ _ _.
                      Safe-store _ _ (Safe-number2 same) (λ n s b o. search (b, o))
                        λ _ _.
                          Safe-store _ _ (Safe-number2 same) (λ n s b o. search (b, o))
                            λ _ _.
                              Safe-store _ _ (Safe-number8 same) (λ n s b o. search (b, o))
                                λ _ _.
                                  Safe-bind
                                    (Safe-field _ _ (λ s o. o.host) (λ s cells c o. search (c, o)))
                                    λ _.
                                      Safe-bind (Safe-longstr same)
                                        λ text. Safe-modify _ (λ r o. search o)))

  Safe-types : SafeBlock recv_types
  unfolding recv_types
  Safe-types =
      Safe-store _ _ (Safe-number2 same) (λ n s b o. search (b, o))
        λ _ _.
          Safe-bind (Safe-field _ _ (λ s o. o.client_forename) (λ s cells c o. search (c, o))) λ _.
            Safe-bind (Safe-field _ _ (λ s o. o.client_surname) (λ s cells c o. search (c, o))) λ _.
              Safe-bind (Safe-field _ _ (λ s o. o.client_mobile) (λ s cells c o. search (c, o)))
                λ _.
                  Safe-bind (Safe-field _ _ (λ s o. o.client_email) (λ s cells c o. search (c, o)))
                    λ _.
                      Safe-bind
                        (Safe-field _ _ (λ s o. o.supplier_forename) (λ s cells c o. search (c, o)))
                        λ _.
                          Safe-bind
                            (Safe-field _ _ (λ s o. o.supplier_surname)
                              (λ s cells c o. search (c, o)))
                            λ _.
                              Safe-bind
                                (Safe-field _ _ (λ s o. o.supplier_mobile)
                                  (λ s cells c o. search (c, o)))
                                λ _.
                                  Safe-field _ _ (λ s o. o.supplier_email)
                                    (λ s cells c o. search (c, o))

  -- The list that the loop appends to, and the table that it inserts in, are there.
  abbrev HasList : Receiver → Type 0
  HasList r = Sound r × ((l : z.ZList) × (r.object.aliases ≡ some l))

  abbrev HasHash : Receiver → Type 0
  HasHash r = Sound r × ((h : z.ZHash) × (r.object.headers ≡ some h))

  Safe-aliases : (n : ℕ) → Safe Sound HasList (recv_aliases n) (λ _. Sound)
  unfolding recv_aliases
  Safe-aliases zero = Safe-pure tt (λ r o. o.0)
  Safe-aliases (suc n) = Safe-bind (Safe-longstr (λ r o. o.0)) λ string.
      Safe-bind (Safe-gets _) λ current.
        Safe-bind (Safe-demand current (λ r (e, (o, (l, h))). (l, cc))) λ list.
          Safe-bind (Safe-modify _ (λ r (e, (e', (o, _))). (search o, (_, refl))))
            λ _. Safe-aliases n

  Safe-headers : (n : ℕ) → Safe Sound HasHash (recv_headers n) (λ _. Sound)
  unfolding recv_headers
  Safe-headers zero = Safe-pure tt (λ r o. o.0)
  Safe-headers (suc n) =
      Safe-bind (Safe-string (λ r o. o.0) _ (z.length-array_memory array_size)) λ key.
        Safe-bind (Safe-longstr (λ r o. o.1.0)) λ value. Safe-bind (Safe-gets _) λ current.
          Safe-bind (Safe-demand current (λ r (e, (_, (o, (h, e')))). (h, cc))) λ hash.
            Safe-bind (Safe-modify _ (λ r (e, (e', (_, (o, _)))). (search o, (_, refl))))
              λ _. Safe-headers n

  Safe-structures : SafeBlock recv_structures
  unfolding recv_structures
  Safe-structures =
      Safe-store _ _ (Safe-number2 same) (λ n s b o. search (b, o))
        λ _ _. Safe-bind (Safe-number4 same) λ list_size.
          Safe-bind (Safe-modify _ (λ r (_, o). (search o, (_, refl)))) λ _.
            Safe-bind (Safe-aliases list_size) λ _. Safe-bind (Safe-number4 same) λ hash_size.
              Safe-bind (Safe-modify _ (λ r (_, o). (search o, (_, refl))))
                λ _. Safe-headers hash_size

  Safe-receive :
      {A : Type 0} (call : z.ZSock → A × z.ZSock) → Safe Sound Sound (receive call) (λ _. Sound)
  unfolding receive
  Safe-receive call = record { run = λ r bs o b. (search o, b) }

  Safe-more : Safe Sound Sound more (λ _. Sound)
  unfolding more gets
  Safe-more = record { run = λ r bs o b. (o, b) }

  Safe-content : (following : Bool) → SafeBlock (recv_content following)
  unfolding recv_content
  Safe-content true = Safe-bind (Safe-receive _) λ m. Safe-modify _ (λ r o. search o)
  Safe-content false = Safe-modify _ (λ r o. search o)

  Safe-frames : SafeBlock recv_frames
  unfolding recv_frames
  Safe-frames = Safe-bind Safe-more λ following. Safe-check_then _ _ _ (
      Safe-bind (Safe-receive _)
        λ frame. Safe-bind (Safe-modify _ (λ r o. search o)) λ _. Safe-bind Safe-more Safe-content)

  Safe-binary : SafeBlock recv_binary
  unfolding recv_binary
  Safe-binary =
      Safe-store _ _ (Safe-number2 same) (λ n s b o. search (b, o))
        λ _ _. Safe-bind (Safe-octets same 4) λ flags.
          Safe-bind (Safe-modify _ (λ r (l, b, o). search (l, b, o))) λ _.
            Safe-bind (Safe-number4 same) λ chunk_size.
              Safe-bind (Safe-mono (λ r o. o.1) (Safe-block same chunk_size _)) λ bytes.
                Safe-bind (Safe-modify _ (λ r (l, b, o). search o)) λ _.
                  Safe-bind (Safe-block same 16 _)
                    λ bytes. Safe-bind (Safe-modify _ (λ r (l, b, o). search o)) λ _. Safe-frames

  Safe-body : (id : ℕ) → SafeBlock (recv_body id)
  unfolding recv_body
  Safe-body id =
      switch_all (λ g. SafeBlock g) id _ _ _ _ _ Safe-log Safe-structures Safe-binary Safe-types
        (Safe-leave bad same)

  pub Safe-frame : SafeBlock recv_frame
  unfolding recv_frame
  Safe-frame = Safe-bind (Safe-number2 same) λ signature.
      Safe-mono (λ r (b, o). o)
        (Safe-check_then _ _ _ (
          Safe-store _ _ (Safe-number1 same) (λ n s b o. with_id-IsObject s n (omega (arith, b)) o)
            λ id _. Safe-body id))
