-- ===== src/Recv/Cut.antt =====
-- zproto_example_recv on a frame that ends too early.
use zproto.Base.{◌≢◌, ℕ, ◌^◌, ◌≤◌, ◌<◌, ◌≡◌, refl, false, some, List, [], ◌∷◌, arith}
use zproto.Base.{◌==◌, length, take, All, append_assoc}
use zproto.CharArray.{Bytes, array_size, c_string}
use zproto.CharArray.Laws.{fill_array_lem}
use zproto.Put.Writes.{big_endian, short_string}
use zproto.Get.{Machine, gets, Outcome, success}
use zproto.Get.Runs.{
  Runs-number1, Runs-number2, Runs-number4, Runs-number8, Runs-string, Runs-longstr,
}
use zproto.Get.Cuts.{
  Cuts, Cuts-nil, Cuts-bind, Cuts-first, Cuts-number1, Cuts-number2, Cuts-number4, Cuts-number8,
  Cuts-string, Cuts-longstr, Cuts-modify_then, Cuts-gets_then, Cuts-demand_then, Cuts-check_then,
  Cuts-if, Left,
}
use zproto.Czmq.{Czmq}
use zproto.Example.{Example, id_log, id_structures, id_binary, id_types}
use zproto.Example.View.{IsObject, Fits, alias_list, header_list}
use zproto.Encode.Image.{
  image, log_image, types_image, structures_image, strings_image, pairs_image,
}
use zproto.Recv.{
  Receiver, assign, get_field, recv_log, recv_types, recv_aliases, recv_headers, recv_structures,
  recv_body, recv_frame, receive, load, receive_all, recv_routing_id, finish, recv,
}
use zproto.Recv.Fields.{Runs-field, ended}
use zproto.Recv.Structures.{
  with_aliases, with_headers, append_all, Runs-aliases, short, short_pairs,
}
use zproto.Recv.RoundTrip.{IsKnown, with_id-IsObject}

module _ ⦃z : Czmq⦄ where
  Cuts-field :
      (field : Example z → Bytes) (put : Bytes → Example z → Example z) (r : Receiver) (bs : Bytes)
      → length bs ≤ 255
      → Cuts (get_field field put) r (short_string bs)
  unfolding get_field
  Cuts-field field put r bs h =
      Cuts-gets_then _ _ (Cuts-first _ _ (Cuts-string _ bs r (omega arith)))

  Cuts-log :
      (self : Example z) (r : Receiver)
      → IsObject self
      → IsObject r.object
      → Fits self
      → Cuts recv_log r (log_image self)
  unfolding recv_log log_image
  Cuts-log self r v o f = Cuts-bind _ _ (Runs-number2 _ _ v.sequence) (Cuts-number2 _ _) (
      Cuts-modify_then _ _ (
        Cuts-bind _ _ (Runs-number2 3 _ (omega arith)) (Cuts-number2 _ _) (
          Cuts-check_then _ _ _ refl (
            Cuts-bind _ _ (Runs-number1 _ _ v.level) (Cuts-number1 _ _) (
              Cuts-modify_then _ _ (
                Cuts-bind _ _ (Runs-number1 _ _ v.event) (Cuts-number1 _ _) (
                  Cuts-modify_then _ _ (
                    Cuts-bind _ _ (Runs-number2 _ _ v.node) (Cuts-number2 _ _) (
                      Cuts-modify_then _ _ (
                        Cuts-bind _ _ (Runs-number2 _ _ v.peer) (Cuts-number2 _ _) (
                          Cuts-modify_then _ _ (
                            Cuts-bind _ _ (Runs-number8 _ _ v.time) (Cuts-number8 _ _) (
                              Cuts-modify_then _ _ (
                                Cuts-bind _ _ (Runs-field _ _ _ _ (ended _ v.host) o.host)
                                  (Cuts-field _ _ _ _ (ended _ v.host))
                                  (Cuts-first _ _ (Cuts-longstr _ _ f.text))))))))))))))))

  Cuts-types :
      (self : Example z) (r : Receiver)
      → IsObject self
      → IsObject r.object
      → Cuts recv_types r (types_image self)
  unfolding recv_types types_image
  Cuts-types self r v o = Cuts-bind _ _ (Runs-number2 _ _ v.sequence) (Cuts-number2 _ _) (
      Cuts-modify_then _ _ (
        Cuts-bind _ _ (Runs-field _ _ _ _ (ended _ v.client_forename) o.client_forename)
          (Cuts-field _ _ _ _ (ended _ v.client_forename))
          (Cuts-bind _ _ (Runs-field _ _ _ _ (ended _ v.client_surname) o.client_surname)
            (Cuts-field _ _ _ _ (ended _ v.client_surname))
            (Cuts-bind _ _ (Runs-field _ _ _ _ (ended _ v.client_mobile) o.client_mobile)
              (Cuts-field _ _ _ _ (ended _ v.client_mobile))
              (Cuts-bind _ _ (Runs-field _ _ _ _ (ended _ v.client_email) o.client_email)
                (Cuts-field _ _ _ _ (ended _ v.client_email))
                (Cuts-bind _ _
                  (Runs-field _ _ _ _ (ended _ v.supplier_forename) o.supplier_forename)
                  (Cuts-field _ _ _ _ (ended _ v.supplier_forename))
                  (Cuts-bind _ _
                    (Runs-field _ _ _ _ (ended _ v.supplier_surname) o.supplier_surname)
                    (Cuts-field _ _ _ _ (ended _ v.supplier_surname))
                    (Cuts-bind _ _
                      (Runs-field _ _ _ _ (ended _ v.supplier_mobile) o.supplier_mobile)
                      (Cuts-field _ _ _ _ (ended _ v.supplier_mobile))
                      (Cuts-field _ _ _ _ (ended _ v.supplier_email))))))))))

  Cuts-aliases :
      (l : List Bytes) (list : z.ZList) (r : Receiver)
      → All (λ s. length (c_string s) < 2 ^ 32) l
      → Cuts (recv_aliases (length l)) (assign (with_aliases list) r) (strings_image l)
  unfolding recv_aliases
  Cuts-aliases [] list r h = Cuts-nil _ _
  Cuts-aliases (s ∷ rest) list r h = Cuts-bind _ _ (Runs-longstr _ _ h.0) (Cuts-longstr _ _ h.0) (
      Cuts-gets_then _ _
        (Cuts-demand_then _ _ refl (Cuts-modify_then _ _ (Cuts-aliases rest _ r h.1))))

  Cuts-headers :
      (l : List (Bytes × Bytes)) (hash : z.ZHash) (r : Receiver)
      → All (λ p. (length (c_string p.0) < 2 ^ 8) × (length (c_string p.1) < 2 ^ 32)) l
      → Cuts (recv_headers (length l)) (assign (with_headers hash) r) (pairs_image l)
  unfolding recv_headers
  Cuts-headers [] hash r h = Cuts-nil _ _
  Cuts-headers ((k, v) ∷ rest) hash r h =
      Cuts-bind _ _
        (Runs-string _ _ _ _ h.0.0
          (fill_array_lem _ (c_string k) (omega (arith, z.length-array_memory array_size))))
        (Cuts-string _ _ _ h.0.0)
        (Cuts-bind _ _ (Runs-longstr _ _ h.0.1) (Cuts-longstr _ _ h.0.1) (
          Cuts-gets_then _ _
            (Cuts-demand_then _ _ refl (Cuts-modify_then _ _ (Cuts-headers rest _ r h.1)))))

  Cuts-structures :
      (self : Example z) (r : Receiver)
      → IsObject self
      → Fits self
      → Cuts recv_structures r (structures_image self)
  unfolding recv_structures structures_image
  Cuts-structures self r v f =
      let names = alias_list self.aliases in
      let pairs = header_list self.headers in
      let r' : Receiver = assign (λ s. record s { sequence = self.sequence }) r in
      rw (append_assoc (big_endian 4 (length names)) (strings_image names) _) (
        Cuts-bind _ _ (Runs-number2 _ _ v.sequence) (Cuts-number2 _ _) (
          Cuts-modify_then _ _ (
            Cuts-bind _ _ (Runs-number4 _ _ f.alias_count) (Cuts-number4 _ _) (
              Cuts-modify_then _ _ (
                Cuts-bind _ _ (Runs-aliases names z.zlist_new r' (short names f.aliases))
                  (Cuts-aliases names z.zlist_new r' (short names f.aliases))
                  (Cuts-bind _ _ (Runs-number4 _ _ f.header_count) (Cuts-number4 _ _) (
                    Cuts-modify_then _ _ (
                      Cuts-headers pairs z.zhash_new
                        (assign (with_aliases (append_all z.zlist_new names)) r')
                        (short_pairs pairs f.headers)))))))))

  Cuts-frame :
      (self : Example z) (r : Receiver)
      → IsObject self
      → IsObject r.object
      → Fits self
      → IsKnown self.id
      → self.id ≢ id_binary
      → Cuts recv_frame r (image self)
  unfolding recv_frame recv_body image
  Cuts-frame self r v o f known not_binary =
      let r' : Receiver = assign (λ s. record s { id = self.id }) r in
      let o' = with_id-IsObject r.object self.id (omega arith) o in
      Cuts-bind _ _ (Runs-number2 0xAAA0 _ (omega arith)) (Cuts-number2 _ _) (
        Cuts-check_then _ _ _ refl (
          Cuts-bind _ _ (Runs-number1 self.id _ (omega arith)) (Cuts-number1 _ _) (
            Cuts-modify_then _ _ (
              Cuts-if (self.id == id_log) (λ e. Cuts-log self r' v o' f)
                λ e₁.
                  Cuts-if (self.id == id_structures) (λ e. Cuts-structures self r' v f)
                    λ e₂.
                      Cuts-if (self.id == id_binary) (λ e. absurd (not_binary (ground arith)))
                        λ e₃.
                          Cuts-if (self.id == id_types) (λ e. Cuts-types self r' v o')
                            λ e₄. absurd (ground arith)))))

  finish-Left : (o : Outcome (Unit {0}) × Machine Receiver) → Left o → (finish o).0 ≡ some success
  unfolding finish
  finish-Left (Outcome.done a, m) h = cc
  finish-Left (Outcome.malformed rc, m) h = cc
  finish-Left (Outcome.fault, m) h = cc

  -- On a socket that is no ROUTER: of a well formed LOG, STRUCTURES or TYPES message whose counts
  -- fit, the first bytes without the last ones, however few, make zproto_example_recv return 0,
  -- the code of success.
  pub recv-truncated :
      (self other : Example z) (input : z.ZSock) (n : ℕ) (rest : List Bytes)
      → IsObject self
      → IsObject other
      → Fits self
      → IsKnown self.id
      → self.id ≢ id_binary
      → z.is_router input ≡ false
      → n < length (image self)
      → z.incoming input ≡ take n (image self) ∷ rest
      → (recv other input).0 ≡ some success
  unfolding recv receive_all gets recv_routing_id receive load
  recv-truncated self other input n rest v o f known not_binary d h e =
      rw (d, (z.zmq_recv-incoming input _ _ e).0)
        (finish-Left _ (
          (Cuts-frame self (record { object = other; input = (z.zmq_msg_recv input).1 }) v o f known
              not_binary).cut
            n h))
