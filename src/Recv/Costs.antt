-- ===== src/Recv/Costs.antt =====
-- What zproto_example_recv keeps of a frame, whatever its length and size fields say.
pub mod Lists
pub mod Frame
use zproto.Base.{
  ℕ, zero, suc, ◌+◌, ◌*◌, ◌≤◌, ◌≡◌, refl, Bool, true, false, Option, none, some, [], ◌∷◌, arith,
  length, ◌==◌, if◌then◌else◌,
}
use zproto.Base.{length-append}
use zproto.CharArray.{Bytes, c_string}
use zproto.CharArray.Laws.{length-c_string}
use zproto.Get.{bad, at, ◌>>=◌, modify, gets, demand, check, Rc}
use zproto.Get.Costs.{
  Left, Costs, Costs-bind, Costs-less, Costs-pure, Costs-leave, Costs-modify, Costs-check,
  Costs-number1, Costs-number2, Costs-number4, Costs-number8, Costs-octets, Costs-block,
  Costs-string, Costs-longstr,
}
use zproto.Czmq.{Czmq}
use zproto.Example.{Example, id_log, id_structures, id_binary, id_types}
use zproto.Example.View.{text_of, alias_list, key_bytes}
use zproto.Recv.{
  Receiver, Recv, assign, get_field, recv_log, recv_types, recv_aliases, recv_headers,
  recv_structures, receive, more, recv_content, recv_frames, recv_binary, recv_body, recv_frame,
}

module _ ⦃z : Czmq⦄ where
  abbrev pub header_count : Option z.ZHash → ℕ
  header_count none = 0
  header_count (some hash) = z.zhash_size hash

  -- Four for each alias, five for each header, and the bytes of data and of the public key.
  abbrev pub kept : Example z → ℕ
  kept self =
      4 * length (alias_list self.aliases)
      + 5 * header_count self.headers
      + length (text_of self.text)
      + length (key_bytes self.public_key)

  abbrev pub weight : Receiver → ℕ
  weight r = kept r.object

  abbrev pub CheapBlock : Recv (Unit {0}) → Type 0
  CheapBlock g = Costs weight 0 g (λ _. 0)

  -- A value is read, and put into a field that is not counted.
  pub Cheap-store :
      {A : Type 0} {n : ℕ} {v : A → ℕ} {g : Recv A} (f : A → Example z → Example z)
      (k : A → Unit {0} → Recv (Unit {0}))
      → Costs weight n g v
      → ((a : A) (s : Example z) → kept (f a s) ≡ kept s)
      → ((a : A) → CheapBlock (k a tt))
      → Costs weight n (g >>= λ a. modify (assign (f a)) >>= k a) (λ _. 0)
  Cheap-store f k p w q =
      Costs-bind p λ a. Costs-bind (Costs-modify _ (λ r. omega (arith, w a r.object))) λ _. q a

  pub Cheap-field :
      (field : Example z → Bytes) (put : Bytes → Example z → Example z)
      → ((s : Example z) (cells : Bytes) → kept (put cells s) ≡ kept s)
      → CheapBlock (get_field field put)
  unfolding get_field gets modify
  Cheap-field field put w = record {
    run = λ r bs k h.
        (Costs-bind (Costs-string (field r.object))
            (λ cells. Costs-modify _ (λ r'. omega (arith, w r'.object cells)))).run
          r bs k h;
  }

  pub Cheap-check_then :
      {n : ℕ} (good : Bool) (rc : Rc) (k : Unit {0} → Recv (Unit {0}))
      → CheapBlock (k tt)
      → Costs weight n (check good rc >>= k) (λ _. 0)
  Cheap-check_then {n} good rc k q =
      Costs-bind (Costs-check good rc) λ _. Costs-less {n = 0} (omega arith) q
