-- ===== src/NewZpl/AnyTree.antt =====
-- zproto_example_new_zpl on any tree whose octets are hexadecimal: NULL or a well formed object.
use zproto.Base.{
  ℕ, ◌^◌, ◌<◌, ◌≡◌, refl, Bool, Option, none, some, All, length, replicate, arith, same_bytes,
}
use zproto.CharArray.{Bytes, c_string, strlen}
use zproto.Hex.Strings.{IsDigit}
use zproto.CharArray.Laws.{IsByte, IsArray}
use Prim.Native.String.{String}
use zproto.Czmq.{Czmq}
use zproto.Zconfig.{Zconfig, codes}
use zproto.Example.{switch_all, if_all, Example, new, id_log, id_structures, id_binary, id_types}
use zproto.Example.View.{IsObject}
use zproto.Hex.{bytes_from_str}
use zproto.Access.Numbers.{set_id}
use zproto.NewZpl.{
  Created, created, null, need, from_hex, read_log, read_structures, read_binary, read_types,
  read_routing_id, new_message, read_case, read_body, new_zpl,
}
use zproto.NewZpl.Safe.{Makes, Makes-then, Makes-created, Makes-need, Makes-hex, Readable}
use zproto.NewZpl.AnyFields.{Starts, Makes-log, Makes-types, Makes-structures, Makes-binary}

module _ ⦃z : Czmq⦄ ⦃c : Zconfig z⦄ where
  zeros-IsArray : IsArray (replicate 256 0)
  unfolding strlen c_string
  zeros-IsArray = omega arith

  new-Starts : (id : ℕ) → id < 2 ^ 32 → Starts (set_id new id)
  unfolding set_id new
  new-Starts id h = record {
    object =
        let a = zeros-IsArray in
        record {
          id = omega arith;
          sequence = omega arith;
          level = omega arith;
          event = omega arith;
          node = omega arith;
          peer = omega arith;
          time = omega arith;
          host = a;
          flags = refl;
          flag_bytes = omega arith;
          client_forename = a;
          client_surname = a;
          client_mobile = a;
          client_email = a;
          supplier_forename = a;
          supplier_surname = a;
          supplier_mobile = a;
          supplier_email = a;
        };
    host = refl;
    names = record {
      client_forename = refl;
      client_surname = refl;
      client_mobile = refl;
      client_email = refl;
      supplier_forename = refl;
      supplier_surname = refl;
      supplier_mobile = refl;
      supplier_email = refl;
    };
  }

  pub new-IsObject : IsObject new
  unfolding set_id new
  new-IsObject = let o = (new-Starts 0 (omega arith)).object in search o

  Makes-null : {A : Type 0} (P : A → Type 0) → Makes P null
  unfolding Makes
  Makes-null P = tt

  Makes-message : (message : Bytes) → Makes Starts (new_message message)
  unfolding new_message
  Makes-message message =
      let makes : (id : ℕ) → id < 2 ^ 32 → Makes Starts (created (set_id new id)) =
        λ id h. Makes-created Starts _ (new-Starts id h) in
      let is : String → Bool = λ name. same_bytes (codes name) message in
      if_all (Makes Starts) (is "ZPROTO_EXAMPLE_LOG") _ _ (makes id_log (omega arith)) (
        if_all (Makes Starts) (is "ZPROTO_EXAMPLE_STRUCTURES") _ _
          (makes id_structures (omega arith))
          (if_all (Makes Starts) (is "ZPROTO_EXAMPLE_BINARY") _ _ (makes id_binary (omega arith)) (
            if_all (Makes Starts) (is "ZPROTO_EXAMPLE_TYPES") _ _ (makes id_types (omega arith))
              (Makes-null Starts))))

  Makes-routing_id :
      (t : c.Tree) (config : c.Item) (s : Example z) (o : Option Bytes)
      → ((text : Bytes) → o ≡ some text → All IsDigit text)
      → Starts s
      → Makes Starts (read_routing_id o s)
  unfolding read_routing_id
  Makes-routing_id t config s none d h = Makes-created Starts s h
  Makes-routing_id t config s (some text) d h =
      Makes-then Starts (from_hex (bytes_from_str (some text))) _ (Makes-hex text (d text refl))
        λ mem b. Makes-created Starts _ (record {
          object = let o = h.object in search o;
          host = h.host;
          names = let n = h.names in search n;
        })

  Makes-case :
      (t : c.Tree) (config : c.Item) (fields : c.Item → Example z → Created (Example z))
      (s : Example z)
      → ((content : c.Item) → Makes IsObject (fields content s))
      → Makes IsObject (read_case t config fields s)
  unfolding read_case
  Makes-case t config fields s h =
      Makes-then IsObject (need (c.zconfig_locate t config (codes "content"))) _ (Makes-need _)
        λ content e. h content

  Makes-body :
      (assign_array : Bytes → Bytes → Bytes) (id : ℕ) (t : c.Tree) (config : c.Item) (s : Example z)
      → Readable t
      → ((cells mem : Bytes)
          → (length (assign_array cells mem) ≡ 4) × All IsByte (assign_array cells mem))
      → Starts s
      → Makes IsObject (read_body assign_array id t config s)
  unfolding read_body
  Makes-body assign_array id t config s ok four h =
      switch_all (Makes IsObject) id _ _ _ _ _
        (Makes-case t config (read_log t) s (λ content. Makes-log t content ok s h))
        (Makes-case t config (read_structures t) s (λ content. Makes-structures t content ok s h))
        (Makes-case t config (λ content. read_binary t content assign_array) s
          (λ content. Makes-binary t content ok assign_array s four h))
        (Makes-case t config (read_types t) s (λ content. Makes-types t content ok s h))
        (Makes-created _ s h.object)

  -- Whatever the tree and the item: if the values are bytes, and those of the items routing_id,
  -- flags, public_key, address and content have only hexadecimal digits, and the assignment to the
  -- array flags leaves four bytes in it, zproto_example_new_zpl returns NULL or a well formed
  -- object; no assertion fails and nothing is undefined.
  pub new_zpl-IsObject :
      (assign_array : Bytes → Bytes → Bytes) (t : c.Tree) (config : c.Item)
      → Readable t
      → ((cells mem : Bytes)
          → (length (assign_array cells mem) ≡ 4) × All IsByte (assign_array cells mem))
      → Makes IsObject (new_zpl assign_array t config)
  unfolding new_zpl
  new_zpl-IsObject assign_array t config ok four =
      Makes-then IsObject (need (c.zconfig_get t config (codes "message"))) _ (Makes-need _)
        λ message e. Makes-then _ _ _ (Makes-message message) λ s h.
          Makes-then _ _ _
            (Makes-routing_id t config s (c.zconfig_get t config (codes "routing_id"))
              (ok.routing_id config) h)
            λ s' h'. Makes-body assign_array s'.id t config s' ok four h'
