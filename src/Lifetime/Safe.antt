-- ===== src/Lifetime/Safe.antt =====
-- What holds of every object that the calls of the class lead to.
use zproto.Base.{bits16, bits32, bits64, bits8}
use zproto.Base.{
  ℕ, ◌≡◌, ◌≢◌, refl, sym, ◌∙◌, Bool, false, Bool-cases, inl, inr, Option, none, some, List, ◌∷◌,
  All, length, take, ltb, arith,
}
use zproto.CharArray.{Bytes, block, memcpy}
use zproto.CharArray.Laws.{IsByte}
use zproto.Czmq.{Czmq}
use zproto.Zconfig.{Zconfig}
use zproto.Example.{Example, switch_all}
use zproto.Example.View.{IsObject}
use zproto.Base.{length-take, drop_all, All-take, ltb→le, append-nil}
use mathlib.Core.Path.{subst}
use zproto.Encode.{count_headers, frame_size, structures_size}
use zproto.Access.StringFields.{Field, setter, HasSet}
use zproto.Access.Strings.{set_flags}
use zproto.Access.StringFields.{setter_lem}
use zproto.Access.Numbers.{set_id, set_sequence, set_level, set_event, set_node, set_peer, set_time}
use zproto.Access.Strings.{set_text}
use zproto.Access.Owned.{
  set_routing_id, set_identifier, get_identifier, get_aliases, set_aliases, get_headers,
  set_headers, get_public_key, set_public_key, get_address, set_address, get_content, set_content,
}
use zproto.Encode.{encode}
use zproto.Encode.Exact.{encode_lem, serialize_lem}
use zproto.Send.{Calls, send}
use zproto.Send.Parts.{send-finish}
use zproto.Recv.{recv}
use zproto.Recv.AnyFrames.{recv_lem}
use zproto.Dup.{dup}
use zproto.Dup.Says.{dup_lem}
use zproto.NewZpl.{Created, created, null, aborted, undefined}
use zproto.NewZpl.Safe.{Makes}
use zproto.NewZpl.AnyTree.{new-IsObject, new_zpl-IsObject}
use zproto.Lifetime.{
  Step, Reached, sets_id, sets_sequence, sets_level, sets_event, sets_node, sets_peer, sets_time,
  sets_field, sets_text, sets_flags, sets_routing_id, sets_identifier, sets_aliases, sets_headers,
  sets_public_key, sets_address, sets_content, gets_identifier, gets_aliases, gets_headers,
  gets_public_key, gets_address, gets_content, encodes, sends, receives, duplicates, made, imported,
  after,
}

memcpy_all : (cells bs : Bytes) → length bs ≡ length cells → memcpy cells bs ≡ some bs
unfolding memcpy
memcpy_all cells bs h = ground (arith, drop_all (length bs) cells, append-nil bs)

module _ ⦃z : Czmq⦄ where
  counted-IsObject :
      (s : Example z) (o : Option z.ZHash) → IsObject s → IsObject (count_headers s o)
  unfolding count_headers
  counted-IsObject s none o = o
  counted-IsObject s (some hash) o = search o

  pub frame_size-IsObject : (s : Example z) → IsObject s → IsObject (frame_size s).1
  unfolding frame_size structures_size
  frame_size-IsObject s o =
      switch_all (λ (p : ℕ × Example z). IsObject p.1) s.id _ _ _ _ _ o
        (counted-IsObject s s.headers o) o o o

  HasSet-IsObject :
      (field : Field) (s s' : Example z) (value : Bytes) (o : Option (Example z))
      → o ≡ some s'
      → HasSet field s value o
      → IsObject s'
  HasSet-IsObject field s s' value none e h = cc
  HasSet-IsObject field s s' value (some s'') e h =
      let same : s'' ≡ s' = cc in subst IsObject same h.0

  pub set_flags_long :
      (s : Example z) (value : Bytes)
      → length s.flags ≡ 4
      → ltb (length value) 4 ≡ false
      → set_flags s value ≡ some (record s { flags = take 4 value })
  unfolding set_flags memcpy
  set_flags_long s value four long =
      let le = ltb→le (length value) 4 long in
      let whole : length (take 4 value) ≡ 4 = omega (arith, le, length-take 4 value) in
      rw (long, memcpy_all s.flags (take 4 value) (whole ∙ sym four)) refl

  flags-IsObject :
      (s s' : Example z) (value : Bytes)
      → All IsByte value
      → IsObject s
      → set_flags s value ≡ some s'
      → IsObject s'
  flags-IsObject s s' value b o e = elim (Bool-cases (ltb (length value) 4)) [
    | inl short ↦
        (let none_set : set_flags s value ≡ none = unfold set_flags in rw short refl in cc)
    | inr long ↦
        let e' = set_flags_long s value o.flags long in
        let same : record s { flags = take 4 value } ≡ s' = cc in
        let le = ltb→le (length value) 4 long in
        let whole : length (take 4 value) ≡ 4 = omega (arith, le, length-take 4 value) in
        let bytes = All-take IsByte 4 value b in subst IsObject same (search (o, whole, bytes))
  ]

  encode-IsObject :
      (s s' : Example z) (frame : Bytes) → IsObject s → encode s ≡ some (frame, s') → IsObject s'
  encode-IsObject s s' frame o e =
      let (tail, e', l) = encode_lem s o.flags in
      let same : (frame_size s).1 ≡ s' = cc in subst IsObject same (frame_size-IsObject s o)

  send-IsObject :
      (s s' : Example z) (router : Bool) (calls : Calls)
      → IsObject s
      → send s router ≡ some (calls, s')
      → IsObject s'
  send-IsObject s s' router calls o e =
      let (tail, run, l) = serialize_lem s _ o.flags (z.length-new_msg_memory (frame_size s).0) in
      let e' = send-finish s router tail run in
      let same : (frame_size s).1 ≡ s' = cc in subst IsObject same (frame_size-IsObject s o)

  dup-IsObject : (s s' : Example z) → IsObject s → dup s ≡ some s' → IsObject s'
  dup-IsObject s s' o e =
      let (copy, e', o', _, _, _, _, _, _, _, _) = dup_lem s o in
      let same : copy ≡ s' = cc in subst IsObject same o'

module _ ⦃z : Czmq⦄ ⦃c : Zconfig z⦄ where
  Step-IsObject : (s s' : Example z) → Step s s' → IsObject s → IsObject s'
  unfolding set_id set_sequence set_level set_event set_node set_peer set_time set_text
      set_routing_id set_identifier set_aliases set_headers set_public_key set_address set_content
      get_identifier get_aliases get_headers get_public_key get_address get_content
  Step-IsObject _ _ (sets_id s n) o = search (o, bits32)
  Step-IsObject _ _ (sets_sequence s n) o = search (o, bits16)
  Step-IsObject _ _ (sets_level s n) o = search (o, bits8)
  Step-IsObject _ _ (sets_event s n) o = search (o, bits8)
  Step-IsObject _ _ (sets_node s n) o = search (o, bits16)
  Step-IsObject _ _ (sets_peer s n) o = search (o, bits16)
  Step-IsObject _ _ (sets_time s n) o = search (o, bits64)
  Step-IsObject _ _ (sets_field s s' field value b e) o =
      HasSet-IsObject field s s' value _ e (setter_lem field s value o b)
  Step-IsObject _ _ (sets_text s value) o = search o
  Step-IsObject _ _ (sets_flags s s' value b e) o = flags-IsObject s s' value b o e
  Step-IsObject _ _ (sets_routing_id s frame) o = search o
  Step-IsObject _ _ (sets_identifier s uuid) o = search o
  Step-IsObject _ _ (sets_aliases s p) o = search o
  Step-IsObject _ _ (sets_headers s p) o = search o
  Step-IsObject _ _ (sets_public_key s p) o = search o
  Step-IsObject _ _ (sets_address s p) o = search o
  Step-IsObject _ _ (sets_content s p) o = search o
  Step-IsObject _ _ (gets_identifier s) o = search o
  Step-IsObject _ _ (gets_aliases s) o = search o
  Step-IsObject _ _ (gets_headers s) o = search o
  Step-IsObject _ _ (gets_public_key s) o = search o
  Step-IsObject _ _ (gets_address s) o = search o
  Step-IsObject _ _ (gets_content s) o = search o
  Step-IsObject _ _ (encodes s s' frame e) o = encode-IsObject s s' frame o e
  Step-IsObject _ _ (sends s s' router calls e) o = send-IsObject s s' router calls o e
  Step-IsObject _ _ (receives s input frame rest b e) o = (recv_lem s input frame rest o b e).1
  Step-IsObject _ _ (duplicates s s' e) o = dup-IsObject s s' o e

  imported-IsObject :
      (m : Created (Example z)) (s : Example z) → m ≡ created s → Makes IsObject m → IsObject s
  unfolding Makes
  imported-IsObject (created s') s e h = let same : s' ≡ s = cc in subst IsObject same h
  imported-IsObject null s e h = cc
  imported-IsObject aborted s e h = cc
  imported-IsObject undefined s e h = cc

  -- Every object that zproto_example_new or zproto_example_new_zpl has made and that any calls of
  -- the setters, get functions, encode, send, recv and dup have then been made on is well formed.
  pub Reached-IsObject : (s : Example z) → Reached s → IsObject s
  Reached-IsObject _ made = new-IsObject
  Reached-IsObject _ (imported assign_array t config s four ok e) =
      imported-IsObject _ s e (new_zpl-IsObject assign_array t config ok four)
  Reached-IsObject _ (after s s' r step) = Step-IsObject s s' step (Reached-IsObject s r)

  HasSet-returns :
      (field : Field) (s : Example z) (value : Bytes) (o : Option (Example z))
      → HasSet field s value o
      → o ≢ none
  HasSet-returns field s value none h = λ e. absurd h
  HasSet-returns field s value (some s') h = λ e. cc

  -- On such an object no call reads or writes out of bounds: encode and send write no byte past
  -- their frame, dup and the setters of the char arrays no byte past an array whatever bytes the
  -- value has, and recv returns a code whatever frames of bytes wait.
  pub Reached-no_fault :
      (s : Example z) (router : Bool) (field : Field) (value : Bytes) (input : z.ZSock)
      (frame : Bytes) (rest : List Bytes)
      → Reached s
      → All IsByte value
      → All (All IsByte) (frame ∷ rest)
      → z.incoming input ≡ frame ∷ rest
      → (encode s ≢ none)
        × (send s router ≢ none)
        × (dup s ≢ none)
        × (setter field s (block value) ≢ none)
        × ((recv s input).0 ≢ none)
  Reached-no_fault s router field value input frame rest r b bs e =
      let o = Reached-IsObject s r in
      let (tail, encoded, l) = encode_lem s o.flags in
      let (tail', run, l') = serialize_lem s _ o.flags (z.length-new_msg_memory (frame_size s).0) in
      let sent = send-finish s router tail' run in
      let (copy, copied, _, _, _, _, _, _, _, _, _) = dup_lem s o in
      (
        (λ n. cc),
        (λ n. cc),
        (λ n. cc),
        HasSet-returns field s value _ (setter_lem field s value o b),
        (recv_lem s input frame rest o bs e).0,
      )
