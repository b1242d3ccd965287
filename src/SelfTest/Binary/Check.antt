-- ===== src/SelfTest/Binary/Check.antt =====
-- The assertions on the BINARY message.
use zproto.Base.{
  false, List, take, Bool-cases, inl, inr, ltb, ◌==◌, true, ℕ, zero, suc, ◌≡◌, refl, sym, ap, ◌∙◌,
  Option, none, some, [], ◌∷◌, same_bytes, same_bytes_iff, length,
}
use mathlib.Core.Option
use mathlib.Core.List.{map}
use zproto.CharArray.{Bytes, c_string}
use zproto.Czmq.{Czmq}
use zproto.Zconfig.{Zconfig, codes}
use zproto.Example.{Example}
use zproto.Example.View.{
  message, binary, message_as, key_bytes, uuid_bytes, frame_bytes, content_parts,
}
use zproto.Access.Numbers
use zproto.Access.Strings
use zproto.Access.Owned
use zproto.SelfTest.{Inspect, World, message_as-unknown}
use zproto.SelfTest.Steps.{test_uuid, check_binary}
use zproto.SelfTest.Binary.{said_binary, size-map}

module _ ⦃z : Czmq⦄ ⦃c : Zconfig z⦄ ⦃i : Inspect z c⦄ where
  binary_inv :
      (n : ℕ) (s : Example z)
      → message_as n s ≡ said_binary
      → (s.sequence ≡ 123)
        × (s.flags ≡ codes "b38c")
        × (key_bytes s.public_key ≡ codes "89f5ffe70d747869dfe8")
        × (uuid_bytes s.identifier ≡ z.zuuid_data test_uuid)
        × (frame_bytes s.address ≡ codes "0206f99f6137d9fe380f")
        × (content_parts s.content ≡ codes "728a92c6749235ba7002" ∷ [])
  binary_inv zero s e = absurd (cc)
  binary_inv (suc zero) s e = absurd (cc)
  binary_inv (suc (suc zero)) s e = absurd (cc)
  binary_inv (suc (suc (suc zero))) s e = (cc, cc, cc, cc, cc, cc)
  binary_inv (suc (suc (suc (suc zero)))) s e = absurd (cc)
  binary_inv (suc (suc (suc (suc (suc n))))) s e = let h = message_as-unknown n s in absurd (cc)

  key-some :
      (o : Option z.ZChunk)
      → key_bytes o ≡ codes "89f5ffe70d747869dfe8"
      → (key : z.ZChunk) × (o ≡ some key) × (z.zchunk_data key ≡ codes "89f5ffe70d747869dfe8")
  key-some none e = absurd (cc)
  key-some (some key) e = (key, refl, e)

  uuid-some :
      (o : Option z.ZUuid)
      → uuid_bytes o ≡ z.zuuid_data test_uuid
      → (u : z.ZUuid) × (o ≡ some u) × (z.zuuid_data u ≡ z.zuuid_data test_uuid)
  uuid-some none e = absurd (i.uuid-nonzero (sym e))
  uuid-some (some u) e = (u, refl, e)

  address-some :
      (o : Option z.ZFrame)
      → frame_bytes o ≡ codes "0206f99f6137d9fe380f"
      → (f : z.ZFrame) × (o ≡ some f) × (z.zframe_data f ≡ codes "0206f99f6137d9fe380f")
  address-some none e = absurd (cc)
  address-some (some f) e = (f, refl, e)

  content-some :
      (o : Option z.ZMsg)
      → content_parts o ≡ codes "728a92c6749235ba7002" ∷ []
      → (m : z.ZMsg) × (o ≡ some m)
        × (map z.zframe_data (z.zmsg_frames m) ≡ codes "728a92c6749235ba7002" ∷ [])
  content-some none e = absurd (cc)
  content-some (some m) e = (m, refl, e)

  text-some :
      (o : Option Bytes) (s : Bytes)
      → Option.map c_string o ≡ some s
      → (text : Bytes) × (o ≡ some text) × (c_string text ≡ s)
  text-some none s e = absurd (cc)
  text-some (some text) s e = (text, refl, cc)

  uuid_eq-same :
      (u : z.ZUuid)
      → z.zuuid_data u ≡ z.zuuid_data test_uuid
      → i.zuuid_eq test_uuid (z.zuuid_data u) ≡ true
  uuid_eq-same u e =
      i.uuid_eq-data test_uuid (z.zuuid_data u)
      ∙ (same_bytes_iff (z.zuuid_data test_uuid) (z.zuuid_data u)).1 (sym e)

  streq-same :
      (f : z.ZFrame)
      → z.zframe_data f ≡ codes "0206f99f6137d9fe380f"
      → i.zframe_streq f (codes "0206f99f6137d9fe380f") ≡ true
  unfolding c_string same_bytes
  streq-same f e = i.streq-data f _ ∙ rw e refl

  check_binary-run :
      (w : World) (key : z.ZChunk) (u : z.ZUuid) (f : z.ZFrame) (m : z.ZMsg) (text : Bytes)
      → w.self.sequence ≡ 123
      → w.self.flags ≡ codes "b38c"
      → w.self.public_key ≡ some key
      → z.zchunk_data key ≡ codes "89f5ffe70d747869dfe8"
      → w.self.identifier ≡ some u
      → i.zuuid_eq test_uuid (z.zuuid_data u) ≡ true
      → w.self.address ≡ some f
      → i.zframe_streq f (codes "0206f99f6137d9fe380f") ≡ true
      → w.self.content ≡ some m
      → z.zmsg_size m ≡ 1
      → (i.zmsg_popstr m).0 ≡ some text
      → c_string text ≡ codes "728a92c6749235ba7002"
      → check_binary w
        ≡ some (tt, record w { self = record (w.self) { content = some (i.zmsg_popstr m).1 } })
  unfolding check_binary Numbers.sequence Strings.flags Owned.public_key Owned.identifier
      Owned.address Owned.content c_string same_bytes
  check_binary-run w key u f m text e1 e2 e3 e4 e5 e6 e7 e8 e9 e10 e11 e12 =
      rw (e1, e2, e3, e4, e5, e6, e7, e8, e9, e10, e11, e12) refl

  -- The content that the object is left with has no frame.
  pub check_binary_lem :
      (w : World)
      → message w.self ≡ said_binary
      → (m : z.ZMsg) × (check_binary w
          ≡ some (tt, record w { self = record (w.self) { content = some m } }))
        × (z.zmsg_size m ≡ 0)
  unfolding c_string
  check_binary_lem w e =
      let (e1, e2, e3, e4, e5, e6) = binary_inv w.self.id w.self e in
      let (key, k, key_data) = key-some w.self.public_key e3 in
      let (u, v, uuid_data) = uuid-some w.self.identifier e4 in
      let (f, g, frame_data) = address-some w.self.address e5 in
      let (m, l, frames) = content-some w.self.content e6 in
      let (popped, left) = i.popstr-frames m _ _ frames in
      let (text, t, text_data) = text-some _ _ popped in
      let size = size-map m ∙ ap length frames in
      (
        (i.zmsg_popstr m).1,
        check_binary-run w key u f m text e1 e2 k key_data v (uuid_eq-same u uuid_data) g
            (streq-same f frame_data) l size t text_data,
        size-map (i.zmsg_popstr m).1 ∙ ap length left,
      )

  binary_fields :
      (n : ℕ) (s : Example z) (sequence : ℕ) (flags key uuid address : Bytes) (content : List Bytes)
      → message_as n s ≡ binary sequence flags key uuid address content
      → (s.sequence ≡ sequence) × (s.flags ≡ flags)
  binary_fields zero s sequence flags key uuid address content e = absurd (cc)
  binary_fields (suc zero) s sequence flags key uuid address content e = absurd (cc)
  binary_fields (suc (suc zero)) s sequence flags key uuid address content e = absurd (cc)
  binary_fields (suc (suc (suc zero))) s sequence flags key uuid address content e = (cc, cc)
  binary_fields (suc (suc (suc (suc zero)))) s sequence flags key uuid address content e =
      absurd (cc)
  binary_fields (suc (suc (suc (suc (suc n))))) s sequence flags key uuid address content e =
      let h = message_as-unknown n s in absurd (cc)

  -- On an object with other flags the assertion on them fails.
  pub check_binary-none :
      (w : World) (flags key uuid address : Bytes) (content : List Bytes)
      → message w.self ≡ binary 123 flags key uuid address content
      → same_bytes (take 4 flags) (codes "b38c") ≡ false
      → check_binary w ≡ none
  unfolding check_binary Numbers.sequence Strings.flags
  check_binary-none w flags key uuid address content e other =
      let (a, b) = binary_fields w.self.id w.self 123 flags key uuid address content e in
      let numbered : (w.self.sequence == 123) ≡ true = rw a refl in
      let differ : same_bytes (take 4 w.self.flags) (codes "b38c") ≡ false = rw b other in
      elim (Bool-cases (ltb (length w.self.flags) 4)) [
        | inl short ↦ rw (numbered, short) refl
        | inr long ↦ rw (numbered, long, differ) refl
      ]
