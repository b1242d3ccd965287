-- ===== src/Print/Tells.antt =====
-- What the output of zproto_example_print tells of the message.
use zproto.Base.{
  ◌⊎◌, inl, inr, ℕ, ◌<◌, ◌^◌, ◌≡◌, ◌≢◌, refl, sym, ap, ◌∙◌, Option, none, some, [], ◌∷◌, ◌++◌,
  arith,
}
use zproto.CharArray.{Bytes, c_string}
use zproto.Czmq.{Czmq}
use zproto.Zconfig.{codes}
use zproto.Decimal.{print_long, strtoll}
use zproto.Decimal.RoundTrip.{strtoll-print_long}
use zproto.Example.{Example, id_log, id_structures, id_binary, id_types}
use zproto.Example.View.{IsObject, message, message_as, text_of, log_message, types_message}
use zproto.Print.{
  Outputs, line, print, print_as, print_log, print_types, print_text, print_structures,
  print_binary,
}

print_long-same : (m n : ℕ) → m < 2 ^ 64 → n < 2 ^ 64 → print_long m ≡ print_long n → m ≡ n
print_long-same m n h k e =
    let a = strtoll-print_long m h in
    let b = strtoll-print_long n k in ap (λ p. p.0) (sym a ∙ (ap strtoll e ∙ b))

snoc-same : (s t : Bytes) (c : ℕ) → s ++ c ∷ [] ≡ t ++ c ∷ [] → s ≡ t
snoc-same [] [] c e = refl
snoc-same [] (b ∷ []) c e = cc
snoc-same [] (b ∷ d ∷ t) c e = cc
snoc-same (a ∷ []) [] c e = cc
snoc-same (a ∷ d ∷ s) [] c e = cc
snoc-same (a ∷ s) (b ∷ t) c e = let h = snoc-same s t c cc in cc

append-same : (label s t : Bytes) → label ++ s ≡ label ++ t → s ≡ t
append-same [] s t e = e
append-same (b ∷ label) s t e = append-same label s t cc

labelled-same :
    (label : Bytes) (m n : ℕ)
    → m < 2 ^ 64
    → n < 2 ^ 64
    → label ++ print_long m ≡ label ++ print_long n
    → m ≡ n
labelled-same label m n h k e =
    print_long-same m n h k (append-same label (print_long m) (print_long n) e)

quoted-same :
    (label s t : Bytes)
    → label ++ c_string s ++ b'\'' ∷ [] ≡ label ++ c_string t ++ b'\'' ∷ []
    → c_string s ≡ c_string t
quoted-same label s t e =
    append-same label (c_string s) (c_string t)
      (snoc-same (label ++ c_string s) (label ++ c_string t) b'\'' e)

module _ ⦃z : Czmq⦄ where
  text-same : (o o' : Option Bytes) → print_text o ≡ print_text o' → text_of o ≡ text_of o'
  unfolding print_text
  text-same none none e = refl
  text-same none (some t) e = cc
  text-same (some t) none e = cc
  text-same (some t) (some t') e = quoted-same (codes "    data='") t t' cc

  log-same :
      (self other : Example z)
      → IsObject self
      → IsObject other
      → print_log self ≡ print_log other
      → log_message self ≡ log_message other
  unfolding print_log
  log-same self other v w e =
      let a =
        labelled-same (codes "    sequence=") self.sequence other.sequence
          (omega (arith, v.sequence)) (omega (arith, w.sequence)) cc in
      let b =
        labelled-same (codes "    level=") self.level other.level (omega (arith, v.level))
          (omega (arith, w.level)) cc in
      let d =
        labelled-same (codes "    event=") self.event other.event (omega (arith, v.event))
          (omega (arith, w.event)) cc in
      let f =
        labelled-same (codes "    node=") self.node other.node (omega (arith, v.node))
          (omega (arith, w.node)) cc in
      let g =
        labelled-same (codes "    peer=") self.peer other.peer (omega (arith, v.peer))
          (omega (arith, w.peer)) cc in
      let h = labelled-same (codes "    time=") self.time other.time v.time w.time cc in
      let i = quoted-same (codes "    host='") self.host other.host cc in
      let j = text-same self.text other.text cc in cc

  types-same :
      (self other : Example z)
      → IsObject self
      → IsObject other
      → print_types self ≡ print_types other
      → types_message self ≡ types_message other
  unfolding print_types
  types-same self other v w e =
      let a =
        labelled-same (codes "    sequence=") self.sequence other.sequence
          (omega (arith, v.sequence)) (omega (arith, w.sequence)) cc in
      let b1 =
        quoted-same (codes "    client_forename='") self.client_forename other.client_forename cc in
      let b2 =
        quoted-same (codes "    client_surname='") self.client_surname other.client_surname cc in
      let b3 =
        quoted-same (codes "    client_mobile='") self.client_mobile other.client_mobile cc in
      let b4 = quoted-same (codes "    client_email='") self.client_email other.client_email cc in
      let c1 =
        quoted-same (codes "    supplier_forename='") self.supplier_forename other.supplier_forename
          cc in
      let c2 =
        quoted-same (codes "    supplier_surname='") self.supplier_surname other.supplier_surname
          cc in
      let c3 =
        quoted-same (codes "    supplier_mobile='") self.supplier_mobile other.supplier_mobile cc in
      let c4 =
        quoted-same (codes "    supplier_email='") self.supplier_email other.supplier_email cc in
      cc

  -- The first line.
  abbrev title : Outputs → Bytes
  title (line s ∷ rest) = s
  title _ = []

  types-binary : codes "ZPROTO_EXAMPLE_TYPES:" ≢ codes "ZPROTO_EXAMPLE_BINARY:"
  types-binary = λ e. cc

  module _ (canonical : z.ZUuid → Bytes) where
    -- The output of an object without a known id is empty.
    id-cases :
        (n : ℕ) (other : Example z)
        → (n ≡ id_log)
          ⊎ ((n ≡ id_structures)
              ⊎ ((n ≡ id_binary) ⊎ ((n ≡ id_types) ⊎ (print_as canonical n other ≡ []))))
    unfolding print_as
    id-cases n other = ground arith

    log-id :
        (n : ℕ) (self other : Example z) → print_log self ≡ print_as canonical n other → n ≡ id_log
    unfolding print_as print_log print_structures print_binary print_types
    log-id n self other e = elim (id-cases n other) [
      | inl q ↦ q
      | inr (inl q) ↦ (let e' : print_log self ≡ print_structures other = rw q at e in cc)
      | inr (inr (inl q)) ↦
          (let e' : print_log self ≡ print_binary canonical other = rw q at e in cc)
      | inr (inr (inr (inl q))) ↦ (let e' : print_log self ≡ print_types other = rw q at e in cc)
      | inr (inr (inr (inr q))) ↦ cc
    ]

    types-id :
        (n : ℕ) (self other : Example z)
        → print_types self ≡ print_as canonical n other
        → n ≡ id_types
    unfolding print_as print_log print_structures print_binary print_types
    types-id n self other e = elim (id-cases n other) [
      | inl q ↦ (let e' : print_types self ≡ print_log other = rw q at e in cc)
      | inr (inl q) ↦ (let e' : print_types self ≡ print_structures other = rw q at e in cc)
      | inr (inr (inl q)) ↦
          (let e' : print_types self ≡ print_binary canonical other = rw q at e in
            absurd (types-binary (ap title e')))
      | inr (inr (inr (inl q))) ↦ q
      | inr (inr (inr (inr q))) ↦ cc
    ]

    message-id : (self : Example z) (n : ℕ) → self.id ≡ n → message self ≡ message_as n self
    message-id self n e = ap (λ k. message_as k self) e

    print-id :
        (self : Example z) (n : ℕ) → self.id ≡ n → print canonical self ≡ print_as canonical n self
    unfolding print
    print-id self n e = ap (λ k. print_as canonical k self) e

    -- The output of zproto_example_print tells the message of a LOG or TYPES object: a well formed
    -- object with the same output, whatever its id, says the same message.
    pub print-message :
        (self other : Example z)
        → IsObject self
        → IsObject other
        → (self.id ≡ id_log) ⊎ (self.id ≡ id_types)
        → print canonical self ≡ print canonical other
        → message self ≡ message other
    unfolding print_as
    print-message self other v w (inl i) e =
        let e' : print_log self ≡ print_as canonical other.id other =
          sym (print-id self id_log i) ∙ (e ∙ print-id other other.id refl) in
        let j = log-id other.id self other e' in
        message-id self id_log i
        ∙ (log-same self other v w (e' ∙ ap (λ n. print_as canonical n other) j)
            ∙ sym (message-id other id_log j))
    print-message self other v w (inr i) e =
        let e' : print_types self ≡ print_as canonical other.id other =
          sym (print-id self id_types i) ∙ (e ∙ print-id other other.id refl) in
        let j = types-id other.id self other e' in
        message-id self id_types i
        ∙ (types-same self other v w (e' ∙ ap (λ n. print_as canonical n other) j)
            ∙ sym (message-id other id_types j))
