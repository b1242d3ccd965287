-- ===== src/NewZpl/Containers.antt =====
-- The loops of zproto_example_new_zpl over the children of an item.
use zproto.Base.{
  ◌+◌, ◌≡◌, ◌≢◌, refl, sym, ap, ◌∙◌, Option, none, some, Bool, true, false, ◌&&◌, Bool-cases, inl,
  inr, List, [], ◌∷◌, ◌++◌, All, append_assoc, append-nil, same_bytes, same_bytes_iff, lookup,
  if◌then◌else◌, arith,
}
use zproto.CharArray.{Bytes, c_string}
use zproto.Czmq.{Czmq, IsCString, IsCPair, or_else}
use zproto.Zconfig.{Zconfig}
use zproto.Zconfig.Puts.{values, is_none, new_names, first_new}
use zproto.Zpl.Aliases.{alias_fields}
use zproto.NewZpl.{append_values, update_values}

-- A key that is taken stays so.
taken-append :
    (old m : List (Bytes × Bytes)) (key : Bytes)
    → is_none (lookup key old) ≡ false
    → is_none (lookup key (old ++ m)) ≡ false
unfolding lookup
taken-append [] m key h = cc
taken-append ((n, v) ∷ old) m key h = elim (Bool-cases (same_bytes n key)) [
  | inl same ↦ rw same refl
  | inr differ ↦ rw differ (taken-append old m key (rw differ at h))
]

taken-last :
    (old : List (Bytes × Bytes)) (key v : Bytes)
    → is_none (lookup key (old ++ (key, v) ∷ [])) ≡ false
unfolding lookup
taken-last [] key v = rw ((same_bytes_iff key key).1 refl) refl
taken-last ((n, w) ∷ old) key v = elim (Bool-cases (same_bytes n key)) [
  | inl same ↦ rw same refl
  | inr differ ↦ rw differ (taken-last old key v)
]

-- A name that is taken stands nowhere among the new ones.
lookup-new_names :
    (old l : List (Bytes × Bytes)) (key : Bytes)
    → new_names old l ≡ true
    → is_none (lookup key old) ≡ false
    → lookup key l ≡ none
unfolding lookup
lookup-new_names old [] key h k = refl
lookup-new_names old ((n, v) ∷ rest) key h k =
    let f = first_new old n v rest h in
    elim (Bool-cases (same_bytes n key)) [
      | inl same ↦ let equal = (same_bytes_iff n key).0 same in absurd (let taken = f.absent in cc)
      | inr differ ↦ rw differ (
          lookup-new_names (old ++ (n, c_string v) ∷ []) rest key f.later
            (taken-append old ((n, c_string v) ∷ []) key k))
    ]

module _ ⦃z : Czmq⦄ ⦃c : Zconfig z⦄ where
  -- zlist_append of the values gives the aliases, in their order.
  pub items-append_values :
      (list : z.ZList) (i : zproto.Base.ℕ) (l : List Bytes)
      → All IsCString l
      → z.zlist_items (append_values list (values (alias_fields i l))) ≡ z.zlist_items list ++ l
  unfolding append_values
  items-append_values list i [] h = rw append-nil
  items-append_values list i (s ∷ rest) h =
      items-append_values (z.zlist_append list (c_string s)) (i + 1) rest h.1
      ∙ (ap (λ l. l ++ rest)
            (z.items-append list (c_string s)
              ∙ ap (λ t. z.zlist_items list ++ t ∷ []) (ap c_string h.0 ∙ h.0))
          ∙ append_assoc (z.zlist_items list) (s ∷ []) rest)

  -- zhash_update of names and values gives, under a key, the value that stood with it.
  pub lookup-update_values :
      (hash : z.ZHash) (old l : List (Bytes × Bytes)) (key : Bytes)
      → All IsCPair l
      → new_names old l ≡ true
      → z.zhash_lookup (update_values hash (values l)) key
        ≡ or_else (lookup key l) (z.zhash_lookup hash key)
  unfolding update_values lookup
  lookup-update_values hash old [] key h new = refl
  lookup-update_values hash old ((n, v) ∷ rest) key h new =
      let f = first_new old n v rest new in
      let hash' = c.zhash_update hash n (c_string v) in
      let ih = lookup-update_values hash' (old ++ (n, c_string v) ∷ []) rest key h.1 f.later in
      let here = c.lookup-update hash n (c_string v) key in
      elim (Bool-cases (same_bytes n key)) [
        | inl same ↦
            let equal = (same_bytes_iff n key).0 same in
            let gone = lookup-new_names (old ++ (n, c_string v) ∷ []) rest key f.later (
              ap (λ k. is_none (lookup k (old ++ (n, c_string v) ∷ []))) (sym equal)
              ∙ taken-last old n (c_string v)) in
            ground (arith, ih, here, gone, h.0.0, h.0.1)
        | inr differ ↦ ground (arith, ih, here, h.0.0)
      ]
