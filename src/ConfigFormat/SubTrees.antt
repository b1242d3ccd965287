-- ===== src/ConfigFormat/SubTrees.antt =====
-- The fields of a STRUCTURES message, read back from the items that _zpl has made of them.
use zproto.Base.{
  ℕ, ◌%◌, ◌^◌, ◌<◌, ◌≡◌, refl, sym, ap, ◌∙◌, Option, none, some, true, List, [], ◌++◌, arith,
  length, same_bytes, lookup,
}
use mathlib.Core.Path.{fun_ext}
use zproto.CharArray.{Bytes, c_string}
use zproto.Czmq.{Czmq, or_else}
use zproto.Zconfig.{Zconfig, codes, IsName}
use zproto.Zconfig.Puts.{values, new_names}
use zproto.Example.{Example, new}
use zproto.Example.View.{IsObject, structures, structures_message, alias_list, header_list}
use zproto.Decimal.{print_long}
use mathlib.Core.Option
use zproto.Zpl.Structures.{alias_part, header_part, structures_entries, Written}
use zproto.Zpl.Aliases.{alias_fields, alias_fields-new}
use zproto.Zpl.SubItem.{NewNamesIn, Found}
use zproto.NewZpl.{created, read_structures, read_aliases, read_headers}
use zproto.NewZpl.Reads.{Has, Created-then, get_number_lem}
use zproto.NewZpl.Containers.{items-append_values, lookup-update_values}
use zproto.ConfigFormat.Made.{}

module _ ⦃z : Czmq⦄ ⦃c : Zconfig z⦄ where
  or_else-none : (o : Option Bytes) → or_else o none ≡ o
  or_else-none none = refl
  or_else-none (some v) = refl

  -- The children that new_zpl goes through, or NULL.
  locate-Found :
      {t : c.Tree} {config : c.Item} (name : Bytes) {es : List (Bytes × Bytes)}
      (o : Option (List (Bytes × Bytes)))
      → Has t config es
      → IsName name
      → (o ≡ none → lookup name es ≡ none)
      → Found t config name o
      → (children : Option c.Item) × (c.zconfig_locate t config name ≡ children)
        × (Option.map (c.entries t) children ≡ Option.map values o)
  locate-Found name none h n absent f =
      (none, c.locate-entries _ _ name h.live n (ap (lookup name) h.entries ∙ absent refl), refl)
  locate-Found name (some l) h n absent (i, e, has, _) = (some i, e, ap some has.entries)

  aliases-read :
      (o : Option z.ZList) (t : c.Tree) (children : Option c.Item) (s : Example z)
      → Option.map (c.entries t) children ≡ Option.map values (alias_part o)
      → s.aliases ≡ none
      → alias_list (read_aliases t children s).aliases ≡ alias_list o
  unfolding read_aliases
  aliases-read none t none s e k = ap alias_list k
  aliases-read none t (some i) s e k = cc
  aliases-read (some list) t none s e k = cc
  aliases-read (some list) t (some i) s e k =
      let entries : c.entries t i ≡ values (alias_fields 0 (z.zlist_items list)) = cc in
      rw entries (
        items-append_values z.zlist_new 0 (z.zlist_items list) (z.items-text list)
        ∙ ap (λ l. l ++ z.zlist_items list) z.items-new)

  headers-read :
      (o : Option z.ZHash) (t : c.Tree) (children : Option c.Item) (s : Example z) (key : Bytes)
      → Option.map (c.entries t) children ≡ Option.map values (header_part o)
      → NewNamesIn (header_part o)
      → s.headers ≡ none
      → lookup key (header_list (read_headers t children s).headers) ≡ lookup key (header_list o)
  unfolding read_headers
  headers-read none t none s key e new k = ap (λ h. lookup key (header_list h)) k
  headers-read none t (some i) s key e new k = cc
  headers-read (some hash) t none s key e new k = cc
  headers-read (some hash) t (some i) s key e new k =
      let l = z.zhash_items hash in
      let entries : c.entries t i ≡ values l = cc in
      rw entries (
        sym (z.lookup-items _ key)
        ∙ (lookup-update_values z.zhash_new [] l key (z.hash_items-text hash) new
            ∙ (ap (or_else (lookup key l)) (z.lookup-new key) ∙ or_else-none (lookup key l))))

  -- The loops change one field each.
  kept-read :
      (t : c.Tree) (a h : Option c.Item) (s : Example z)
      → ((read_headers t h (read_aliases t a s)).id ≡ s.id)
        × ((read_headers t h (read_aliases t a s)).routing_id ≡ s.routing_id)
        × ((read_headers t h (read_aliases t a s)).sequence ≡ s.sequence)
        × ((read_headers t h (read_aliases t a s)).aliases ≡ (read_aliases t a s).aliases)
        × ((read_aliases t a s).headers ≡ s.headers)
  unfolding read_aliases read_headers
  kept-read t none none s = (refl, refl, refl, refl, refl)
  kept-read t none (some h) s = (refl, refl, refl, refl, refl)
  kept-read t (some a) none s = (refl, refl, refl, refl, refl)
  kept-read t (some a) (some h) s = (refl, refl, refl, refl, refl)

  aliases_absent :
      (a h : Option (List (Bytes × Bytes))) (self : Example z)
      → a ≡ none
      → lookup (codes "aliases") (structures_entries a h self) ≡ none
  unfolding lookup same_bytes
  aliases_absent none none self e = refl
  aliases_absent none (some l) self e = refl
  aliases_absent (some l) h self e = cc

  headers_absent :
      (a h : Option (List (Bytes × Bytes))) (self : Example z)
      → h ≡ none
      → lookup (codes "headers") (structures_entries a h self) ≡ none
  unfolding lookup same_bytes
  headers_absent none none self e = refl
  headers_absent (some l) none self e = refl
  headers_absent a (some l) self e = cc

  sequence_entry :
      (a h : Option (List (Bytes × Bytes))) (self : Example z)
      → lookup (codes "sequence") (structures_entries a h self)
        ≡ some (c_string (print_long self.sequence))
  unfolding lookup same_bytes
  sequence_entry a h self = refl

  pub alias_part-new :
      (o : Option z.ZList) → length (alias_list o) < 2 ^ 64 → NewNamesIn (alias_part o)
  alias_part-new none h = tt
  alias_part-new (some list) h = alias_fields-new (z.zlist_items list) h

  pub header_part-new :
      (o : Option z.ZHash) → new_names [] (header_list o) ≡ true → NewNamesIn (header_part o)
  header_part-new none h = tt
  header_part-new (some hash) h = h

  structures_cong :
      {n n' : ℕ} {l l' : List Bytes} {f f' : Bytes → Option Bytes}
      → n ≡ n'
      → l ≡ l'
      → f ≡ f'
      → structures n l f ≡ structures n' l' f'
  structures_cong a b d = cc

  -- What new_zpl makes of the tree, up to what it says.
  pub reread_fields :
      (t : c.Tree) (root config : c.Item) (self s : Example z)
      → Written t root config self
      → IsObject self
      → NewNamesIn (header_part self.headers)
      → s.aliases ≡ none
      → s.headers ≡ none
      → (s' : Example z) × (read_structures t config s ≡ created s')
        × (s'.id ≡ s.id)
        × (s'.routing_id ≡ s.routing_id)
        × (structures_message s' ≡ structures_message self)
  unfolding read_structures c_string
  reread_fields t root config self s w v new no_aliases no_headers =
      let a = alias_part self.aliases in
      let h = header_part self.headers in
      let (ca, ea, fa) =
        locate-Found (codes "aliases") a w.has (refl, refl, refl) (aliases_absent a h self)
          w.aliases in
      let (ch, eh, fh) =
        locate-Found (codes "headers") h w.has (refl, refl, refl) (headers_absent a h self)
          w.headers in
      let s1 : Example z = record s { sequence = self.sequence % 2 ^ 16 } in
      let (e1, e2, e3, e4, e5) = kept-read t ca ch s1 in
      (
        read_headers t ch (read_aliases t ca s1),
        Created-then _ (
              get_number_lem t config _ w.has (codes "sequence") self.sequence
                (omega (arith, v.sequence)) (refl, refl, refl) (sequence_entry a h self))
            ∙ (ap
                  (λ o. created (
                    read_headers t (c.zconfig_locate t config (codes "headers"))
                      (read_aliases t o s1)))
                  ea
                ∙ ap (λ o. created (read_headers t o (read_aliases t ca s1))) eh),
        e1,
        e2,
        structures_cong (e3 ∙ omega (arith, v.sequence))
            (ap alias_list e4 ∙ aliases-read self.aliases t ca s1 fa no_aliases)
            (fun_ext (λ key.
              headers-read self.headers t ch (read_aliases t ca s1) key fh new (e5 ∙ no_headers))),
      )
