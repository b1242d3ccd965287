-- ===== src/Zpl/Structures.antt =====
-- The tree that zproto_example_zpl makes of a STRUCTURES message.
use zproto.Zpl.{wrote}
use zproto.Base.{
  ℕ, ◌+◌, ◌≡◌, ◌≢◌, refl, sym, ap, ◌∙◌, Option, none, some, true, List, [], ◌∷◌, ◌++◌, same_bytes,
  lookup,
}
use zproto.CharArray.{Bytes, c_string}
use zproto.Czmq.{Czmq}
use zproto.Zconfig.{Zconfig, codes}
use zproto.Zconfig.Puts.{puts, puts-Live, puts-entries, puts-Kept, values, new_names, Kept}
use zproto.Example.{Example}
use zproto.Decimal.{print_long}
use zproto.Zpl.{zpl_structures, zpl_aliases, zpl_headers, put_aliases, put_headers}
use zproto.Zpl.Header.{Header, Header-Kept, Write-then}
use zproto.Zpl.Aliases.{alias_fields}
use zproto.Zpl.SubItem.{after, added, after_lem, NewNamesIn, Found}
use zproto.NewZpl.Reads.{Has}

module _ ⦃z : Czmq⦄ ⦃c : Zconfig z⦄ where
  abbrev pub alias_part : Option z.ZList → Option (List (Bytes × Bytes))
  alias_part none = none
  alias_part (some list) = some (alias_fields 0 (z.zlist_items list))

  abbrev pub header_part : Option z.ZHash → Option (List (Bytes × Bytes))
  header_part none = none
  header_part (some hash) = some (z.zhash_items hash)

  put_aliases_lem :
      (l : List Bytes) (strings : c.Item) (i : ℕ) (t : c.Tree)
      → put_aliases strings i l t ≡ wrote (tt, puts t strings (alias_fields i l))
  unfolding put_aliases puts
  put_aliases_lem [] strings i t = refl
  put_aliases_lem (a ∷ l) strings i t = put_aliases_lem l strings (i + 1) _

  put_headers_lem :
      (l : List (Bytes × Bytes)) (hash : c.Item) (t : c.Tree)
      → put_headers hash l t ≡ wrote (tt, puts t hash l)
  unfolding put_headers puts
  put_headers_lem [] hash t = refl
  put_headers_lem ((k, v) ∷ l) hash t = put_headers_lem l hash _

  zpl_aliases_lem :
      (o : Option z.ZList) (config : c.Item) (t : c.Tree)
      → zpl_aliases config o t ≡ wrote (tt, after t (codes "aliases") config (alias_part o))
  unfolding zpl_aliases
  zpl_aliases_lem none config t = refl
  zpl_aliases_lem (some list) config t = put_aliases_lem (z.zlist_items list) _ 0 _

  zpl_headers_lem :
      (o : Option z.ZHash) (config : c.Item) (t : c.Tree)
      → zpl_headers config o t ≡ wrote (tt, after t (codes "headers") config (header_part o))
  unfolding zpl_headers
  zpl_headers_lem none config t = refl
  zpl_headers_lem (some hash) config t = put_headers_lem (z.zhash_items hash) _ _

  abbrev pub sequence_field : Example z → List (Bytes × Bytes)
  sequence_field self = (codes "sequence", print_long self.sequence) ∷ []

  abbrev pub tree1 : c.Tree → c.Item → Example z → c.Tree
  tree1 t config self = puts t config (sequence_field self)

  abbrev pub tree2 : c.Tree → c.Item → Example z → c.Tree
  tree2 t config self =
      after (tree1 t config self) (codes "aliases") config (alias_part self.aliases)

  abbrev pub tree3 : c.Tree → c.Item → Example z → c.Tree
  tree3 t config self =
      after (tree2 t config self) (codes "headers") config (header_part self.headers)

  pub zpl_structures_lem :
      (config : c.Item) (self : Example z) (t : c.Tree)
      → zpl_structures config self t ≡ wrote (tt, tree3 t config self)
  unfolding zpl_structures puts
  zpl_structures_lem config self t =
      Write-then (zpl_aliases config self.aliases) _ _
        (zpl_aliases_lem self.aliases config (tree1 t config self))
      ∙ zpl_headers_lem self.headers config (tree2 t config self)

  abbrev pub structures_entries :
      Option (List (Bytes × Bytes))
      → Option (List (Bytes × Bytes))
      → Example z
      → List (Bytes × Bytes)
  structures_entries a h self =
      (values (sequence_field self) ++ added (codes "aliases") a) ++ added (codes "headers") h

  -- The whole tree.
  pub record Written (t : c.Tree) (root config : c.Item) (self : Example z) : Type 0 where
    pub header : Header t root config (codes "ZPROTO_EXAMPLE_STRUCTURES") self.routing_id
    pub has :
        Has t config (structures_entries (alias_part self.aliases) (header_part self.headers) self)
    pub aliases : Found t config (codes "aliases") (alias_part self.aliases)
    pub headers : Found t config (codes "headers") (header_part self.headers)

  sequence_field-new : (self : Example z) → new_names [] (sequence_field self) ≡ true
  unfolding lookup same_bytes c_string
  sequence_field-new self = refl

  headers_absent :
      (o : Option (List (Bytes × Bytes))) (self : Example z)
      → lookup (codes "headers") (values (sequence_field self) ++ added (codes "aliases") o) ≡ none
  unfolding lookup same_bytes
  headers_absent none self = refl
  headers_absent (some l) self = refl

  Found-kept :
      {t t' : c.Tree} {config : c.Item} {name : Bytes} (o : Option (List (Bytes × Bytes)))
      → ((i : c.Item)
          → c.zconfig_locate t config name ≡ some i
          → c.zconfig_locate t' config name ≡ some i)
      → ((j : c.Item) → c.Live t j → config ≢ j → Kept t t' j)
      → Found t config name o
      → Found t' config name o
  Found-kept none located kept f = tt
  Found-kept (some l) located kept (i, e, h, d) =
      let k = kept i h.live d in
      (i, located i e, record { live = k.live; entries = k.entries ∙ h.entries }, d)

  pub written_lem :
      (t : c.Tree) (root config : c.Item) (self : Example z)
      → Header t root config (codes "ZPROTO_EXAMPLE_STRUCTURES") self.routing_id
      → c.entries t config ≡ []
      → NewNamesIn (alias_part self.aliases)
      → NewNamesIn (header_part self.headers)
      → Written (tree3 t config self) root config self
  unfolding lookup same_bytes c_string
  written_lem t root config self h empty new_aliases new_headers =
      let l = sequence_field self in
      let names : new_names (c.entries t config) l ≡ true = rw empty (sequence_field-new self) in
      let h1 =
        Header-Kept h
          (puts-Kept l [] t config root h.live_config h.live_root h.distinct
            (sequence_field-new self))
          (puts-Live l t config config h.live_config) in
      let has1 : Has (tree1 t config self) config (values l) = record {
        live = h1.live_config;
        entries = puts-entries l t config h.live_config names ∙ ap (λ old. old ++ values l) empty;
      } in
      let a =
        after_lem (tree1 t config self) (codes "aliases") config (alias_part self.aliases)
          (values l) has1 (refl, refl, refl) refl new_aliases in
      let root_ne : config ≢ root = λ e. h.distinct (sym e) in
      let h2 = Header-Kept h1 (a.kept root h1.live_root root_ne) a.has.live in
      let b =
        after_lem (tree2 t config self) (codes "headers") config (header_part self.headers) _ a.has
          (refl, refl, refl) (headers_absent (alias_part self.aliases) self) new_headers in
      record {
        header = Header-Kept h2 (b.kept root h2.live_root root_ne) b.has.live;
        has = b.has;
        aliases =
            Found-kept (alias_part self.aliases) (λ i. b.located_before (codes "aliases") i) b.kept
              a.found;
        headers = b.found;
      }
