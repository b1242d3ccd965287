-- ===== src/Zpl/SubItem.antt =====
-- An item under the content with its own children, as zproto_example_zpl makes one for the aliases
-- and one for the headers.
use zproto.Base.{
  append-nil, ◌≡◌, ◌≢◌, refl, ap, ◌∙◌, Option, none, some, true, List, [], ◌∷◌, ◌++◌, lookup,
}
use zproto.CharArray.{Bytes}
use zproto.Czmq.{Czmq}
use zproto.Zconfig.{Zconfig, IsName}
use zproto.Zconfig.Puts.{
  puts, puts-Live, puts-entries, puts-Kept, values, new_names, Kept, Kept-trans, new-Kept,
}
use zproto.NewZpl.Reads.{Has}

module _ ⦃z : Czmq⦄ ⦃c : Zconfig z⦄ where
  abbrev pub made_under : c.Tree → Bytes → c.Item → c.Item × c.Tree
  made_under t name config = c.zconfig_new t name (some config)

  -- The tree with the item `name` under `config` and the children `l` under that.
  abbrev pub with_sub_item : c.Tree → Bytes → c.Item → List (Bytes × Bytes) → c.Tree
  with_sub_item t name config l = puts (made_under t name config).1 (made_under t name config).0 l

  pub record SubItem (t t' : c.Tree) (config item : c.Item) (name : Bytes)
      (l es : List (Bytes × Bytes)) : Type 0 where
    pub config_has : Has t' config (es ++ (name, []) ∷ [])
    pub item_has : Has t' item (values l)
    pub located : c.zconfig_locate t' config name ≡ some item
    pub distinct : config ≢ item
    pub located_before :
        (m : Bytes) (i : c.Item)
        → c.zconfig_locate t config m ≡ some i
        → c.zconfig_locate t' config m ≡ some i
    pub kept : (j : c.Item) → c.Live t j → config ≢ j → Kept t t' j

  some-ne : {A : Type 0} {a b : A} → a ≢ b → some a ≢ some b
  some-ne h e = h (cc)

  pub with_sub_item_lem :
      (t : c.Tree) (name : Bytes) (config : c.Item) (l es : List (Bytes × Bytes))
      → Has t config es
      → IsName name
      → lookup name es ≡ none
      → new_names [] l ≡ true
      → SubItem t (with_sub_item t name config l) config (made_under t name config).0 name l es
  with_sub_item_lem t name config l es h n absent new =
      let item = (made_under t name config).0 in
      let t' = (made_under t name config).1 in
      let live = c.new-Live t name (some config) in
      let none_yet = c.new-entries t name (some config) in
      let (config_live, differ) = c.new-fresh t name (some config) config h.live in
      let absent' : lookup name (c.entries t config) ≡ none = rw h.entries absent in
      let names : new_names (c.entries t' item) l ≡ true = rw none_yet new in
      let config_kept = puts-Kept l [] t' item config live config_live differ new in
      record {
        config_has = record {
          live = config_kept.live;
          entries =
              config_kept.entries
              ∙ (c.new-parent t name config h.live n.2
                  ∙ ap (λ old. old ++ (name, []) ∷ []) h.entries);
        };
        item_has = record {
          live = puts-Live l t' item item live;
          entries = puts-entries l t' item live names ∙ ap (λ old. old ++ values l) none_yet;
        };
        located = config_kept.locate name item (c.new-locate t name config h.live n absent');
        distinct = differ;
        located_before = λ m i e.
            config_kept.locate m i (c.new-locate_kept t name (some config) config i m h.live e);
        kept = λ j live_j d.
            let fresh = c.new-fresh t name (some config) j live_j in
            Kept-trans (new-Kept t name (some config) j live_j (some-ne d))
              (puts-Kept l [] t' item j live fresh.0 fresh.1 new);
      }

  -- The same for an item that is made only if there is something to put under it.
  abbrev pub after : c.Tree → Bytes → c.Item → Option (List (Bytes × Bytes)) → c.Tree
  after t name config none = t
  after t name config (some l) = with_sub_item t name config l

  abbrev pub added : Bytes → Option (List (Bytes × Bytes)) → List (Bytes × Bytes)
  added name none = []
  added name (some l) = (name, []) ∷ []

  abbrev pub NewNamesIn : Option (List (Bytes × Bytes)) → Type 0
  NewNamesIn none = Unit {0}
  NewNamesIn (some l) = new_names [] l ≡ true

  -- The item is found under its name, with its children.
  abbrev pub Found : c.Tree → c.Item → Bytes → Option (List (Bytes × Bytes)) → Type 0
  Found t config name none = Unit {0}
  Found t config name (some l) =
      (i : c.Item) × (c.zconfig_locate t config name ≡ some i) × Has t i (values l) × (config ≢ i)

  pub record Added (t t' : c.Tree) (config : c.Item) (name : Bytes)
      (o : Option (List (Bytes × Bytes))) (es : List (Bytes × Bytes)) : Type 0 where
    pub has : Has t' config (es ++ added name o)
    pub found : Found t' config name o
    pub located_before :
        (m : Bytes) (i : c.Item)
        → c.zconfig_locate t config m ≡ some i
        → c.zconfig_locate t' config m ≡ some i
    pub kept : (j : c.Item) → c.Live t j → config ≢ j → Kept t t' j

  pub after_lem :
      (t : c.Tree) (name : Bytes) (config : c.Item) (o : Option (List (Bytes × Bytes)))
      (es : List (Bytes × Bytes))
      → Has t config es
      → IsName name
      → lookup name es ≡ none
      → NewNamesIn o
      → Added t (after t name config o) config name o es
  after_lem t name config none es h n absent new = record {
    has = rw append-nil h;
    found = tt;
    located_before = λ m i e. e;
    kept = λ j live d. record { live = live; entries = refl; locate = λ m i e. e };
  }
  after_lem t name config (some l) es h n absent new =
      let s = with_sub_item_lem t name config l es h n absent new in
      record {
        has = s.config_has;
        found = ((made_under t name config).0, s.located, s.item_has, s.distinct);
        located_before = s.located_before;
        kept = s.kept;
      }
