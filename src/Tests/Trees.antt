-- ===== src/Tests/Trees.antt =====
-- The store of items and the text and frame forms behave as `Zconfig` asks.
use zproto.Base.{ℕ, refl, some, [], ◌∷◌}
use zproto.Zconfig.{Zconfig}
use zproto.Tests.Containers.{bare}
use zproto.Tests.Items.{
  Store, children_of, new_child, put_value, locate_child, get_value, Known, get_value-children,
  locate_child-children, new_child-Known, new_child-empty, new_child-fresh, new_child-parent,
  new_child-located, new_child-kept, new_child-other, put_value-Known, put_value-children,
  put_value-other, put_value-kept,
}
use zproto.Tests.Encodings.{
  lookup_first, raised, lowered, raised-IsCString, uuid_of, uuid_of-raised, join, split,
  split-frames,
}

instance abbrev pub trees : Zconfig bare
trees = record {
  Tree = Store;
  Item = ℕ;
  Live = Known;
  entries = children_of;
  zconfig_new = new_child;
  zconfig_put = put_value;
  zconfig_get = get_value;
  zconfig_locate = locate_child;
  get-entries = get_value-children;
  locate-entries = locate_child-children;
  new-Live = new_child-Known;
  new-entries = new_child-empty;
  new-fresh = new_child-fresh;
  new-parent = new_child-parent;
  new-locate = new_child-located;
  new-locate_kept = new_child-kept;
  new-other = new_child-other;
  put-Live = put_value-Known;
  put-entries = put_value-children;
  put-other = put_value-other;
  put-locate_kept = put_value-kept;
  zhash_update = λ h k v. (k, v) ∷ h;
  lookup-update = lookup_first;
  zframe_new = λ bs. bs;
  frame_data-new = λ bs. refl;
  zuuid_new = uuid_of [];
  zuuid_str = λ u. raised u.0;
  zuuid_set_str = λ u s. uuid_of (lowered s);
  uuid_str-text = λ u. raised-IsCString u.0;
  uuid_data-set_str = λ u v. uuid_of-raised v;
  zmsg_encode = join;
  zmsg_decode = λ f. some (split f);
  decode-encode = split-frames;
}
