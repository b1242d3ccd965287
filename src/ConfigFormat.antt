-- ===== src/ConfigFormat.antt =====
-- zproto_example_zpl and zproto_example_new_zpl (src/zproto_example.c) one behind the other: what a
-- message becomes that is written into a configuration tree and read from it.
pub mod Made
pub mod Log
pub mod Types
pub mod Binary
pub mod SubTrees
pub mod Structures
use zproto.Zpl.{Wrote, wrote, asserted, past_block}
use zproto.Base.{◌≡◌, Option, none, some, replicate}
use zproto.CharArray.{Bytes}
use zproto.Czmq.{Czmq}
use zproto.Zconfig.{Zconfig}
use zproto.Example.{Example}
use zproto.Example.View.{Message, message, frame_bytes}
use zproto.NewZpl.{Created, created, null, aborted, undefined, new_zpl}

module _ ⦃z : Czmq⦄ ⦃c : Zconfig z⦄ where
  -- The call has made an object that says `m`, with the same routing id.
  abbrev pub Says : Message → Option z.ZFrame → Created (Example z) → Type 0
  Says m frame (created s) = (message s ≡ m) × (frame_bytes s.routing_id ≡ frame_bytes frame)
  Says m frame null = ⊥
  Says m frame aborted = ⊥
  Says m frame undefined = ⊥

  -- zproto_example_zpl has returned a tree, of which zproto_example_new_zpl makes such an object.
  abbrev pub SaysAgain :
      (Bytes → Bytes → Bytes) → Message → Option z.ZFrame → Wrote (c.Item × c.Tree) → Type 0
  SaysAgain assign_array m frame asserted = ⊥
  SaysAgain assign_array m frame past_block = ⊥
  SaysAgain assign_array m frame (wrote (root, t)) = Says m frame (new_zpl assign_array t root)

  -- The tree gives no object: NULL.
  abbrev pub IsRefused : (Bytes → Bytes → Bytes) → Wrote (c.Item × c.Tree) → Type 0
  IsRefused assign_array asserted = ⊥
  IsRefused assign_array past_block = ⊥
  IsRefused assign_array (wrote (root, t)) = new_zpl assign_array t root ≡ null
