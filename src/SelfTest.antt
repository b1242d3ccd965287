-- ===== src/SelfTest.antt =====
-- zproto_example_test of src/zproto_example.c: the statements between "@selftest" and "@end" over
-- the object, the receiving socket and the store of configuration items.
pub mod Exchange
pub mod Steps
pub mod Log
pub mod Structures
pub mod Binary
pub mod Types
pub mod Sent
pub mod Exchanged
pub mod Said
pub mod Rounds
pub mod Passes
use zproto.Base.{ℕ, ◌≡◌, Option, none, some, Bool, true, false, List, [], ◌∷◌, ◌++◌, All, ltb, take}
use zproto.Base.{◌==◌, if◌then◌else◌, same_bytes, get_elem?, length}
use mathlib.Core.Option
use mathlib.Core.List.{map}
use zproto.CharArray.{Bytes, c_string, Source, block}
use zproto.CharArray.Laws.{IsByte}
use zproto.Czmq.{Czmq}
use zproto.Zconfig.{Zconfig, codes}
use zproto.Example.{Example, new, id_log, id_structures, id_binary, id_types}
use zproto.Access.Numbers
use zproto.Access.Strings
use zproto.Access.Owned
use zproto.Send.{send}
use zproto.Example.View.{message_as, unknown}
use zproto.Base.{suc, arith, replicate, ◌≢◌, ◌<◌, ◌^◌}
use zproto.Recv.{is_some, recv}
use zproto.Zpl.{zpl}
use zproto.NewZpl.{Created, created, null, aborted, undefined, new_zpl}
use zproto.Delivery.{frames_of}
use zproto.Network.{Network, delivered}

-- What the self test uses of CZMQ besides.
pub record Inspect (z : Czmq) (c : Zconfig z) : Type 0 where
  pub zuuid_eq : z.ZUuid → Bytes → Bool
  pub zframe_streq : z.ZFrame → Bytes → Bool
  pub zmsg_addstr : z.ZMsg → Bytes → z.ZMsg
  pub zmsg_popstr : z.ZMsg → Option Bytes × z.ZMsg
  pub uuid_eq-data : (u : z.ZUuid) (bs : Bytes) → zuuid_eq u bs ≡ same_bytes (z.zuuid_data u) bs
  pub streq-data :
      (f : z.ZFrame) (s : Bytes) → zframe_streq f s ≡ same_bytes (z.zframe_data f) (c_string s)
  pub frames-addstr :
      (m : z.ZMsg) (s : Bytes)
      → map z.zframe_data (z.zmsg_frames (zmsg_addstr m s))
        ≡ map z.zframe_data (z.zmsg_frames m) ++ c_string s ∷ []
  pub popstr-frames :
      (m : z.ZMsg) (f : Bytes) (fs : List Bytes)
      → map z.zframe_data (z.zmsg_frames m) ≡ f ∷ fs
      → (Option.map c_string (zmsg_popstr m).0 ≡ some (c_string f))
        × (map z.zframe_data (z.zmsg_frames (zmsg_popstr m).1) ≡ fs)
  pub items-one :
      (k v : Bytes) → z.zhash_items (z.zhash_insert z.zhash_new k v) ≡ (c_string k, c_string v) ∷ []
  -- The identifier of the self test is not all zeros.
  pub uuid-nonzero :
      z.zuuid_data (c.zuuid_set_str c.zuuid_new (codes "3a60e6850a1e4cc15f3bfd4b42bc6b3e"))
      ≢ replicate 16 0
  -- The frame that zmsg_encode makes of text holds bytes.
  pub encode-IsByte :
      (m : z.ZMsg)
      → All (All (λ b. b < 2 ^ 7)) (map z.zframe_data (z.zmsg_frames m))
      → All IsByte (z.zframe_data (c.zmsg_encode m))

module _ ⦃z : Czmq⦄ ⦃c : Zconfig z⦄ where
  -- `self`, `input`, and the items that `config` stands in.
  pub record World : Type 0 where
    pub self : Example z
    pub input : z.ZSock
    pub tree : c.Tree

  -- Statements; `none` is a failed assertion, a NULL that is followed, or a fault.
  abbrev pub Test : Type 0 → Type 0
  Test A = World → Option (A × World)

  abbrev pub continue : {A B : Type 0} → Option (A × World) → (A → Test B) → Option (B × World)
  continue none f = none
  continue (some (a, w)) f = f a w

  infixl 5 ◌>>=◌ ◌>>◌
  abbrev pub ◌>>=◌ : {A B : Type 0} → Test A → (A → Test B) → Test B
  ◌>>=◌ m f w = continue (m w) f

  abbrev pub ◌>>◌ : {B : Type 0} → Test (Unit {0}) → Test B → Test B
  m >> k = m >>= λ _. k

  abbrev pub get_self : Test (Example z)
  get_self w = some (w.self, w)

  -- A call of a setter.
  abbrev pub change : (Example z → Example z) → Test (Unit {0})
  change f w = some (tt, record w { self = f w.self })

  abbrev pub changed : World → Option (Example z) → Option (Unit {0} × World)
  changed w none = none
  changed w (some s) = some (tt, record w { self = s })

  abbrev pub try_change : (Example z → Option (Example z)) → Test (Unit {0})
  try_change f w = changed w (f w.self)

  abbrev pub assert : Bool → Test (Unit {0})
  assert b w = if b then some (tt, w) else none

  abbrev pub demand : {A : Type 0} → Option A → Test A
  demand none w = none
  demand (some a) w = some (a, w)

  -- assert (streq (pointer, s))
  abbrev pub assert_streq : Option Bytes → Bytes → Test (Unit {0})
  assert_streq pointer s =
      demand pointer >>= λ text. assert (same_bytes (c_string text) (c_string s))

  -- assert (memcmp (mem, s, n) == 0)
  abbrev pub assert_memcmp : Bytes → Bytes → ℕ → Test (Unit {0})
  assert_memcmp mem s n w =
      if ltb (length mem) n then none else assert (same_bytes (take n mem) (take n s)) w

module _ ⦃z : Czmq⦄ where
  pub message_as-unknown :
      (n : ℕ) (s : Example z) → message_as (suc (suc (suc (suc (suc n))))) s ≡ unknown
  message_as-unknown n s = ground arith
