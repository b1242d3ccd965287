-- ===== src/Get.antt =====
-- The GET_* macros (src/zproto_example.c, "Network data encoding macros"), over the state that
-- zproto_example_recv works on. `needle` holds the bytes from `self->needle` up to
-- `self->ceiling`; a read past the ceiling, or a write past a char array, is a fault.
pub mod Runs
pub mod Cuts
pub mod Safe
pub mod Costs
pub mod Breaks
use zproto.Base.{ℕ, zero, suc, ◌+◌, ◌*◌, ◌^◌, Bool, true, false, Option, none, some}
use zproto.Base.{ltb, if◌then◌else◌, length, take, drop, get_elem?}
use zproto.CharArray.{Bytes, c_string, fill_array}

-- The `int rc` of zproto_example_recv: 0, -1 and -2.
pub data Rc : Type 0 where
  success interrupted bad : Rc

-- How a statement ends: it goes on with a value, it goes to the label `malformed` while the
-- variable `rc` has the value given, or its behaviour is undefined.
pub data Outcome (A : Type 0) : Type 0 where
  done : A → Outcome A
  malformed : Rc → Outcome A
  fault : Outcome A

pub record Machine (S : Type 0) : Type 0 where
  pub self : S
  pub needle : Bytes

abbrev pub at : {S : Type 0} → S → Bytes → Machine S
at s bs = record { self = s; needle = bs }

abbrev pub Get : Type 0 → Type 0 → Type 0
Get S A = Machine S → Outcome A × Machine S

module _ {S : Type 0} where
  abbrev pub continue :
      {A B : Type 0} → Outcome A × Machine S → (A → Get S B) → Outcome B × Machine S
  continue (done a, m) f = f a m
  continue (malformed rc, m) f = (malformed rc, m)
  continue (fault, m) f = (fault, m)

  infixl 5 ◌>>=◌ ◌>>◌
  abbrev pub ◌>>=◌ : {A B : Type 0} → Get S A → (A → Get S B) → Get S B
  ◌>>=◌ g f m = continue (g m) f

  abbrev pub ◌>>◌ : {B : Type 0} → Get S (Unit {0}) → Get S B → Get S B
  g >> h = g >>= λ _. h

  abbrev pub pure : {A : Type 0} → A → Get S A
  pure a m = (done a, m)

  -- `goto malformed`
  abbrev pub leave : {A : Type 0} → Rc → Get S A
  leave rc m = (malformed rc, m)

  unfoldable pub gets : {A : Type 0} → (S → A) → Get S A
  gets f m = (done (f m.self), m)

  unfoldable pub modify : (S → S) → Get S (Unit {0})
  modify f m = (done tt, record m { self = f m.self })

  -- if (!good) { rc = ...; goto malformed; }
  unfoldable pub check : Bool → Rc → Get S (Unit {0})
  check true rc m = (done tt, m)
  check false rc m = (malformed rc, m)

  -- A value that is there, or undefined behaviour.
  unfoldable pub demand : {A : Type 0} → Option A → Get S A
  demand none m = (fault, m)
  demand (some a) m = (done a, m)

  -- if (self->needle + size > self->ceiling) goto malformed;
  unfoldable pub room : ℕ → Rc → Get S (Unit {0})
  room size rc m = if ltb (length m.needle) size then (malformed rc, m) else (done tt, m)

  -- self->needle [i]
  unfoldable pub peek : ℕ → Get S ℕ
  peek i m = elim (get_elem? m.needle i) [ none ↦ (fault, m) | some b ↦ (done b, m) ]

  -- The `size` bytes at the needle, as memcpy reads them.
  unfoldable pub octets : ℕ → Get S Bytes
  octets size m = if ltb (length m.needle) size then (fault, m) else (done (take size m.needle), m)

  -- self->needle += size
  unfoldable pub advance : ℕ → Get S (Unit {0})
  advance size m = (done tt, record m { needle = drop size m.needle })

  -- A block of `size` bytes behind a bounds check.
  unfoldable pub get_block : ℕ → Rc → Get S Bytes
  get_block size rc = do room size rc; bytes ← octets size; advance size; pure bytes

  -- GET_OCTETS
  unfoldable pub get_octets : ℕ → Get S Bytes
  get_octets size = get_block size success

  -- GET_NUMBER1
  unfoldable pub get_number1 : Get S ℕ
  get_number1 = do room 1 success; a ← peek 0; advance 1; pure a

  -- GET_NUMBER2
  unfoldable pub get_number2 : Get S ℕ
  get_number2 = do room 2 success; a ← peek 0; b ← peek 1; advance 2; pure (a * 2 ^ 8 + b)

  -- GET_NUMBER4
  unfoldable pub get_number4 : Get S ℕ
  get_number4 = do
    room 4 success
    a ← peek 0
    b ← peek 1
    c ← peek 2
    d ← peek 3
    advance 4
    pure (a * 2 ^ 24 + b * 2 ^ 16 + c * 2 ^ 8 + d)

  -- GET_NUMBER8
  unfoldable pub get_number8 : Get S ℕ
  get_number8 = do
    room 8 success
    a ← peek 0
    b ← peek 1
    c ← peek 2
    d ← peek 3
    e ← peek 4
    f ← peek 5
    g ← peek 6
    h ← peek 7
    advance 8
    pure (
        a * 2 ^ 56 + b * 2 ^ 48 + c * 2 ^ 40 + d * 2 ^ 32 + e * 2 ^ 24 + f * 2 ^ 16 + g * 2 ^ 8 + h)

  -- GET_STRING into the array `cells`; the result is the array after it.
  unfoldable pub get_string : Bytes → Get S Bytes
  get_string cells = do
    string_size ← get_number1
    room string_size success
    bytes ← octets string_size
    host ← demand (fill_array cells bytes)
    advance string_size
    pure host

  -- GET_LONGSTR: the result is the C string in the block that malloc has given.
  unfoldable pub get_longstr : Get S Bytes
  get_longstr = do
    string_size ← get_number4
    room string_size success
    bytes ← octets string_size
    advance string_size
    pure (c_string bytes)
