-- ===== src/Example.antt =====
-- The message object of src/zproto_example.c, `struct _zproto_example_t`.
pub mod View
use zproto.Base.{ℕ, Bool, true, false, Option, none, replicate, ◌==◌, if◌then◌else◌}
use zproto.CharArray.{Bytes, array_size}
use zproto.Czmq.{Czmq}

-- The message ids of include/zproto_example.h.
abbrev pub id_log : ℕ
id_log = 1

abbrev pub id_structures : ℕ
id_structures = 2

abbrev pub id_binary : ℕ
id_binary = 3

abbrev pub id_types : ℕ
id_types = 4

-- switch (self->id)
abbrev pub switch {ℓ} : {A : Type ℓ} → ℕ → A → A → A → A → A → A
switch id log structures binary types other =
    if id == id_log
    then log
    else if id == id_structures
    then structures
    else if id == id_binary
    then binary
    else if id == id_types
    then types
    else other

pub if_all : {A : Type 0} (P : A → Type 0) (b : Bool) (x y : A) → P x → P y → P (if b then x else y)
if_all P true x y p q = p
if_all P false x y p q = q

-- What holds of every case holds of the switch.
pub switch_all :
    {A : Type 0} (P : A → Type 0) (id : ℕ) (a b c d e : A)
    → P a
    → P b
    → P c
    → P d
    → P e
    → P (switch id a b c d e)
switch_all P id a b c d e ha hb hc hd he = if_all P (id == id_log) a _ ha (
    if_all P (id == id_structures) b _ hb
      (if_all P (id == id_binary) c _ hc (if_all P (id == id_types) d e hd he)))

-- `id` is an int, by its 32-bit pattern. `needle` and `ceiling` are in `Put.Frame` and
-- `Get.Machine`.
pub record Example (z : Czmq) : Type 0 where
  pub routing_id : Option z.ZFrame
  pub id : ℕ
  pub sequence : ℕ
  pub level : ℕ
  pub event : ℕ
  pub node : ℕ
  pub peer : ℕ
  pub time : ℕ
  pub host : Bytes
  pub text : Option Bytes
  pub aliases : Option z.ZList
  pub headers : Option z.ZHash
  pub headers_bytes : ℕ
  pub flags : Bytes
  pub public_key : Option z.ZChunk
  pub identifier : Option z.ZUuid
  pub address : Option z.ZFrame
  pub content : Option z.ZMsg
  pub client_forename : Bytes
  pub client_surname : Bytes
  pub client_mobile : Bytes
  pub client_email : Bytes
  pub supplier_forename : Bytes
  pub supplier_surname : Bytes
  pub supplier_mobile : Bytes
  pub supplier_email : Bytes

module _ ⦃z : Czmq⦄ where
  -- zproto_example_new: zmalloc fills the object by zeros.
  unfoldable pub new : Example z
  new =
      let zeros = replicate array_size 0 in
      record {
        routing_id = none;
        id = 0;
        sequence = 0;
        level = 0;
        event = 0;
        node = 0;
        peer = 0;
        time = 0;
        host = zeros;
        text = none;
        aliases = none;
        headers = none;
        headers_bytes = 0;
        flags = replicate 4 0;
        public_key = none;
        identifier = none;
        address = none;
        content = none;
        client_forename = zeros;
        client_surname = zeros;
        client_mobile = zeros;
        client_email = zeros;
        supplier_forename = zeros;
        supplier_surname = zeros;
        supplier_mobile = zeros;
        supplier_email = zeros;
      }
