-- ===== src/Example/View.antt =====
-- What a message says, apart from how the object holds it: the abstract message of each type, and
-- the values that the C types of the fields allow.
use zproto.Base.{
  ℕ, ◌<◌, ◌^◌, ◌≡◌, Option, none, some, List, [], ◌∷◌, length, All, replicate, lookup, ◌==◌,
  if◌then◌else◌,
}
use mathlib.Core.List.{map}
use zproto.CharArray.{Bytes, c_string}
use zproto.CharArray.Laws.{IsArray, IsByte}
use zproto.Czmq.{Czmq}
use zproto.Example.{Example, switch, id_binary}

-- The eight strings of a TYPES message.
pub record Names : Type 0 where
  pub client_forename : Bytes
  pub client_surname : Bytes
  pub client_mobile : Bytes
  pub client_email : Bytes
  pub supplier_forename : Bytes
  pub supplier_surname : Bytes
  pub supplier_mobile : Bytes
  pub supplier_email : Bytes

-- The headers are the function from a key to its value.
pub data Message : Type 0 where
  log : (sequence level event node peer time : ℕ) → (host text : Bytes) → Message
  structures : (sequence : ℕ) → (aliases : List Bytes) → (headers : Bytes → Option Bytes) → Message
  binary :
      (sequence : ℕ)
      → (flags public_key identifier address : Bytes) → (content : List Bytes) → Message
  types : (sequence : ℕ) → Names → Message
  unknown : Message

-- data, or the empty string
abbrev pub text_of : Option Bytes → Bytes
text_of none = []
text_of (some text) = c_string text

module _ ⦃z : Czmq⦄ where
  abbrev pub alias_list : Option z.ZList → List Bytes
  alias_list none = []
  alias_list (some list) = z.zlist_items list

  abbrev pub header_list : Option z.ZHash → List (Bytes × Bytes)
  header_list none = []
  header_list (some hash) = z.zhash_items hash

  abbrev pub key_bytes : Option z.ZChunk → Bytes
  key_bytes none = []
  key_bytes (some chunk) = z.zchunk_data chunk

  -- A missing identifier counts as zeros.
  abbrev pub uuid_bytes : Option z.ZUuid → Bytes
  uuid_bytes none = replicate 16 0
  uuid_bytes (some uuid) = z.zuuid_data uuid

  abbrev pub frame_bytes : Option z.ZFrame → Bytes
  frame_bytes none = []
  frame_bytes (some frame) = z.zframe_data frame

  -- A missing content counts as one empty frame.
  abbrev pub content_parts : Option z.ZMsg → List Bytes
  content_parts none = [] ∷ []
  content_parts (some content) = map z.zframe_data (z.zmsg_frames content)

  abbrev pub names : Example z → Names
  names self = record {
    client_forename = c_string self.client_forename;
    client_surname = c_string self.client_surname;
    client_mobile = c_string self.client_mobile;
    client_email = c_string self.client_email;
    supplier_forename = c_string self.supplier_forename;
    supplier_surname = c_string self.supplier_surname;
    supplier_mobile = c_string self.supplier_mobile;
    supplier_email = c_string self.supplier_email;
  }

  abbrev pub log_message : Example z → Message
  log_message self =
      log self.sequence self.level self.event self.node self.peer self.time (c_string self.host)
        (text_of self.text)

  abbrev pub structures_message : Example z → Message
  structures_message self =
      structures self.sequence (alias_list self.aliases)
        (λ key. lookup key (header_list self.headers))

  abbrev pub binary_message : Example z → Message
  binary_message self =
      binary self.sequence self.flags (key_bytes self.public_key) (uuid_bytes self.identifier)
        (frame_bytes self.address) (content_parts self.content)

  abbrev pub types_message : Example z → Message
  types_message self = types self.sequence (names self)

  abbrev pub message_as : ℕ → Example z → Message
  message_as id self =
      switch id (log_message self) (structures_message self) (binary_message self)
        (types_message self) unknown

  -- What the object says, by its message id.
  abbrev pub message : Example z → Message
  message self = message_as self.id self

  -- The frames of the message that follow the first.
  abbrev pub frames_as : ℕ → Example z → List Bytes
  frames_as id self =
      if id == id_binary then frame_bytes self.address ∷ content_parts self.content else []

  abbrev pub further_frames : Example z → List Bytes
  further_frames self = frames_as self.id self

  -- The values that the C types of the fields hold, with a C string in each char array.
  pub record IsObject (self : Example z) : Type 0 where
    pub id : self.id < 2 ^ 32
    pub sequence : self.sequence < 2 ^ 16
    pub level : self.level < 2 ^ 8
    pub event : self.event < 2 ^ 8
    pub node : self.node < 2 ^ 16
    pub peer : self.peer < 2 ^ 16
    pub time : self.time < 2 ^ 64
    pub host : IsArray self.host
    pub flags : length self.flags ≡ 4
    pub flag_bytes : All IsByte self.flags
    pub client_forename : IsArray self.client_forename
    pub client_surname : IsArray self.client_surname
    pub client_mobile : IsArray self.client_mobile
    pub client_email : IsArray self.client_email
    pub supplier_forename : IsArray self.supplier_forename
    pub supplier_surname : IsArray self.supplier_surname
    pub supplier_mobile : IsArray self.supplier_mobile
    pub supplier_email : IsArray self.supplier_email

  -- What the length fields of the protocol can count: strings, lists and keys that the object
  -- holds without a bound of their own.
  pub record Fits (self : Example z) : Type 0 where
    pub text : length (text_of self.text) < 2 ^ 32
    pub alias_count : length (alias_list self.aliases) < 2 ^ 32
    pub aliases : All (λ s. length s < 2 ^ 32) (alias_list self.aliases)
    pub header_count : length (header_list self.headers) < 2 ^ 32
    pub headers : All (λ p. (length p.0 < 2 ^ 8) × (length p.1 < 2 ^ 32)) (header_list self.headers)
    pub public_key : length (key_bytes self.public_key) < 2 ^ 32
