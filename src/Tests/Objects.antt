-- ===== src/Tests/Objects.antt =====
-- Concrete messages: those of the program's self test, zproto_example_test.
use zproto.Base.{ℕ, ◌-◌, ◌^◌, ◌<◌, refl, none, some, [], ◌∷◌, ◌++◌, length, replicate, arith}
use zproto.CharArray.{Bytes, c_string, strlen}
use zproto.CharArray.Laws.{IsArray}
use zproto.Example.{Example}
use zproto.Example.View.{IsObject, Fits}
use zproto.Tests.Containers.{bare}

-- A char array that holds the text.
abbrev pub array : Bytes → Bytes
array s = s ++ replicate (256 - length s) 0

abbrev pub localhost : Bytes
localhost = 108 ∷ 111 ∷ 99 ∷ 97 ∷ 108 ∷ 104 ∷ 111 ∷ 115 ∷ 116 ∷ []

abbrev pub blank : Example bare
blank = record {
  routing_id = none;
  id = 0;
  sequence = 123;
  level = 2;
  event = 3;
  node = 45536;
  peer = 65535;
  time = 1427261426;
  host = array localhost;
  text = some (84 ∷ 104 ∷ 105 ∷ 115 ∷ []);
  aliases = some (localhost ∷ (65 ∷ []) ∷ []);
  headers = some ((localhost, 116 ∷ 99 ∷ 112 ∷ []) ∷ []);
  headers_bytes = 0;
  flags = 98 ∷ 51 ∷ 56 ∷ 99 ∷ [];
  public_key = some (56 ∷ 57 ∷ 0 ∷ 102 ∷ []);
  identifier = none;
  address = some (48 ∷ 50 ∷ []);
  content = some ((55 ∷ 50 ∷ 56 ∷ []) ∷ []);
  client_forename = array localhost;
  client_surname = array [];
  client_mobile = array [];
  client_email = array [];
  supplier_forename = array [];
  supplier_surname = array [];
  supplier_mobile = array [];
  supplier_email = array [];
}

abbrev pub message_with_id : ℕ → Example bare
message_with_id n = record blank { id = n }

empty-IsArray : IsArray (array [])
unfolding strlen c_string
empty-IsArray = omega arith

localhost-IsArray : IsArray (array localhost)
unfolding strlen c_string
localhost-IsArray = omega arith

pub message_with_id-IsObject : (n : ℕ) → n < 2 ^ 32 → IsObject (message_with_id n)
message_with_id-IsObject n h = record {
  id = h;
  sequence = omega arith;
  level = omega arith;
  event = omega arith;
  node = omega arith;
  peer = omega arith;
  time = omega arith;
  host = localhost-IsArray;
  flags = refl;
  flag_bytes = omega arith;
  client_forename = localhost-IsArray;
  client_surname = empty-IsArray;
  client_mobile = empty-IsArray;
  client_email = empty-IsArray;
  supplier_forename = empty-IsArray;
  supplier_surname = empty-IsArray;
  supplier_mobile = empty-IsArray;
  supplier_email = empty-IsArray;
}

pub message_with_id-Fits : (n : ℕ) → Fits (message_with_id n)
unfolding c_string
message_with_id-Fits n = record {
  text = omega arith;
  alias_count = omega arith;
  aliases = omega arith;
  header_count = omega arith;
  headers = omega arith;
  public_key = omega arith;
}
