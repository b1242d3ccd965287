-- ===== src/Access/Numbers.antt =====
-- zproto_example_id, _set_id, _command, and the get and set functions of the number fields. An
-- argument is converted to the type of the parameter.
use zproto.Base.{ℕ, ◌%◌, ◌^◌}
use Prim.Native.String.{String}
use zproto.Czmq.{Czmq}
use zproto.Example.{Example, switch}

module _ ⦃z : Czmq⦄ where
  unfoldable pub id : Example z → ℕ
  id self = self.id

  unfoldable pub set_id : Example z → ℕ → Example z
  set_id self n = record self { id = n % 2 ^ 32 }

  -- "Return a printable command string"
  unfoldable pub command : Example z → String
  command self = switch self.id "LOG" "STRUCTURES" "BINARY" "TYPES" "?"

  unfoldable pub sequence : Example z → ℕ
  sequence self = self.sequence

  unfoldable pub set_sequence : Example z → ℕ → Example z
  set_sequence self n = record self { sequence = n % 2 ^ 16 }

  unfoldable pub level : Example z → ℕ
  level self = self.level

  unfoldable pub set_level : Example z → ℕ → Example z
  set_level self n = record self { level = n % 2 ^ 8 }

  unfoldable pub event : Example z → ℕ
  event self = self.event

  unfoldable pub set_event : Example z → ℕ → Example z
  set_event self n = record self { event = n % 2 ^ 8 }

  unfoldable pub node : Example z → ℕ
  node self = self.node

  unfoldable pub set_node : Example z → ℕ → Example z
  set_node self n = record self { node = n % 2 ^ 16 }

  unfoldable pub peer : Example z → ℕ
  peer self = self.peer

  unfoldable pub set_peer : Example z → ℕ → Example z
  set_peer self n = record self { peer = n % 2 ^ 16 }

  unfoldable pub time : Example z → ℕ
  time self = self.time

  unfoldable pub set_time : Example z → ℕ → Example z
  set_time self n = record self { time = n % 2 ^ 64 }
