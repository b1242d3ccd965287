-- ===== src/Put.antt =====
-- The PUT_* macros (src/zproto_example.c, "Network data encoding macros"). The frame is split at
-- `self->needle`: what is written lies in `done`, and `room` is what is left of the allocation. A
-- write past the end of the frame is a fault, `none`.
pub mod Writes
use zproto.Base.{ℕ, zero, suc, ◌/◌, ◌%◌, ◌^◌, Option, none, some, [], ◌∷◌, ◌++◌}
use zproto.Base.{ltb, if◌then◌else◌, length, take, drop}
use zproto.CharArray.{Bytes, c_string, strlen}

pub record Frame : Type 0 where
  pub done : Bytes
  pub room : Bytes

abbrev pub Put : Type 0
Put = Frame → Option Frame

-- A frame in which nothing is written yet; `memory` is what the allocation holds.
abbrev pub fresh : Bytes → Frame
fresh memory = record { done = []; room = memory }

infixr 5 ◌>>◌
abbrev pub ◌>>◌ : Put → Put → Put
◌>>◌ m n f = elim (m f) [ none ↦ none | some g ↦ n g ]

abbrev pub skip : Put
skip f = some f

-- `bs` to the needle, and the needle behind it.
unfoldable pub write : Bytes → Put
write bs f =
    if ltb (length f.room) (length bs)
    then none
    else some (record { done = f.done ++ bs; room = drop (length bs) f.room })

-- PUT_OCTETS: `size` bytes of the block `host`; reading past the block is a fault too.
unfoldable pub put_octets : Bytes → ℕ → Put
put_octets host size f = if ltb (length host) size then none else write (take size host) f

-- PUT_NUMBER1
unfoldable pub put_number1 : ℕ → Put
put_number1 n = write (n % 256 ∷ [])

-- PUT_NUMBER2
unfoldable pub put_number2 : ℕ → Put
put_number2 n = write (n / 2 ^ 8 % 256 ∷ n % 256 ∷ [])

-- PUT_NUMBER4
unfoldable pub put_number4 : ℕ → Put
put_number4 n = write (n / 2 ^ 24 % 256 ∷ n / 2 ^ 16 % 256 ∷ n / 2 ^ 8 % 256 ∷ n % 256 ∷ [])

-- PUT_NUMBER8
unfoldable pub put_number8 : ℕ → Put
put_number8 n = write (
    n / 2 ^ 56 % 256
    ∷ n / 2 ^ 48 % 256
    ∷ n / 2 ^ 40 % 256
    ∷ n / 2 ^ 32 % 256
    ∷ n / 2 ^ 24 % 256
    ∷ n / 2 ^ 16 % 256
    ∷ n / 2 ^ 8 % 256
    ∷ n % 256
    ∷ [])

-- PUT_STRING: the length octet takes `strlen` modulo 256.
unfoldable pub put_string : Bytes → Put
put_string host = put_number1 (strlen host) >> write (c_string host)

-- PUT_LONGSTR
unfoldable pub put_longstr : Bytes → Put
put_longstr host = put_number4 (strlen host) >> write (c_string host)
