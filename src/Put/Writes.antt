-- ===== src/Put/Writes.antt =====
-- What each PUT_* macro appends to the frame, and when it has room.
use zproto.Base.{◌+◌, refl, ap, Bool, true, false, if◌then◌else◌}
use zproto.Base.{ℕ, zero, suc, ◌*◌, ◌/◌, ◌%◌, ◌^◌, ◌≤◌, ◌≡◌, some, arith, [], ◌∷◌, ◌++◌}
use zproto.Base.{
  append_assoc, append-nil, length, drop, take_all, length-append, length-drop, drop-drop,
}
use zproto.CharArray.{Bytes, c_string, strlen}
use zproto.Put.{Frame, Put, ◌>>◌, skip, write, put_octets}
use zproto.Put.{put_number1, put_number2, put_number4, put_number8, put_string, put_longstr}

-- The `k` low octets of a number, the highest first: network byte order.
unfoldable pub big_endian : ℕ → ℕ → Bytes
big_endian zero n = []
big_endian (suc k) n = n / 2 ^ (8 * k) % 256 ∷ big_endian k n

-- With room for `bs`, the writer appends `bs` and nothing else.
pub record Writes (m : Put) (bs : Bytes) : Type 0 where
  pub run :
      (f : Frame)
      → length bs ≤ length f.room
      → m f ≡ some (record { done = f.done ++ bs; room = drop (length bs) f.room })

pub Writes-write : (bs : Bytes) → Writes (write bs) bs
unfolding write
Writes-write bs = record { run = λ f h. ground arith }

pub Writes-skip : Writes skip []
Writes-skip = record { run = λ f h. rw append-nil }

pub Writes-then :
    {m n : Put} {bs cs : Bytes} → Writes m bs → Writes n cs → Writes (m >> n) (bs ++ cs)
Writes-then {bs = bs} {cs = cs} wm wn = record {
  run = λ f h.
      let fits = length-append bs cs in
      let room = length-drop (length bs) f.room in
      ground (
        arith,
        fits,
        room,
        wm.run f,
        wn.run (record { done = f.done ++ bs; room = drop (length bs) f.room }),
        append_assoc f.done bs cs,
        drop-drop (length bs) (length cs) f.room,
      );
}

pub Writes-octets :
    (host : Bytes) (size : ℕ) → length host ≡ size → Writes (put_octets host size) host
unfolding put_octets
Writes-octets host size h = record {
  run = λ f k. ground (arith, take_all size host, (Writes-write host).run f);
}

last_octet : (n : ℕ) → n / 2 ^ (8 * 0) % 256 ≡ n % 256
last_octet n = omega arith

pub Writes-number1 : (n : ℕ) → Writes (put_number1 n) (big_endian 1 n)
unfolding put_number1 big_endian
Writes-number1 n = rw last_octet (Writes-write _)

pub Writes-number2 : (n : ℕ) → Writes (put_number2 n) (big_endian 2 n)
unfolding put_number2 big_endian
Writes-number2 n = rw last_octet (Writes-write _)

pub Writes-number4 : (n : ℕ) → Writes (put_number4 n) (big_endian 4 n)
unfolding put_number4 big_endian
Writes-number4 n = rw last_octet (Writes-write _)

pub Writes-number8 : (n : ℕ) → Writes (put_number8 n) (big_endian 8 n)
unfolding put_number8 big_endian
Writes-number8 n = rw last_octet (Writes-write _)

-- A string behind an octet, or four, with its length.
unfoldable pub short_string : Bytes → Bytes
short_string s = big_endian 1 (length s) ++ s

unfoldable pub long_string : Bytes → Bytes
long_string s = big_endian 4 (length s) ++ s

pub Writes-string : (s : Bytes) → Writes (put_string s) (short_string (c_string s))
unfolding put_string strlen short_string
Writes-string s = Writes-then (Writes-number1 _) (Writes-write (c_string s))

pub Writes-longstr : (s : Bytes) → Writes (put_longstr s) (long_string (c_string s))
unfolding put_longstr strlen long_string
Writes-longstr s = Writes-then (Writes-number4 _) (Writes-write (c_string s))

pub Writes-if :
    (b : Bool) {m n : Put} {bs cs : Bytes}
    → Writes m bs
    → Writes n cs
    → Writes (if b then m else n) (if b then bs else cs)
Writes-if true wm wn = wm
Writes-if false wm wn = wn

pub length-big_endian : (k n : ℕ) → length (big_endian k n) ≡ k
unfolding big_endian
length-big_endian zero n = refl
length-big_endian (suc k) n = ap suc (length-big_endian k n)

pub length-short_string : (s : Bytes) → length (short_string s) ≡ 1 + length s
unfolding short_string
length-short_string s = omega (arith, length-append (big_endian 1 (length s)) s, length-big_endian)

pub length-long_string : (s : Bytes) → length (long_string s) ≡ 4 + length s
unfolding long_string
length-long_string s = omega (arith, length-append (big_endian 4 (length s)) s, length-big_endian)

-- `length-append` at one type, as `omega` takes it.
pub length-append_bytes : (s t : Bytes) → length (s ++ t) ≡ length s + length t
length-append_bytes s t = length-append s t

pub ruleset lengths =
    (arith, length-append_bytes, length-big_endian, length-short_string, length-long_string)
