-- ===== src/Tests/SelfTested.antt =====
-- The self test on sockets, trees and containers that keep the laws.
use zproto.Base.{
  ◌↔◌, ◌^◌, ◌<◌, ◌≡◌, ◌≢◌, refl, true, Option, none, some, List, [], ◌∷◌, ◌++◌, All, arith,
  same_bytes,
}
use mathlib.Core.Option
use mathlib.Core.List.{map, map-append}
use zproto.CharArray.{Bytes, c_string}
use zproto.CharArray.Laws.{IsByte}
use zproto.SelfTest.{Inspect, World}
use zproto.SelfTest.Steps.{self_test}
use zproto.SelfTest.Passes.{self_test-passes}
use zproto.Tests.Containers.{bare}
use zproto.Tests.Trees.{trees}
use zproto.Tests.Encodings.{close, join, uuid_of, lowered}
use zproto.Zconfig.{codes}
use zproto.Base.{◌↔◌, replicate}
use zproto.Tests.Connected.{queued}
use zproto.Tests.Objects.{message_with_id}

abbrev first_frame : List Bytes → Option Bytes × List Bytes
first_frame [] = (none, [])
first_frame (f ∷ fs) = (some f, fs)

first_frame_lem :
    (m : List Bytes) (f : Bytes) (fs : List Bytes)
    → map (λ b. b) m ≡ f ∷ fs
    → (Option.map c_string (first_frame m).0 ≡ some (c_string f))
      × (map (λ b. b) (first_frame m).1 ≡ fs)
first_frame_lem [] f fs e = absurd (cc)
first_frame_lem (g ∷ m) f fs e = (cc, cc)

abbrev IsAscii : Bytes → Type 0
IsAscii = All (λ b. b < 2 ^ 7)

close-IsByte : (f rest : Bytes) → IsAscii f → All IsByte rest → All IsByte (close f rest)
close-IsByte [] rest h k = (omega arith, k)
close-IsByte (b ∷ f) rest h k = (omega (arith, h.0), close-IsByte f rest h.1 k)

join-IsByte : (m : List Bytes) → All IsAscii (map (λ b. b) m) → All IsByte (join m)
join-IsByte [] h = tt
join-IsByte (f ∷ m) h = close-IsByte f (join m) h.0 (join-IsByte m h.1)

not_zeros : (uuid_of (lowered (codes "3a60e6850a1e4cc15f3bfd4b42bc6b3e"))).0 ≢ replicate 16 0
not_zeros e = absurd (cc)

instance abbrev inspected : Inspect bare trees
inspected = record {
  zuuid_eq = λ u bs. same_bytes u.0 bs;
  zframe_streq = λ f s. same_bytes f (c_string s);
  zmsg_addstr = λ m s. m ++ c_string s ∷ [];
  zmsg_popstr = first_frame;
  uuid_eq-data = λ u bs. refl;
  streq-data = λ f s. refl;
  frames-addstr = λ m s. map-append (λ b. b) m (c_string s ∷ []);
  popstr-frames = first_frame_lem;
  items-one = λ k v. refl;
  uuid-nonzero = not_zeros;
  encode-IsByte = join-IsByte;
}

-- A ROUTER at which nothing has arrived, and a store with no items.
abbrev at_first : World
at_first = record { self = message_with_id 1; input = (true, [], []); tree = (0, λ i. []) }

-- What a compiler might make of the assignment to the array: it copies the block.
abbrev copies : Bytes → Bytes → Bytes
copies cells mem = mem

self_test-passes_example :
    ((w' : World) × (self_test copies (1 ∷ 2 ∷ []) at_first ≡ some (tt, w'))
      × (w'.input.1 ≡ [])
      × (w'.input.2 ≡ []))
    ↔ (copies (replicate 4 0) (codes "b38c") ≡ codes "b38c")
self_test-passes_example =
    self_test-passes copies (1 ∷ 2 ∷ []) at_first refl (omega arith) refl refl refl
