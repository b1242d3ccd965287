-- ===== src/Tests/Encodings.antt =====
-- Text and frame forms of containers that are lists of bytes.
use zproto.Base.{
  ℕ, ◌+◌, ◌≡◌, refl, ap, ◌∙◌, some, List, [], ◌∷◌, ◌++◌, ◌==◌, if◌then◌else◌, lookup, same_bytes,
  arith,
}
use mathlib.Core.List.{map}
use zproto.Base.{take, replicate, ◌-◌}
use zproto.CharArray.{Bytes, c_string}
use zproto.Czmq.{IsCString}
use zproto.Tests.Containers.{bare, c_pair, Uuid, sixteen, whole}

pub lookup_first :
    (h : List (Bytes × Bytes)) (k v j : Bytes)
    → lookup j (map c_pair ((k, v) ∷ h))
      ≡ (if same_bytes (c_string k) j then some (c_string v) else lookup j (map c_pair h))
unfolding lookup
lookup_first h k v j = refl

-- Text of bytes: each made one more, so that none is zero.
abbrev pub raised : Bytes → Bytes
raised [] = []
raised (b ∷ bs) = (b + 1) ∷ raised bs

abbrev pub lowered : Bytes → Bytes
lowered [] = []
lowered (b ∷ bs) = (b - 1) ∷ lowered bs

lowered-raised : (bs : Bytes) → lowered (raised bs) ≡ bs
lowered-raised [] = refl
lowered-raised (b ∷ bs) = ground (arith, lowered-raised bs)

pub raised-IsCString : (bs : Bytes) → IsCString (raised bs)
unfolding c_string
raised-IsCString [] = refl
raised-IsCString (b ∷ bs) = ground (arith, raised-IsCString bs)

abbrev pub uuid_of : Bytes → Uuid
uuid_of bs = (take 16 (bs ++ replicate 16 0), sixteen bs)

pub uuid_of-raised : (u : Uuid) → (uuid_of (lowered (raised u.0))).0 ≡ u.0
uuid_of-raised (bs, h) = ap (λ l. take 16 (l ++ replicate 16 0)) (lowered-raised bs) ∙ whole bs h

-- A message in one frame: the bytes raised, and a zero after each frame.
abbrev pub close : Bytes → Bytes → Bytes
close [] rest = 0 ∷ rest
close (b ∷ bs) rest = (b + 1) ∷ close bs rest

abbrev pub join : List Bytes → Bytes
join [] = []
join (f ∷ fs) = close f (join fs)

abbrev pub longer : ℕ → List Bytes → List Bytes
longer b [] = (b ∷ []) ∷ []
longer b (f ∷ fs) = (b ∷ f) ∷ fs

abbrev pub split : Bytes → List Bytes
split [] = []
split (b ∷ bs) = let rest = split bs in if b == 0 then [] ∷ rest else longer (b - 1) rest

split-close : (f rest : Bytes) → split (close f rest) ≡ f ∷ split rest
split-close [] rest = refl
split-close (b ∷ bs) rest = rw (split-close bs rest) (ground arith)

split-join : (m : List Bytes) → split (join m) ≡ m
split-join [] = refl
split-join (f ∷ fs) = split-close f (join fs) ∙ ap (λ l. f ∷ l) (split-join fs)

pub split-frames :
    (m : List Bytes) (f : Bytes)
    → f ≡ join m
    → some (map (λ b. b) (split f)) ≡ some (map (λ b. b) m)
split-frames m f h =
    ap (λ g. some (map (λ b. b) (split g))) h ∙ ap (λ l. some (map (λ b. b) l)) (split-join m)
