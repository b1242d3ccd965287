-- ===== src/Get/Breaks.antt =====
-- A frame that ends too early, where the last statements check for their bytes with a return code of
-- their own: the code tells whether the frame ends in front of these statements or inside.
use zproto.Base.{ℕ, ◌-◌, ◌<◌, ◌≤◌, ◌≡◌, refl, Bool, true, false, arith}
use zproto.Base.{if◌then◌else◌, ltb, ◌++◌, length, take, length-append, length-take}
use zproto.CharArray.{Bytes}
use zproto.Get.{
  Outcome, Machine, at, Get, ◌>>=◌, modify, success, bad, Rc, check, room, get_block, get_octets,
}
use zproto.Get.Runs.{Runs}
use zproto.Get.Cuts.{Cuts, Cuts-room, take-append_front, take-append_back}

-- The code where `missing` bytes are missing, of which the last `size` have a code of their own.
abbrev pub code : ℕ → ℕ → Rc
code size missing = if ltb size missing then success else bad

module _ {S : Type 0} where
  abbrev Exits : {A : Type 0} → Rc → Outcome A × Machine S → Type 0
  Exits rc o = o.0 ≡ Outcome.malformed rc

  Exits-continue :
      {A B : Type 0} (rc : Rc) (o : Outcome A × Machine S) (f : A → Get S B)
      → Exits rc o
      → Exits rc (zproto.Get.continue o f)
  Exits-continue rc (Outcome.done a, m) f h = cc
  Exits-continue rc (Outcome.malformed rc', m) f h = cc
  Exits-continue rc (Outcome.fault, m) f h = cc

  -- From `s`, on the first bytes of `bs` but not all of them.
  pub record Breaks {A : Type 0} (size : ℕ) (g : Get S A) (s : S) (bs : Bytes) : Type 0 where
    pub cut : (n : ℕ) → n < length bs → Exits (code size (length bs - n)) (g (at s (take n bs)))

  split :
      {A B : Type 0} (size : ℕ) (g : Get S A) (f : A → Get S B) {s s' : S} {bs cs : Bytes} {a : A}
      (rc : Rc) (inside : Bool) (n : ℕ)
      → ltb n (length bs) ≡ inside
      → Runs g s bs a s'
      → ((k : ℕ) → k < length bs → Exits rc (g (at s (take k bs))))
      → ((k : ℕ) → k < length bs → code size (length (bs ++ cs) - k) ≡ rc)
      → Breaks size (f a) s' cs
      → n < length (bs ++ cs)
      → Exits (code size (length (bs ++ cs) - n)) ((g >>= f) (at s (take n (bs ++ cs))))
  split size g f {bs = bs} {cs = cs} rc true n e p q w r h =
      let small : n < length bs = ground arith in
      rw (take-append_front n bs cs (omega arith), w n small) (Exits-continue rc _ f (q n small))
  split size g f {bs = bs} {cs = cs} rc false n e p q w r h =
      let big : length bs ≤ n = ground arith in
      let l = length-append bs cs in
      let rest : n - length bs < length cs = omega (arith, l, big) in
      let left : length (bs ++ cs) - n ≡ length cs - (n - length bs) = omega (arith, l, big) in
      rw (take-append_back n bs cs big, p.run (take (n - length bs) cs), left) (r.cut _ rest)

  -- A statement in front of these.
  pub Breaks-bind :
      {A B : Type 0} {size : ℕ} (g : Get S A) (f : A → Get S B) {s s' : S} {bs cs : Bytes} {a : A}
      → size ≤ length cs
      → Runs g s bs a s'
      → Cuts g s bs
      → Breaks size (f a) s' cs
      → Breaks size (g >>= f) s (bs ++ cs)
  Breaks-bind {size = size} g f {bs = bs} {cs = cs} le p q r = record {
    cut = λ n h.
        split size g f success _ n refl p q.cut (λ k small. ground (arith, length-append bs cs)) r
          h;
  }

  block-short :
      (size : ℕ) (s : S) (bs : Bytes)
      → length bs ≡ size
      → (k : ℕ) → k < length bs
      → Exits bad (get_block size bad (at s (take k bs)))
  unfolding get_block room
  block-short size s bs e k h =
      let small : ltb (length (take k bs)) size ≡ true = ground (arith, length-take k bs) in
      rw small refl

  -- A block that is one of these.
  pub Breaks-block :
      {B : Type 0} {size : ℕ} (n : ℕ) (f : Bytes → Get S B) {s s' : S} {bs cs : Bytes}
      → length bs ≡ n
      → length (bs ++ cs) ≤ size
      → Runs (get_block n bad) s bs bs s'
      → Breaks size (f bs) s' cs
      → Breaks size (get_block n bad >>= f) s (bs ++ cs)
  Breaks-block {size = size} n f {s} {bs = bs} {cs = cs} e le p r = record {
    cut = λ k h. split size _ f bad _ k refl p (block-short n s bs e) (λ j small. ground arith) r h;
  }

  pub Breaks-last_block :
      {B : Type 0} {size : ℕ} (n : ℕ) (f : Bytes → Get S B) {s : S} {bs : Bytes}
      → length bs ≡ n
      → length bs ≤ size
      → Breaks size (get_block n bad >>= f) s bs
  Breaks-last_block {size = size} n f {s} {bs} e le = record {
    cut = λ k h.
        let inside : code size (length bs - k) ≡ bad = ground arith in
        rw inside (Exits-continue bad _ f (block-short n s bs e k h));
  }

  pub Breaks-modify_then :
      {B : Type 0} {size : ℕ} (f : S → S) (k : Unit {0} → Get S B) {s : S} {bs : Bytes}
      → Breaks size (k tt) (f s) bs
      → Breaks size (modify f >>= k) s bs
  unfolding modify
  Breaks-modify_then f k q = record { cut = q.cut }

  pub Breaks-check_then :
      {B : Type 0} {size : ℕ} (good : Bool) (rc : Rc) (k : Unit {0} → Get S B) {s : S} {bs : Bytes}
      → good ≡ true
      → Breaks size (k tt) s bs
      → Breaks size (check good rc >>= k) s bs
  unfolding check
  Breaks-check_then good rc k e q = record { cut = λ n h. rw e (q.cut n h) }

  pub Cuts-octets : (size : ℕ) (s : S) (bs : Bytes) → length bs ≡ size → Cuts (get_octets size) s bs
  unfolding get_octets get_block
  Cuts-octets size s bs h = Cuts-room size _ s bs (omega (arith, h))
