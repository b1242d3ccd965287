-- ===== src/Get/Cuts.antt =====
-- What the GET_* macros do when the frame ends too early: they leave for `malformed` with `rc`
-- still 0, as they do not assign it.
use zproto.Base.{
  ℕ, zero, suc, ◌^◌, ◌-◌, ◌<◌, ◌≤◌, ◌≡◌, refl, ap, Bool, true, false, Option, some, arith,
}
use zproto.Base.{if◌then◌else◌, ltb, [], ◌∷◌, ◌++◌, length, take, length-append, length-take}
use zproto.CharArray.{Bytes}
use zproto.Put.Writes.{big_endian, short_string, long_string}
use zproto.Get.{
  Outcome, Machine, at, Get, ◌>>=◌, pure, gets, modify, success, Rc, check, demand, room,
}
use zproto.Get.{peek, get_number1, get_number2, get_number4, get_number8, get_string, get_longstr}
use zproto.Get.Runs.{Runs, Runs-number1, Runs-number4}

pub take-append_front : (n : ℕ) (bs cs : Bytes) → n ≤ length bs → take n (bs ++ cs) ≡ take n bs
take-append_front zero bs cs h = refl
take-append_front (suc n) [] cs h = elim h [ ]
take-append_front (suc n) (b ∷ bs) cs h = ap (λ l. b ∷ l) (take-append_front n bs cs (omega arith))

pub take-append_back :
    (n : ℕ) (bs cs : Bytes) → length bs ≤ n → take n (bs ++ cs) ≡ bs ++ take (n - length bs) cs
take-append_back n [] cs h = ap (λ k. take k cs) (omega arith)
take-append_back zero (b ∷ bs) cs h = elim h [ ]
take-append_back (suc n) (b ∷ bs) cs h =
    let e : suc n - suc (length bs) ≡ n - length bs = omega arith in
    rw e (ap (λ l. b ∷ l) (take-append_back n bs cs (omega arith)))

module _ {S : Type 0} where
  -- `g` ends this way.
  abbrev pub Left : {A : Type 0} → Outcome A × Machine S → Type 0
  Left o = o.0 ≡ Outcome.malformed success

  -- From `s`, on the first bytes of `bs` but not all of them.
  pub record Cuts {A : Type 0} (g : Get S A) (s : S) (bs : Bytes) : Type 0 where
    pub cut : (n : ℕ) → n < length bs → Left (g (at s (take n bs)))

  pub Left-continue :
      {A B : Type 0} (o : Outcome A × Machine S) (f : A → Get S B)
      → Left o
      → Left (zproto.Get.continue o f)
  Left-continue (Outcome.done a, m) f h = cc
  Left-continue (Outcome.malformed rc, m) f h = cc
  Left-continue (Outcome.fault, m) f h = cc

  pub Cuts-nil : {A : Type 0} (g : Get S A) (s : S) → Cuts g s []
  Cuts-nil g s = record { cut = λ n h. elim h [ ] }

  split :
      {A B : Type 0} (g : Get S A) (f : A → Get S B) {s s' : S} {bs cs : Bytes} {a : A}
      (inside : Bool) (n : ℕ)
      → ltb n (length bs) ≡ inside
      → Runs g s bs a s'
      → Cuts g s bs
      → Cuts (f a) s' cs
      → n < length (bs ++ cs)
      → Left ((g >>= f) (at s (take n (bs ++ cs))))
  split g f {bs = bs} {cs = cs} true n e p q r h =
      let small : n < length bs = ground arith in
      rw (take-append_front n bs cs (omega arith)) (Left-continue _ f (q.cut n small))
  split g f {bs = bs} {cs = cs} false n e p q r h =
      let big : length bs ≤ n = ground arith in
      rw (take-append_back n bs cs big, p.run (take (n - length bs) cs))
        (r.cut (n - length bs) (omega (arith, length-append bs cs)))

  pub Cuts-bind :
      {A B : Type 0} (g : Get S A) (f : A → Get S B) {s s' : S} {bs cs : Bytes} {a : A}
      → Runs g s bs a s'
      → Cuts g s bs
      → Cuts (f a) s' cs
      → Cuts (g >>= f) s (bs ++ cs)
  Cuts-bind g f p q r = record { cut = λ n h. split g f _ n refl p q r h }

  -- All the bytes are read by the first statement.
  pub Cuts-first :
      {A B : Type 0} (g : Get S A) (f : A → Get S B) {s : S} {bs : Bytes}
      → Cuts g s bs
      → Cuts (g >>= f) s bs
  Cuts-first g f q = record { cut = λ n h. Left-continue _ f (q.cut n h) }

  -- A bounds check for all the bytes.
  pub Cuts-room :
      {A : Type 0} (size : ℕ) (f : Unit {0} → Get S A) (s : S) (bs : Bytes)
      → length bs ≤ size
      → Cuts (room size success >>= f) s bs
  unfolding room
  Cuts-room size f s bs h = record {
    cut = λ n k.
        let small : ltb (length (take n bs)) size ≡ true = ground (arith, length-take n bs) in
        rw small refl;
  }

  pub Cuts-number1 : (n : ℕ) (s : S) → Cuts get_number1 s (big_endian 1 n)
  unfolding get_number1 big_endian
  Cuts-number1 n s = Cuts-room 1 _ s _ (omega arith)

  pub Cuts-number2 : (n : ℕ) (s : S) → Cuts get_number2 s (big_endian 2 n)
  unfolding get_number2 big_endian
  Cuts-number2 n s = Cuts-room 2 _ s _ (omega arith)

  pub Cuts-number4 : (n : ℕ) (s : S) → Cuts get_number4 s (big_endian 4 n)
  unfolding get_number4 big_endian
  Cuts-number4 n s = Cuts-room 4 _ s _ (omega arith)

  pub Cuts-number8 : (n : ℕ) (s : S) → Cuts get_number8 s (big_endian 8 n)
  unfolding get_number8 big_endian
  Cuts-number8 n s = Cuts-room 8 _ s _ (omega arith)

  pub Cuts-string :
      (cells bs : Bytes) (s : S) → length bs < 2 ^ 8 → Cuts (get_string cells) s (short_string bs)
  unfolding get_string short_string
  Cuts-string cells bs s h =
      Cuts-bind _ _ (Runs-number1 (length bs) s h) (Cuts-number1 _ s)
        (Cuts-room (length bs) _ s bs (omega arith))

  pub Cuts-longstr : (bs : Bytes) (s : S) → length bs < 2 ^ 32 → Cuts get_longstr s (long_string bs)
  unfolding get_longstr long_string
  Cuts-longstr bs s h =
      Cuts-bind _ _ (Runs-number4 (length bs) s h) (Cuts-number4 _ s)
        (Cuts-room (length bs) _ s bs (omega arith))

  -- Steps that read no byte, in front of the rest.
  pub Cuts-modify_then :
      {B : Type 0} (f : S → S) (k : Unit {0} → Get S B) {s : S} {bs : Bytes}
      → Cuts (k tt) (f s) bs
      → Cuts (modify f >>= k) s bs
  unfolding modify
  Cuts-modify_then f k q = record { cut = q.cut }

  pub Cuts-gets_then :
      {A B : Type 0} (f : S → A) (k : A → Get S B) {s : S} {bs : Bytes}
      → Cuts (k (f s)) s bs
      → Cuts (gets f >>= k) s bs
  unfolding gets
  Cuts-gets_then f k q = record { cut = q.cut }

  pub Cuts-demand_then :
      {A B : Type 0} (o : Option A) (k : A → Get S B) {a : A} {s : S} {bs : Bytes}
      → o ≡ some a
      → Cuts (k a) s bs
      → Cuts (demand o >>= k) s bs
  unfolding demand
  Cuts-demand_then o k e q = record { cut = λ n h. rw e (q.cut n h) }

  pub Cuts-check_then :
      (good : Bool) (rc : Rc) {B : Type 0} (k : Unit {0} → Get S B) {s : S} {bs : Bytes}
      → good ≡ true
      → Cuts (k tt) s bs
      → Cuts (check good rc >>= k) s bs
  unfolding check
  Cuts-check_then good rc k e q = record { cut = λ n h. rw e (q.cut n h) }

  pub Cuts-if :
      {A : Type 0} (b : Bool) {g h : Get S A} {s : S} {bs cs : Bytes}
      → (b ≡ true → Cuts g s bs)
      → (b ≡ false → Cuts h s cs)
      → Cuts (if b then g else h) s (if b then bs else cs)
  Cuts-if true p q = p refl
  Cuts-if false p q = q refl
