-- ===== src/Get/Costs.antt =====
-- What the GET_* macros take from the bytes at hand, as a budget: what the state keeps, the bytes
-- that are left to be read, and the values that have been read and not yet stored.
use zproto.Base.{ℕ, ◌+◌, ◌≤◌, ◌≡◌, refl, Bool, true, false, Option, none, some, arith}
use zproto.Base.{ltb, [], ◌∷◌, length, take, drop, length-take, length-drop}
use zproto.CharArray.{Bytes, fill_array}
use zproto.CharArray.Laws.{length-c_string}
use zproto.Get.{Outcome, done, malformed, fault, Machine, at, Get, ◌>>=◌, pure, gets, modify, leave}
use zproto.Get.{success, Rc, check, demand, room, peek, octets, advance, get_block, get_octets}
use zproto.Get.{get_number1, get_number2, get_number4, get_number8, get_string, get_longstr}

module _ {S : Type 0} (weight : S → ℕ) where
  abbrev pub Left : {A : Type 0} → (A → ℕ) → ℕ → Outcome A × Machine S → Type 0
  Left v k (done a, m) = weight m.self + length m.needle + v a ≤ k
  Left v k (malformed rc, m) = weight m.self ≤ k
  Left v k (fault, m) = weight m.self ≤ k

  -- With `n` in hand the statement ends within the budget, and its value is worth `v`.
  pub record Costs {A : Type 0} (n : ℕ) (g : Get S A) (v : A → ℕ) : Type 0 where
    pub run : (s : S) (bs : Bytes) (k : ℕ) → weight s + length bs + n ≤ k → Left v k (g (at s bs))

  Left-continue :
      {A B : Type 0} {v : A → ℕ} {u : B → ℕ} (k : ℕ) (o : Outcome A × Machine S) (f : A → Get S B)
      → Left v k o
      → ((a : A) → Costs (v a) (f a) u)
      → Left u k (zproto.Get.continue o f)
  Left-continue k (done a, m) f h c = (c a).run m.self m.needle _ h
  Left-continue k (malformed rc, m) f h c = h
  Left-continue k (fault, m) f h c = h

  number1 :
      (n : ℕ) (s : S) (bs : Bytes) (k : ℕ)
      → weight s + length bs + n ≤ k
      → Left (λ (_ : ℕ). n + 1) k (get_number1 (at s bs))
  unfolding get_number1 room peek advance
  number1 n s [] k h = omega arith
  number1 n s (a ∷ bs) k h =
      let there : ltb (length (a ∷ bs)) 1 ≡ false = ground arith in rw there (omega arith)

  number2 :
      (n : ℕ) (s : S) (bs : Bytes) (k : ℕ)
      → weight s + length bs + n ≤ k
      → Left (λ (_ : ℕ). n + 2) k (get_number2 (at s bs))
  unfolding get_number2 room peek advance
  number2 n s [] k h = omega arith
  number2 n s (a ∷ []) k h = omega arith
  number2 n s (a ∷ b ∷ bs) k h =
      let there : ltb (length (a ∷ b ∷ bs)) 2 ≡ false = ground arith in rw there (omega arith)

  number4 :
      (n : ℕ) (s : S) (bs : Bytes) (k : ℕ)
      → weight s + length bs + n ≤ k
      → Left (λ (_ : ℕ). n + 4) k (get_number4 (at s bs))
  unfolding get_number4 room peek advance
  number4 n s [] k h = omega arith
  number4 n s (a ∷ []) k h = omega arith
  number4 n s (a ∷ b ∷ []) k h = omega arith
  number4 n s (a ∷ b ∷ c ∷ []) k h = omega arith
  number4 n s (a ∷ b ∷ c ∷ d ∷ bs) k h =
      let there : ltb (length (a ∷ b ∷ c ∷ d ∷ bs)) 4 ≡ false = ground arith in
      rw there (omega arith)

  number8 :
      (n : ℕ) (s : S) (bs : Bytes) (k : ℕ)
      → weight s + length bs + n ≤ k
      → Left (λ (_ : ℕ). n + 8) k (get_number8 (at s bs))
  unfolding get_number8 room peek advance
  number8 n s [] k h = omega arith
  number8 n s (a ∷ []) k h = omega arith
  number8 n s (a ∷ b ∷ []) k h = omega arith
  number8 n s (a ∷ b ∷ c ∷ []) k h = omega arith
  number8 n s (a ∷ b ∷ c ∷ d ∷ []) k h = omega arith
  number8 n s (a ∷ b ∷ c ∷ d ∷ e ∷ []) k h = omega arith
  number8 n s (a ∷ b ∷ c ∷ d ∷ e ∷ f ∷ []) k h = omega arith
  number8 n s (a ∷ b ∷ c ∷ d ∷ e ∷ f ∷ g ∷ []) k h = omega arith
  number8 n s (a ∷ b ∷ c ∷ d ∷ e ∷ f ∷ g ∷ i ∷ bs) k h =
      let there : ltb (length (a ∷ b ∷ c ∷ d ∷ e ∷ f ∷ g ∷ i ∷ bs)) 8 ≡ false = ground arith in
      rw there (omega arith)

  -- A bounds check for `size` bytes, and a block that reads them.
  sized :
      {B : Type 0} (u : B → ℕ) (n size : ℕ) (rc : Rc) (f : Bytes → Get S B) (s : S) (bs : Bytes)
      (k : ℕ) (small : Bool)
      → ltb (length bs) size ≡ small
      → weight s + length bs + n ≤ k
      → (length (take size bs) ≡ size
          → weight s + length (drop size bs) + (n + size) ≤ k
          → Left u k (f (take size bs) (at s bs)))
      → Left u k ((room size rc >>= λ _. octets size >>= f) (at s bs))
  unfolding room octets
  sized u n size rc f s bs k true e h q = rw e (omega arith)
  sized u n size rc f s bs k false e h q =
      let le : size ≤ length bs = ground arith in
      rw e (rw e (q (omega (arith, length-take size bs)) (omega (arith, length-drop size bs))))

  stored :
      (n : ℕ) (size : ℕ) (o : Option Bytes) (s : S) (bs : Bytes) (k : ℕ)
      → weight s + length (drop size bs) + n ≤ k
      → Left (λ (_ : Bytes). n) k ((demand o >>= λ host. advance size >>= λ _. pure host) (at s bs))
  unfolding advance demand
  stored n size none s bs k h = omega arith
  stored n size (some host) s bs k h = h

  fill :
      (n : ℕ) (cells : Bytes) (size : ℕ) (s : S) (bs : Bytes) (k : ℕ)
      → weight s + length bs + n ≤ k
      → Left
          (λ (_ : Bytes). n)
          k
          ((room size success >>= λ _. octets size >>= λ bytes.
              demand (fill_array cells bytes) >>= λ host. advance size >>= λ _. pure host)
            (at s bs))
  fill n cells size s bs k h =
      sized _ n size success _ s bs k _ refl h
        λ l left. stored n size (fill_array cells (take size bs)) s bs k (omega arith)

module _ {S : Type 0} {weight : S → ℕ} where
  pub Costs-bind :
      {A B : Type 0} {n : ℕ} {g : Get S A} {f : A → Get S B} {v : A → ℕ} {u : B → ℕ}
      → Costs weight n g v
      → ((a : A) → Costs weight (v a) (f a) u)
      → Costs weight n (g >>= f) u
  Costs-bind p q = record { run = λ s bs k h. Left-continue weight k _ _ (p.run s bs k h) q }

  -- A value may be given up.
  pub Costs-less :
      {A : Type 0} {n n' : ℕ} {g : Get S A} {v : A → ℕ}
      → n ≤ n'
      → Costs weight n g v
      → Costs weight n' g v
  Costs-less le p = record { run = λ s bs k h. p.run s bs k (omega arith) }

  pub Costs-pure : {A : Type 0} {n : ℕ} (a : A) → Costs weight n (pure a) (λ _. n)
  Costs-pure a = record { run = λ s bs k h. h }

  pub Costs-leave : {A : Type 0} {n : ℕ} {v : A → ℕ} (rc : Rc) → Costs weight n (leave rc) v
  Costs-leave rc = record { run = λ s bs k h. omega arith }

  pub Costs-modify :
      {n : ℕ} (f : S → S)
      → ((s : S) → weight (f s) ≤ weight s + n)
      → Costs weight n (modify f) (λ _. 0)
  unfolding modify
  Costs-modify f w = record { run = λ s bs k h. omega (arith, w s) }

  pub Costs-check : {n : ℕ} (good : Bool) (rc : Rc) → Costs weight n (check good rc) (λ _. n)
  unfolding check
  Costs-check true rc = record { run = λ s bs k h. h }
  Costs-check false rc = record { run = λ s bs k h. omega arith }

  pub Costs-number1 : {n : ℕ} → Costs weight n get_number1 (λ _. n + 1)
  Costs-number1 {n} = record { run = number1 weight n }

  pub Costs-number2 : {n : ℕ} → Costs weight n get_number2 (λ _. n + 2)
  Costs-number2 {n} = record { run = number2 weight n }

  pub Costs-number4 : {n : ℕ} → Costs weight n get_number4 (λ _. n + 4)
  Costs-number4 {n} = record { run = number4 weight n }

  pub Costs-number8 : {n : ℕ} → Costs weight n get_number8 (λ _. n + 8)
  Costs-number8 {n} = record { run = number8 weight n }

  pub Costs-block :
      {n : ℕ} (size : ℕ) (rc : Rc) → Costs weight n (get_block size rc) (λ a. n + length a)
  unfolding get_block advance
  Costs-block {n} size rc = record {
    run = λ s bs k h. sized weight _ n size rc _ s bs k _ refl h (λ l left. omega arith);
  }

  pub Costs-octets : {n : ℕ} (size : ℕ) → Costs weight n (get_octets size) (λ a. n + length a)
  unfolding get_octets
  Costs-octets size = Costs-block size success

  pub Costs-string : {n : ℕ} (cells : Bytes) → Costs weight n (get_string cells) (λ _. n + 1)
  unfolding get_string
  Costs-string {n} cells =
      Costs-bind Costs-number1 (λ size. record { run = fill weight (n + 1) cells size })

  pub Costs-longstr : {n : ℕ} → Costs weight n get_longstr (λ text. n + 4 + length text)
  unfolding get_longstr advance
  Costs-longstr {n} = Costs-bind Costs-number4 (λ size. record {
    run = λ s bs k h.
        sized weight _ (n + 4) size success _ s bs k _ refl h
          (λ l left. omega (arith, length-c_string (take size bs)));
  })
