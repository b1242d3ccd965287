-- ===== src/Get/Safe.antt =====
-- What the GET_* macros do on any bytes whatever: a triple of a precondition, a block and a
-- postcondition, in which an early exit leaves the invariant `I`, and no fault is left.
use zproto.Base.{
  ℕ, ◌+◌, ◌*◌, ◌^◌, ◌≤◌, ◌<◌, ◌≡◌, refl, Bool, true, false, Option, none, some, arith,
}
use zproto.Base.{ltb, [], ◌∷◌, length, take, drop, All, All-take, All-drop, length-take}
use zproto.CharArray.{Bytes, fill_array}
use zproto.CharArray.Laws.{IsByte, IsArray, fill_array_lem, filled-IsArray}
use zproto.Get.{Outcome, done, malformed, fault, Machine, at, Get, ◌>>=◌, pure, gets, modify, leave}
use zproto.Get.{success, Rc, check, demand, room, peek, octets, advance, get_block, get_octets}
use zproto.Get.{get_number1, get_number2, get_number4, get_number8, get_string, get_longstr}

module _ {S : Type 0} (I : S → Type 0) where
  abbrev pub Ends : {A : Type 0} → (A → S → Type 0) → Outcome A × Machine S → Type 0
  Ends Q (done a, m) = Q a m.self × All IsByte m.needle
  Ends Q (malformed rc, m) = I m.self
  Ends Q (fault, m) = ⊥

  pub record Safe {A : Type 0} (P : S → Type 0) (g : Get S A) (Q : A → S → Type 0) : Type 0 where
    pub run : (s : S) (bs : Bytes) → P s → All IsByte bs → Ends Q (g (at s bs))

module _ {S : Type 0} {I : S → Type 0} where
  Ends-continue :
      {A B : Type 0} {Q : A → S → Type 0} {R : B → S → Type 0} (o : Outcome A × Machine S)
      (f : A → Get S B)
      → Ends I Q o
      → ((a : A) → Safe I (Q a) (f a) R)
      → Ends I R (zproto.Get.continue o f)
  Ends-continue (done a, m) f h k = (k a).run m.self m.needle h.0 h.1
  Ends-continue (malformed rc, m) f h k = h
  Ends-continue (fault, m) f h k = elim h [ ]

  pub Safe-bind :
      {A B : Type 0} {g : Get S A} {f : A → Get S B} {P : S → Type 0} {Q : A → S → Type 0}
      {R : B → S → Type 0}
      → Safe I P g Q
      → ((a : A) → Safe I (Q a) (f a) R)
      → Safe I P (g >>= f) R
  Safe-bind p k = record { run = λ s bs h b. Ends-continue _ _ (p.run s bs h b) k }

  pub Safe-mono :
      {A : Type 0} {g : Get S A} {P P' : S → Type 0} {Q : A → S → Type 0}
      → ((s : S) → P' s → P s)
      → Safe I P g Q
      → Safe I P' g Q
  Safe-mono w p = record { run = λ s bs h b. p.run s bs (w s h) b }

  pub Safe-pure :
      {A : Type 0} (a : A) {P : S → Type 0} {Q : A → S → Type 0}
      → ((s : S) → P s → Q a s)
      → Safe I P (pure a) Q
  Safe-pure a w = record { run = λ s bs h b. (w s h, b) }

  pub Safe-leave :
      {A : Type 0} (rc : Rc) {P : S → Type 0} {Q : A → S → Type 0}
      → ((s : S) → P s → I s)
      → Safe I P (leave rc) Q
  Safe-leave rc w = record { run = λ s bs h b. w s h }

  pub Safe-modify :
      (f : S → S) {P Q : S → Type 0} → ((s : S) → P s → Q (f s)) → Safe I P (modify f) (λ _. Q)
  unfolding modify
  Safe-modify f w = record { run = λ s bs h b. (w s h, b) }

  pub Safe-gets :
      {A : Type 0} (f : S → A) {P : S → Type 0} → Safe I P (gets f) (λ a s. (a ≡ f s) × P s)
  unfolding gets
  Safe-gets f = record { run = λ s bs h b. ((zproto.Base.refl, h), b) }

  pub Safe-check :
      (good : Bool) (rc : Rc) {P : S → Type 0}
      → ((s : S) → P s → I s)
      → Safe I P (check good rc) (λ _ s. (good ≡ true) × P s)
  unfolding check
  Safe-check true rc w = record { run = λ s bs h b. ((refl, h), b) }
  Safe-check false rc w = record { run = λ s bs h b. w s h }

  -- A value that is there.
  pub Safe-demand :
      {A : Type 0} (o : Option A) {P : S → Type 0}
      → ((s : S) → P s → (a : A) × (o ≡ some a))
      → Safe I P (demand o) (λ a s. (o ≡ some a) × P s)
  unfolding demand
  Safe-demand none w = record { run = λ s bs h b. absurd (let (a, e) = w s h in cc) }
  Safe-demand (some a) w = record { run = λ s bs h b. ((refl, h), b) }

  module _ {P : S → Type 0} (w : (s : S) → P s → I s) where
    number1 :
        (s : S) (bs : Bytes)
        → P s
        → All IsByte bs
        → Ends I (λ n s. (n < 2 ^ 8) × P s) (get_number1 (at s bs))
    unfolding get_number1 room peek advance
    number1 s [] p q = w s p
    number1 s (a ∷ rest) p q =
        let there : ltb (length (a ∷ rest)) 1 ≡ false = ground arith in
        rw there ((omega (arith, q.0), p), q.1)

    pub Safe-number1 : Safe I P get_number1 (λ n s. (n < 2 ^ 8) × P s)
    Safe-number1 = record { run = number1 }

    number2 :
        (s : S) (bs : Bytes)
        → P s
        → All IsByte bs
        → Ends I (λ n s. (n < 2 ^ 16) × P s) (get_number2 (at s bs))
    unfolding get_number2 room peek advance
    number2 s [] p q = w s p
    number2 s (a ∷ []) p q = w s p
    number2 s (a ∷ b ∷ rest) p q =
        let there : ltb (length (a ∷ b ∷ rest)) 2 ≡ false = ground arith in
        rw there ((omega (arith, q.0, q.1.0), p), q.1.1)

    pub Safe-number2 : Safe I P get_number2 (λ n s. (n < 2 ^ 16) × P s)
    Safe-number2 = record { run = number2 }

    number4 :
        (s : S) (bs : Bytes)
        → P s
        → All IsByte bs
        → Ends I (λ n s. (n < 2 ^ 32) × P s) (get_number4 (at s bs))
    unfolding get_number4 room peek advance
    number4 s [] p q = w s p
    number4 s (a ∷ []) p q = w s p
    number4 s (a ∷ b ∷ []) p q = w s p
    number4 s (a ∷ b ∷ c ∷ []) p q = w s p
    number4 s (a ∷ b ∷ c ∷ d ∷ rest) p q =
        let there : ltb (length (a ∷ b ∷ c ∷ d ∷ rest)) 4 ≡ false = ground arith in
        rw there ((omega (arith, q.0, q.1.0, q.1.1.0, q.1.1.1.0), p), q.1.1.1.1)

    pub Safe-number4 : Safe I P get_number4 (λ n s. (n < 2 ^ 32) × P s)
    Safe-number4 = record { run = number4 }

    number8 :
        (s : S) (bs : Bytes)
        → P s
        → All IsByte bs
        → Ends I (λ n s. (n < 2 ^ 64) × P s) (get_number8 (at s bs))
    unfolding get_number8 room peek advance
    number8 s [] p q = w s p
    number8 s (a ∷ []) p q = w s p
    number8 s (a ∷ b ∷ []) p q = w s p
    number8 s (a ∷ b ∷ c ∷ []) p q = w s p
    number8 s (a ∷ b ∷ c ∷ d ∷ []) p q = w s p
    number8 s (a ∷ b ∷ c ∷ d ∷ e ∷ []) p q = w s p
    number8 s (a ∷ b ∷ c ∷ d ∷ e ∷ f ∷ []) p q = w s p
    number8 s (a ∷ b ∷ c ∷ d ∷ e ∷ f ∷ g ∷ []) p q = w s p
    number8 s (a ∷ b ∷ c ∷ d ∷ e ∷ f ∷ g ∷ h ∷ rest) p q =
        let there : ltb (length (a ∷ b ∷ c ∷ d ∷ e ∷ f ∷ g ∷ h ∷ rest)) 8 ≡ false = ground arith in
        rw there (
          (
            omega (
              arith, q.0, q.1.0, q.1.1.0, q.1.1.1.0, q.1.1.1.1.0, q.1.1.1.1.1.0, q.1.1.1.1.1.1.0,
              q.1.1.1.1.1.1.1.0,
            ),
            p,
          ),
          q.1.1.1.1.1.1.1.1,
        )

    pub Safe-number8 : Safe I P get_number8 (λ n s. (n < 2 ^ 64) × P s)
    Safe-number8 = record { run = number8 }

    -- The check for `n` bytes in front of a block that reads them.
    sized :
        {B : Type 0} (R : B → S → Type 0) (n : ℕ) (rc : Rc) (f : Bytes → Get S B) (s : S)
        (bs : Bytes) (small : Bool)
        → ltb (length bs) n ≡ small
        → P s
        → (n ≤ length bs → Ends I R (f (take n bs) (at s bs)))
        → Ends I R ((room n rc >>= λ _. octets n >>= f) (at s bs))
    unfolding room octets
    sized R n rc f s bs true e p k = rw e (w s p)
    sized R n rc f s bs false e p k = rw e (rw e (k (ground arith)))

    block :
        (size : ℕ) (rc : Rc) (s : S) (bs : Bytes)
        → P s
        → All IsByte bs
        → Ends I (λ a s. (length a ≡ size) × All IsByte a × P s) (get_block size rc (at s bs))
    unfolding get_block advance
    block size rc s bs p q = sized _ size rc _ s bs _ refl p λ enough. (
      (omega (arith, length-take size bs), All-take IsByte size bs q, p),
      All-drop IsByte size bs q,
    )

    pub Safe-block :
        (size : ℕ) (rc : Rc)
        → Safe I P (get_block size rc) (λ a s. (length a ≡ size) × All IsByte a × P s)
    Safe-block size rc = record { run = block size rc }

    pub Safe-octets :
        (size : ℕ) → Safe I P (get_octets size) (λ a s. (length a ≡ size) × All IsByte a × P s)
    unfolding get_octets
    Safe-octets size = Safe-block size _

module _ {S : Type 0} {I P : S → Type 0} (w : (s : S) → P s → I s) where
  fill :
      (cells : Bytes) (n : ℕ) (s : S) (bs : Bytes)
      → length cells ≡ 256
      → (n < 2 ^ 8) × P s
      → All IsByte bs
      → Ends I
          (λ c s. (IsArray cells → IsArray c) × P s)
          ((room n success >>= λ _. octets n >>= λ bytes.
              demand (fill_array cells bytes) >>= λ host. advance n >>= λ _. pure host)
            (at s bs))
  unfolding advance demand
  fill cells n s bs a (k, p) q = sized w _ n _ _ s bs _ refl p λ enough.
      let size : length (take n bs) ≡ n = omega (arith, length-take n bs) in
      rw (fill_array_lem cells (take n bs) (omega (arith, a))) (
        ((λ is. filled-IsArray cells (take n bs) (All-take IsByte n bs q) (omega arith) is), p),
        All-drop IsByte n bs q,
      )

  pub Safe-string :
      (cells : Bytes)
      → length cells ≡ 256
      → Safe I P (get_string cells) (λ c s. (IsArray cells → IsArray c) × P s)
  unfolding get_string
  Safe-string cells a =
      Safe-bind (Safe-number1 w) (λ n. record { run = λ s bs p q. fill cells n s bs a p q })

  pub Safe-longstr : Safe I P get_longstr (λ _. P)
  unfolding get_longstr advance
  Safe-longstr = Safe-bind (Safe-number4 w) (λ n. record {
    run = λ s bs (k, p) q. sized w _ n _ _ s bs _ refl p λ enough. (p, All-drop IsByte n bs q);
  })
