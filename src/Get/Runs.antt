-- ===== src/Get/Runs.antt =====
-- What each GET_* macro reads back.
use zproto.Base.{ℕ, ◌^◌, ◌<◌, ◌≡◌, refl, Option, none, some, arith}
use zproto.Base.{[], ◌++◌, append_assoc, append-nil}
use zproto.Base.{length, take-append, drop-append, length-append}
use zproto.CharArray.{Bytes, c_string, fill_array}
use zproto.Put.Writes.{big_endian, short_string, long_string}
use zproto.Get.{Outcome, at, Get, ◌>>=◌, pure, gets, modify}
use zproto.Base.{Bool, true, false}
use zproto.Get.{get_block, Rc, check, demand, room, peek, octets, advance}
use zproto.Get.{
  get_octets, get_number1, get_number2, get_number4, get_number8, get_string, get_longstr,
}

module _ {S : Type 0} where
  -- On `bs` and whatever follows it, `g` takes `bs`, gives `a` and leaves the state `s'`.
  pub record Runs {A : Type 0} (g : Get S A) (s : S) (bs : Bytes) (a : A) (s' : S) : Type 0 where
    pub run : (rest : Bytes) → g (at s (bs ++ rest)) ≡ (Outcome.done a, at s' rest)

  pub Runs-pure : {A : Type 0} (a : A) (s : S) → Runs (pure a) s [] a s
  Runs-pure a s = record { run = λ rest. refl }

  pub Runs-gets : {A : Type 0} (f : S → A) (s : S) → Runs (gets f) s [] (f s) s
  unfolding gets
  Runs-gets f s = record { run = λ rest. refl }

  pub Runs-modify : (f : S → S) (s : S) → Runs (modify f) s [] tt (f s)
  unfolding modify
  Runs-modify f s = record { run = λ rest. refl }

  pub Runs-demand :
      {A : Type 0} (o : Option A) (a : A) (s : S) → o ≡ some a → Runs (demand o) s [] a s
  unfolding demand
  Runs-demand none a s h = cc
  Runs-demand (some b) a s h = record { run = λ rest. cc }

  pub Runs-bind :
      {A B : Type 0} (g : Get S A) (f : A → Get S B) {s s' s'' : S} {bs cs : Bytes} {a : A} {b : B}
      → Runs g s bs a s'
      → Runs (f a) s' cs b s''
      → Runs (g >>= f) s (bs ++ cs) b s''
  Runs-bind g f {bs = bs} {cs = cs} p q = record {
    run = λ rest. rw (append_assoc bs cs rest, p.run (cs ++ rest)) (q.run rest);
  }

  -- Steps that read no byte, in front of the rest of a block or at its end.
  pub Runs-modify_then :
      {B : Type 0} (f : S → S) (k : Unit {0} → Get S B) {s s' : S} {bs : Bytes} {b : B}
      → Runs (k tt) (f s) bs b s'
      → Runs (modify f >>= k) s bs b s'
  Runs-modify_then f k p = Runs-bind (modify f) k (Runs-modify f _) p

  pub Runs-gets_then :
      {A B : Type 0} (f : S → A) (k : A → Get S B) {s s' : S} {bs : Bytes} {b : B}
      → Runs (k (f s)) s bs b s'
      → Runs (gets f >>= k) s bs b s'
  Runs-gets_then f k p = Runs-bind (gets f) k (Runs-gets f _) p

  pub Runs-demand_then :
      {A B : Type 0} (o : Option A) (k : A → Get S B) {a : A} {s s' : S} {bs : Bytes} {b : B}
      → o ≡ some a
      → Runs (k a) s bs b s'
      → Runs (demand o >>= k) s bs b s'
  Runs-demand_then o k e p = Runs-bind (demand o) k (Runs-demand o _ _ e) p

  pub Runs-check_then :
      {B : Type 0} (good : Bool) (rc : Rc) (k : Unit {0} → Get S B) {s s' : S} {bs : Bytes} {b : B}
      → good ≡ true
      → Runs (k tt) s bs b s'
      → Runs (check good rc >>= k) s bs b s'
  unfolding check
  Runs-check_then true rc k e p = record { run = p.run }
  Runs-check_then false rc k e p = cc

  pub Runs-last :
      {A B : Type 0} (g : Get S A) (f : A → Get S B) {s s' s'' : S} {bs : Bytes} {a : A} {b : B}
      → Runs g s bs a s'
      → Runs (f a) s' [] b s''
      → Runs (g >>= f) s bs b s''
  Runs-last g f p q = rw append-nil at (Runs-bind g f p q)

  pub Runs-block :
      (bs : Bytes) (size : ℕ) (rc : Rc) (s : S)
      → length bs ≡ size
      → Runs (get_block size rc) s bs bs s
  unfolding get_block room octets advance
  Runs-block bs size rc s h = record {
    run = λ rest. ground (arith, length-append bs rest, take-append bs rest, drop-append bs rest);
  }

  pub Runs-octets :
      (bs : Bytes) (size : ℕ) (s : S) → length bs ≡ size → Runs (get_octets size) s bs bs s
  unfolding get_octets
  Runs-octets bs size s h = Runs-block bs size _ s h

  pub Runs-number1 : (n : ℕ) (s : S) → n < 2 ^ 8 → Runs get_number1 s (big_endian 1 n) n s
  unfolding get_number1 room peek advance big_endian
  Runs-number1 n s h = record { run = λ rest. ground arith }

  pub Runs-number2 : (n : ℕ) (s : S) → n < 2 ^ 16 → Runs get_number2 s (big_endian 2 n) n s
  unfolding get_number2 room peek advance big_endian
  Runs-number2 n s h = record { run = λ rest. ground arith }

  pub Runs-number4 : (n : ℕ) (s : S) → n < 2 ^ 32 → Runs get_number4 s (big_endian 4 n) n s
  unfolding get_number4 room peek advance big_endian
  Runs-number4 n s h = record { run = λ rest. ground arith }

  pub Runs-number8 : (n : ℕ) (s : S) → n < 2 ^ 64 → Runs get_number8 s (big_endian 8 n) n s
  unfolding get_number8 room peek advance big_endian
  Runs-number8 n s h = record { run = λ rest. ground arith }

  -- A string of at most 255 bytes comes back in the array, and one of less than 2 ^ 32 bytes in
  -- its block.
  pub Runs-string :
      (cells cells' bs : Bytes) (s : S)
      → length bs < 2 ^ 8
      → fill_array cells bs ≡ some cells'
      → Runs (get_string cells) s (short_string bs) cells' s
  unfolding get_string short_string
  Runs-string cells cells' bs s h e =
      Runs-bind get_number1 _ (Runs-number1 (length bs) s h) (record {
        run = λ rest.
            unfold room octets advance demand in
            ground (arith, e, length-append bs rest, take-append bs rest, drop-append bs rest);
      })

  pub Runs-longstr :
      (bs : Bytes) (s : S)
      → length bs < 2 ^ 32
      → Runs get_longstr s (long_string bs) (c_string bs) s
  unfolding get_longstr long_string
  Runs-longstr bs s h = Runs-bind get_number4 _ (Runs-number4 (length bs) s h) (record {
    run = λ rest.
        unfold room octets advance in
        ground (arith, length-append bs rest, take-append bs rest, drop-append bs rest);
  })
