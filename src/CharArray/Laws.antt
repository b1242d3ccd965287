-- ===== src/CharArray/Laws.antt =====
-- Laws of the C strings held in a char array.
use zproto.Base.{ℕ, zero, suc, ◌-◌, ◌≤◌, ◌<◌, ◌≡◌, refl, ap, some, arith}
use zproto.Base.{[], ◌∷◌, ◌++◌, append_assoc}
use zproto.Base.{length, take, drop, set, replicate, All, length-append, length-take, length-drop}
use zproto.Base.{drop_all, take_all, ◌∙◌, All-append, All-drop, All-take, length-replicate}
use zproto.CharArray.{Bytes, c_string, strlen, memcpy, store, strncpy, block, set_array, fill_array}

-- A byte that may stand inside a C string.
abbrev pub IsChar : ℕ → Type 0
IsChar b = (0 < b) × (b < 256)

abbrev pub IsByte : ℕ → Type 0
IsByte b = b < 256

-- Bytes without a NUL: the value of a C string.
abbrev pub IsText : Bytes → Type 0
IsText = All IsChar

-- What stands before a NUL is all that a C string shows.
pub c_string-append_nul : (s rest : Bytes) → c_string (s ++ 0 ∷ rest) ≡ c_string s
unfolding c_string
c_string-append_nul [] rest = refl
c_string-append_nul (b ∷ bs) rest = ground (arith, c_string-append_nul bs rest)

pub c_string-c_string : (s : Bytes) → c_string (c_string s) ≡ c_string s
unfolding c_string
c_string-c_string [] = refl
c_string-c_string (b ∷ bs) = ground (arith, c_string-c_string bs)

pub c_string_text : (s : Bytes) → IsText s → c_string s ≡ s
unfolding c_string
c_string_text [] h = refl
c_string_text (b ∷ bs) h = ground (arith, c_string_text bs h.1)

pub c_string-IsText : (s : Bytes) → All IsByte s → IsText (c_string s)
unfolding c_string
c_string-IsText [] h = tt
c_string-IsText (b ∷ bs) h = ground (arith, c_string-IsText bs h.1)

pub length-c_string : (s : Bytes) → length (c_string s) ≤ length s
unfolding c_string
length-c_string [] = omega arith
length-c_string (b ∷ bs) = ground (arith, length-c_string bs)

-- A NUL at cell `i` keeps the C string within `i` bytes.
pub c_string-set_nul : (s : Bytes) (i : ℕ) → i < length s → length (c_string (set s i 0)) ≤ i
unfolding c_string
c_string-set_nul [] i h = elim h [ ]
c_string-set_nul (b ∷ bs) zero h = ground arith
c_string-set_nul (b ∷ bs) (suc i) h = ground (arith, c_string-set_nul bs i)

pub set-append :
    (s : Bytes) (c : ℕ) (rest : Bytes) (b : ℕ) → set (s ++ c ∷ rest) (length s) b ≡ s ++ b ∷ rest
set-append [] c rest b = refl
set-append (x ∷ xs) c rest b = ap (λ zs. x ∷ zs) (set-append xs c rest b)

-- The array holds a C string: 256 bytes with a NUL among them.
pub record IsArray (cells : Bytes) : Type 0 where
  pub size : length cells ≡ 256
  pub bytes : All IsByte cells
  pub ended : strlen cells ≤ 255

pub drop_cons :
    (n : ℕ) (cells : Bytes) → n < length cells → (c : ℕ) × (drop n cells ≡ c ∷ drop (suc n) cells)
drop_cons n [] h = elim h [ ]
drop_cons zero (c ∷ cs) h = (c, refl)
drop_cons (suc n) (c ∷ cs) h = drop_cons n cs (omega arith)

-- An array behind GET_STRING of `bs`: the bytes, a NUL, and the cells that were there.
abbrev pub filled : Bytes → Bytes → Bytes
filled cells bs = bs ++ 0 ∷ drop (suc (length bs)) cells

memcpy_fits :
    (cells bs : Bytes)
    → length bs ≤ length cells
    → memcpy cells bs ≡ some (bs ++ drop (length bs) cells)
unfolding memcpy
memcpy_fits cells bs h = ground arith

store_fits : (cells : Bytes) (i b : ℕ) → i < length cells → store cells i b ≡ some (set cells i b)
unfolding store
store_fits cells i b h = ground arith

-- A C string that fits is received whole: the array shows it, and the cells behind keep theirs.
pub fill_array_lem :
    (cells bs : Bytes) → length bs < length cells → fill_array cells bs ≡ some (filled cells bs)
unfolding fill_array
fill_array_lem cells bs h =
    let (c, e) = drop_cons (length bs) cells h in
    let rest = drop (suc (length bs)) cells in
    ground (
      arith,
      memcpy_fits cells bs,
      e,
      store_fits (bs ++ c ∷ rest) (length bs) 0,
      length-append bs (c ∷ rest),
      set-append bs c rest 0,
    )

pub filled-IsArray :
    (cells bs : Bytes) → All IsByte bs → length bs ≤ 255 → IsArray cells → IsArray (filled cells bs)
unfolding strlen
filled-IsArray cells bs hb hl h =
    let rest = drop (suc (length bs)) cells in
    record {
      size =
          omega (arith, h.size, length-append bs (0 ∷ rest), length-drop (suc (length bs)) cells);
      bytes =
          All-append IsByte bs (0 ∷ rest) hb
            (omega arith, All-drop IsByte (suc (length bs)) cells h.bytes);
      ended = rw (c_string-append_nul bs rest) (omega (arith, length-c_string bs));
    }

-- What strncpy writes into the first 255 cells.
copied : Bytes → Bytes
copied v = let t = take 255 (c_string v) in t ++ replicate (255 - length t) 0

length-copied : (v : Bytes) → length (copied v) ≡ 255
unfolding copied
length-copied v =
    let t = take 255 (c_string v) in
    omega (
      arith,
      length-append t (replicate (255 - length t) 0),
      length-replicate {A = ℕ} (255 - length t) 0,
      length-take 255 (c_string v),
    )

nul_padded : (k : ℕ) (rest : Bytes) → (r : Bytes) × (replicate k 0 ++ 0 ∷ rest ≡ 0 ∷ r)
nul_padded zero rest = (rest, refl)
nul_padded (suc k) rest = (replicate k 0 ++ 0 ∷ rest, refl)

c_string-copied :
    (v rest : Bytes) → All IsByte v → c_string (copied v ++ 0 ∷ rest) ≡ take 255 (c_string v)
unfolding copied
c_string-copied v rest h =
    let t = take 255 (c_string v) in
    let (r, e) = nul_padded (255 - length t) rest in
    rw (append_assoc, e, c_string-append_nul)
      (c_string_text t (All-take IsChar 255 (c_string v) (c_string-IsText v h)))

strncpy-copied : (cells v : Bytes) → strncpy cells v 255 ≡ memcpy cells (copied v)
unfolding strncpy copied
strncpy-copied cells v = refl

set_array-copied :
    (cells v : Bytes) → length cells ≡ 256 → set_array cells (block v) ≡ some (copied v ++ 0 ∷ [])
unfolding set_array
set_array-copied cells v h =
    let (c, e) = drop_cons 255 cells (omega arith) in
    ground (
      arith,
      strncpy-copied cells v,
      length-copied v,
      memcpy_fits cells (copied v),
      e,
      drop_all 256 cells,
      store_fits (copied v ++ c ∷ []) 255 0,
      length-append (copied v) (c ∷ []),
      set-append (copied v) c [] 0,
    )

pub c_string-IsByte : (s : Bytes) → All IsByte s → All IsByte (c_string s)
unfolding c_string
c_string-IsByte [] h = tt
c_string-IsByte (b ∷ bs) h = ground (arith, c_string-IsByte bs h.1)

zeros-IsByte : (k : ℕ) → All IsByte (replicate k 0)
zeros-IsByte zero = tt
zeros-IsByte (suc k) = (omega arith, zeros-IsByte k)

copied-IsByte : (v : Bytes) → All IsByte v → All IsByte (copied v)
unfolding copied
copied-IsByte v h =
    let t = take 255 (c_string v) in
    All-append IsByte t (replicate (255 - length t) 0)
      (All-take IsByte 255 (c_string v) (c_string-IsByte v h)) (zeros-IsByte (255 - length t))

-- The array behind a setter.
pub overwritten : Bytes → Bytes
overwritten v = copied v ++ 0 ∷ []

pub set_array-overwritten :
    (cells v : Bytes) → length cells ≡ 256 → set_array cells (block v) ≡ some (overwritten v)
unfolding overwritten
set_array-overwritten = set_array-copied

-- strncpy into an array of zeros leaves the last one, which ends the string.
pub strncpy-zeros : (v : Bytes) → strncpy (replicate 256 0) v 255 ≡ some (overwritten v)
unfolding overwritten
strncpy-zeros v =
    let zeros = replicate 256 0 in
    strncpy-copied zeros v
    ∙ (memcpy_fits zeros (copied v) (omega (arith, length-copied v)) ∙ rw (length-copied v) refl)

pub overwritten-IsArray : (v : Bytes) → All IsByte v → IsArray (overwritten v)
unfolding strlen overwritten
overwritten-IsArray v hv = record {
  size = omega (arith, length-append (copied v) (0 ∷ []), length-copied v);
  bytes = All-append IsByte (copied v) (0 ∷ []) (copied-IsByte v hv) (omega arith);
  ended = rw (c_string-copied v [] hv) (omega (arith, length-take 255 (c_string v)));
}

pub c_string-overwritten :
    (v : Bytes) → All IsByte v → c_string (overwritten v) ≡ take 255 (c_string v)
unfolding overwritten
c_string-overwritten v hv = c_string-copied v [] hv

-- A whole array is copied as it reads.
pub c_string-overwritten_array : (v : Bytes) → IsArray v → c_string (overwritten v) ≡ c_string v
c_string-overwritten_array v h =
    c_string-overwritten v h.bytes ∙ take_all 255 (c_string v) (unfold strlen in h.ended)

-- A setter keeps the array a C string, which is then the first 255 bytes of the value.
pub set_array_lem :
    (cells v : Bytes)
    → IsArray cells
    → All IsByte v
    → (cells' : Bytes) × (set_array cells (block v) ≡ some cells')
      × IsArray cells'
      × (c_string cells' ≡ take 255 (c_string v))
set_array_lem cells v h hv = (
  overwritten v,
  set_array-overwritten cells v h.size,
  overwritten-IsArray v hv,
  c_string-overwritten v hv,
)
