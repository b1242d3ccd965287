-- ===== src/NewZpl/Reads.antt =====
-- What the getters of zproto_example_new_zpl read from an item whose entries are known.
use zproto.Base.{ℕ, ◌^◌, ◌<◌, ◌≡◌, ap, ◌∙◌, some, List, lookup, All, replicate}
use zproto.CharArray.{Bytes, c_string, strncpy}
use zproto.CharArray.Laws.{IsByte, overwritten, strncpy-zeros}
use zproto.Czmq.{Czmq}
use zproto.Zconfig.{Zconfig, IsName}
use zproto.Hex.{bytes_from_str}
use zproto.Hex.RoundTrip.{hex, bytes_from_str-hex, c_string-hex}
use zproto.Decimal.{print_long, strtoll}
use zproto.Decimal.RoundTrip.{strtoll-print_long, c_string-print_long}
use zproto.NewZpl.{
  Created, created, ◌>>=◌, need, whole, written, from_hex, get_number, get_string, get_bytes,
}

-- A step that gives a value, in front of the rest.
pub Created-then :
    {A B : Type 0} {m : Created A} (f : A → Created B) {a : A} → m ≡ created a → (m >>= f) ≡ f a
Created-then f e = ap (λ o. o >>= f) e

module _ ⦃z : Czmq⦄ ⦃c : Zconfig z⦄ where
  -- The item has these entries.
  pub record Has (t : c.Tree) (i : c.Item) (es : List (Bytes × Bytes)) : Type 0 where
    pub live : c.Live t i
    pub entries : c.entries t i ≡ es

  module _ (t : c.Tree) (i : c.Item) (es : List (Bytes × Bytes)) (h : Has t i es) where
    pub get_lem : (n : Bytes) → IsName n → c.zconfig_get t i n ≡ lookup n es
    get_lem n k = c.get-entries t i n h.live k ∙ ap (lookup n) h.entries

    pub get_number_lem :
        (name : Bytes) (n : ℕ)
        → n < 2 ^ 64
        → IsName name
        → lookup name es ≡ some (c_string (print_long n))
        → get_number t i name ≡ created n
    unfolding get_number
    get_number_lem name n small k e =
        Created-then (λ s. whole (strtoll s)) (ap need (get_lem name k ∙ e))
        ∙ ap whole (ap strtoll (c_string-print_long n) ∙ strtoll-print_long n small)

    pub get_string_lem :
        (name v cells : Bytes)
        → cells ≡ replicate 256 0
        → IsName name
        → lookup name es ≡ some v
        → get_string t i name cells ≡ created (overwritten v)
    unfolding get_string
    get_string_lem name v cells zeros k e =
        Created-then (λ s. written (strncpy cells s 255)) (ap need (get_lem name k ∙ e))
        ∙ ap written (ap (λ l. strncpy l v 255) zeros ∙ strncpy-zeros v)

    pub get_bytes_lem :
        (name mem : Bytes)
        → All IsByte mem
        → IsName name
        → lookup name es ≡ some (c_string (hex mem))
        → get_bytes t i name ≡ created mem
    unfolding get_bytes
    get_bytes_lem name mem b k e =
        Created-then (λ s. from_hex (bytes_from_str (some s))) (ap need (get_lem name k ∙ e))
        ∙ ap from_hex
            (ap (λ s. bytes_from_str (some s)) (c_string-hex mem b) ∙ bytes_from_str-hex mem b)
