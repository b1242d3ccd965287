-- ===== src/ConfigFormat/Made.antt =====
-- What the two functions have in common for all messages.
use zproto.Zpl.{Wrote, wrote}
use zproto.Base.{
  ℕ, ◌%◌, ◌^◌, ◌≡◌, refl, sym, ap, ◌∙◌, Option, none, some, List, take, take_all, replicate,
}
use zproto.CharArray.{Bytes, c_string, strlen}
use zproto.CharArray.Laws.{
  IsArray, IsByte, overwritten, c_string-overwritten, c_string-c_string, c_string-IsByte,
}
use zproto.Czmq.{Czmq}
use zproto.Zconfig.{Zconfig, codes}
use zproto.Example.{Example, new}
use zproto.Example.View.{frame_bytes, message, message_as}
use zproto.Access.Numbers.{set_id}
use zproto.Zpl.{zpl, zpl_body}
use zproto.Zpl.Header.{Write-then}
use zproto.Zpl.Fields.{Exported}
use zproto.Base.{All}
use mathlib.Core.Path.{subst}
use zproto.NewZpl.{Created, created, new_zpl, new_message, read_body, read_case}
use zproto.NewZpl.Header.{started, new_zpl_lem, read_case_lem}
use zproto.ConfigFormat.{Says, SaysAgain}
use zproto.Example.View.{Message}
use zproto.NewZpl.Flat.{zeros, IsBlank}

module _ ⦃z : Czmq⦄ ⦃c : Zconfig z⦄ where
  -- The root that zpl makes.
  abbrev pub made : c.Tree → Option c.Item → c.Item × c.Tree
  made t parent = c.zconfig_new t (codes "zproto_example") parent

  pub zpl_lem :
      (id : ℕ) (self : Example z) (parent : Option c.Item) (t t' : c.Tree)
      → self.id ≡ id
      → zpl_body id (made t parent).0 self (made t parent).1 ≡ wrote (tt, t')
      → zpl self parent t ≡ wrote ((made t parent).0, t')
  unfolding zpl
  zpl_lem id self parent t t' e run =
      let root = (made t parent).0 in
      Write-then (zpl_body self.id root self) _ (made t parent).1
        (ap (λ n. zpl_body n root self (made t parent).1) e ∙ run)

  pub started-id : (id : ℕ) (frame : Option z.ZFrame) → (started id frame).id ≡ id % 2 ^ 32
  unfolding set_id
  started-id id none = refl
  started-id id (some frame) = refl

  pub started-host : (id : ℕ) (frame : Option z.ZFrame) → (started id frame).host ≡ zeros
  unfolding set_id new
  started-host id none = refl
  started-host id (some frame) = refl

  pub started-flags : (id : ℕ) (frame : Option z.ZFrame) → (started id frame).flags ≡ replicate 4 0
  unfolding set_id new
  started-flags id none = refl
  started-flags id (some frame) = refl

  pub started-identifier : (id : ℕ) (frame : Option z.ZFrame) → (started id frame).identifier ≡ none
  unfolding set_id new
  started-identifier id none = refl
  started-identifier id (some frame) = refl

  pub started-IsBlank : (id : ℕ) (frame : Option z.ZFrame) → IsBlank (started id frame)
  unfolding set_id new
  started-IsBlank id none = record {
    client_forename = refl;
    client_surname = refl;
    client_mobile = refl;
    client_email = refl;
    supplier_forename = refl;
    supplier_surname = refl;
    supplier_mobile = refl;
    supplier_email = refl;
  }
  started-IsBlank id (some frame) = record {
    client_forename = refl;
    client_surname = refl;
    client_mobile = refl;
    client_email = refl;
    supplier_forename = refl;
    supplier_surname = refl;
    supplier_mobile = refl;
    supplier_email = refl;
  }

  pub started-routing_id :
      (id : ℕ) (frame : Option z.ZFrame)
      → frame_bytes (started id frame).routing_id ≡ frame_bytes frame
  unfolding set_id new
  started-routing_id id none = refl
  started-routing_id id (some frame) = c.frame_data-new (z.zframe_data frame)

  -- new_zpl on what zpl has made, up to the fields of the message.
  pub reread :
      (assign_array : Bytes → Bytes → Bytes) (id : ℕ) (name : Bytes) (frame : Option z.ZFrame)
      {root : c.Item} {es : List (Bytes × Bytes)} {ran : Wrote (Unit {0} × c.Tree)}
      (fields : c.Tree → c.Item → Example z → Created (Example z))
      (ex : Exported root name frame es ran)
      → All IsByte (frame_bytes frame)
      → c_string name ≡ name
      → new_message name ≡ created (set_id new id)
      → ((t : c.Tree) (s : Example z)
          → read_body assign_array (id % 2 ^ 32) t root s ≡ read_case t root (fields t) s)
      → new_zpl assign_array ex.tree root ≡ fields ex.tree ex.config (started id frame)
  reread assign_array id name frame {root} fields ex b text known body =
      let s = started id frame in
      new_zpl_lem assign_array id ex.tree root ex.config name frame ex.header b text known
      ∙ (ap (λ n. read_body assign_array n ex.tree root s) (started-id id frame)
          ∙ (body ex.tree s ∙ read_case_lem (fields ex.tree) s ex.header))

  pub message-message_as : (n : ℕ) (s : Example z) → s.id ≡ n → message s ≡ message_as n s
  message-message_as n s e = ap (λ k. message_as k s) e

  pub says_again :
      (assign_array : Bytes → Bytes → Bytes) (m : Message) (frame : Option z.ZFrame)
      {ran : Wrote (c.Item × c.Tree)} {root : c.Item} {t : c.Tree} {s : Example z}
      → ran ≡ wrote (root, t)
      → new_zpl assign_array t root ≡ created s
      → message s ≡ m
      → frame_bytes s.routing_id ≡ frame_bytes frame
      → SaysAgain assign_array m frame ran
  says_again assign_array m frame run back same routed =
      subst (SaysAgain assign_array m frame) (sym run)
        (subst (Says m frame) (sym back) (same, routed))

-- A C string of an array, printed by "%s" and copied by strncpy.
pub c_string-copied_array :
    (cells : Bytes)
    → IsArray cells
    → c_string (overwritten (c_string (c_string cells))) ≡ c_string cells
c_string-copied_array cells a =
    let text = c_string cells in
    let same = c_string-c_string cells in
    c_string-overwritten (c_string text) (c_string-IsByte text (c_string-IsByte cells a.bytes))
    ∙ (ap (take 255) (ap c_string same ∙ same) ∙ take_all 255 text (unfold strlen in a.ended))
