-- ===== src/Access/StringFields.antt =====
-- The nine setters of `char [256]` fields, zproto_example_set_host to _set_supplier_email, together.
use zproto.Base.{◌≡◌, refl, Option, none, some, take, All}
use zproto.CharArray.{Bytes, Source, block, c_string}
use zproto.CharArray.Laws.{IsArray, IsByte, overwritten-IsArray, c_string-overwritten}
use zproto.Czmq.{Czmq}
use zproto.Example.{Example}
use zproto.Example.View.{IsObject}
use zproto.Access.Strings
use zproto.Access.Written.{
  set_host_lem, set_client_forename_lem, set_client_surname_lem, set_client_mobile_lem,
  set_client_email_lem, set_supplier_forename_lem, set_supplier_surname_lem,
  set_supplier_mobile_lem, set_supplier_email_lem,
}

pub data Field : Type 0 where
  host client_forename client_surname client_mobile client_email supplier_forename supplier_surname
        supplier_mobile supplier_email :
      Field

module _ ⦃z : Czmq⦄ where
  -- The getter and the setter of a field, and the object with other memory in it.
  abbrev pub getter : Field → Example z → Bytes
  getter host = Strings.host
  getter client_forename = Strings.client_forename
  getter client_surname = Strings.client_surname
  getter client_mobile = Strings.client_mobile
  getter client_email = Strings.client_email
  getter supplier_forename = Strings.supplier_forename
  getter supplier_surname = Strings.supplier_surname
  getter supplier_mobile = Strings.supplier_mobile
  getter supplier_email = Strings.supplier_email

  abbrev pub setter : Field → Example z → Source → Option (Example z)
  setter host = Strings.set_host
  setter client_forename = Strings.set_client_forename
  setter client_surname = Strings.set_client_surname
  setter client_mobile = Strings.set_client_mobile
  setter client_email = Strings.set_client_email
  setter supplier_forename = Strings.set_supplier_forename
  setter supplier_surname = Strings.set_supplier_surname
  setter supplier_mobile = Strings.set_supplier_mobile
  setter supplier_email = Strings.set_supplier_email

  abbrev pub with_field : Field → Bytes → Example z → Example z
  with_field host cells self = record self { host = cells }
  with_field client_forename cells self = record self { client_forename = cells }
  with_field client_surname cells self = record self { client_surname = cells }
  with_field client_mobile cells self = record self { client_mobile = cells }
  with_field client_email cells self = record self { client_email = cells }
  with_field supplier_forename cells self = record self { supplier_forename = cells }
  with_field supplier_surname cells self = record self { supplier_surname = cells }
  with_field supplier_mobile cells self = record self { supplier_mobile = cells }
  with_field supplier_email cells self = record self { supplier_email = cells }

  -- The setter has come to its end: the object is well formed, the field reads as the first 255
  -- bytes of the value, and no other field has changed.
  abbrev pub HasSet : Field → Example z → Bytes → Option (Example z) → Type 0
  HasSet field self value none = ⊥
  HasSet field self value (some self') =
      IsObject self'
      × (c_string (getter field self') ≡ take 255 (c_string value))
      × (self' ≡ with_field field (getter field self') self)

  with_host-IsObject :
      (self : Example z) (cells : Bytes)
      → IsArray cells
      → IsObject self
      → IsObject (with_field host cells self)
  with_host-IsObject self cells a o = search (a, o)

  with_client_forename-IsObject :
      (self : Example z) (cells : Bytes)
      → IsArray cells
      → IsObject self
      → IsObject (with_field client_forename cells self)
  with_client_forename-IsObject self cells a o = search (a, o)

  with_client_surname-IsObject :
      (self : Example z) (cells : Bytes)
      → IsArray cells
      → IsObject self
      → IsObject (with_field client_surname cells self)
  with_client_surname-IsObject self cells a o = search (a, o)

  with_client_mobile-IsObject :
      (self : Example z) (cells : Bytes)
      → IsArray cells
      → IsObject self
      → IsObject (with_field client_mobile cells self)
  with_client_mobile-IsObject self cells a o = search (a, o)

  with_client_email-IsObject :
      (self : Example z) (cells : Bytes)
      → IsArray cells
      → IsObject self
      → IsObject (with_field client_email cells self)
  with_client_email-IsObject self cells a o = search (a, o)

  with_supplier_forename-IsObject :
      (self : Example z) (cells : Bytes)
      → IsArray cells
      → IsObject self
      → IsObject (with_field supplier_forename cells self)
  with_supplier_forename-IsObject self cells a o = search (a, o)

  with_supplier_surname-IsObject :
      (self : Example z) (cells : Bytes)
      → IsArray cells
      → IsObject self
      → IsObject (with_field supplier_surname cells self)
  with_supplier_surname-IsObject self cells a o = search (a, o)

  with_supplier_mobile-IsObject :
      (self : Example z) (cells : Bytes)
      → IsArray cells
      → IsObject self
      → IsObject (with_field supplier_mobile cells self)
  with_supplier_mobile-IsObject self cells a o = search (a, o)

  with_supplier_email-IsObject :
      (self : Example z) (cells : Bytes)
      → IsArray cells
      → IsObject self
      → IsObject (with_field supplier_email cells self)
  with_supplier_email-IsObject self cells a o = search (a, o)

  -- On a well formed object, whatever bytes the value has and however many: no setter of a
  -- `char [256]` field writes past it, the object stays well formed, the getter then reads the
  -- first 255 bytes of the value, and no other field changes.
  pub setter_lem :
      (field : Field) (self : Example z) (value : Bytes)
      → IsObject self
      → All IsByte value
      → HasSet field self value (setter field self (block value))
  unfolding Strings.host Strings.client_forename Strings.client_surname Strings.client_mobile
      Strings.client_email Strings.supplier_forename Strings.supplier_surname
      Strings.supplier_mobile Strings.supplier_email
  setter_lem host self value o b = rw (set_host_lem self value o.host.size) (
    with_host-IsObject self _ (overwritten-IsArray value b) o,
    c_string-overwritten value b,
    refl,
  )
  setter_lem client_forename self value o b =
      rw (set_client_forename_lem self value o.client_forename.size) (
        with_client_forename-IsObject self _ (overwritten-IsArray value b) o,
        c_string-overwritten value b,
        refl,
      )
  setter_lem client_surname self value o b =
      rw (set_client_surname_lem self value o.client_surname.size) (
        with_client_surname-IsObject self _ (overwritten-IsArray value b) o,
        c_string-overwritten value b,
        refl,
      )
  setter_lem client_mobile self value o b =
      rw (set_client_mobile_lem self value o.client_mobile.size) (
        with_client_mobile-IsObject self _ (overwritten-IsArray value b) o,
        c_string-overwritten value b,
        refl,
      )
  setter_lem client_email self value o b =
      rw (set_client_email_lem self value o.client_email.size) (
        with_client_email-IsObject self _ (overwritten-IsArray value b) o,
        c_string-overwritten value b,
        refl,
      )
  setter_lem supplier_forename self value o b =
      rw (set_supplier_forename_lem self value o.supplier_forename.size) (
        with_supplier_forename-IsObject self _ (overwritten-IsArray value b) o,
        c_string-overwritten value b,
        refl,
      )
  setter_lem supplier_surname self value o b =
      rw (set_supplier_surname_lem self value o.supplier_surname.size) (
        with_supplier_surname-IsObject self _ (overwritten-IsArray value b) o,
        c_string-overwritten value b,
        refl,
      )
  setter_lem supplier_mobile self value o b =
      rw (set_supplier_mobile_lem self value o.supplier_mobile.size) (
        with_supplier_mobile-IsObject self _ (overwritten-IsArray value b) o,
        c_string-overwritten value b,
        refl,
      )
  setter_lem supplier_email self value o b =
      rw (set_supplier_email_lem self value o.supplier_email.size) (
        with_supplier_email-IsObject self _ (overwritten-IsArray value b) o,
        c_string-overwritten value b,
        refl,
      )
