-- ===== src/Access/Strings.antt =====
-- The get and set functions of the `char [256]` fields, of `data` and of `flags`. A getter returns
-- the field's memory. A setter that writes past its field is a fault, `none`.
use zproto.Base.{Option, none, some, ltb, if◌then◌else◌, length, take}
use zproto.CharArray.{Bytes, c_string, memcpy, Source, set_array}
use zproto.Czmq.{Czmq}
use zproto.Example.{Example}

module _ ⦃z : Czmq⦄ where
  -- zproto_example_data, _set_data: free and strdup
  unfoldable pub text : Example z → Option Bytes
  text self = self.text

  unfoldable pub set_text : Example z → Bytes → Example z
  set_text self value = record self { text = some (c_string value) }

  unfoldable pub flags : Example z → Bytes
  flags self = self.flags

  -- memcpy (self->flags, flags, 4)
  unfoldable pub set_flags : Example z → Bytes → Option (Example z)
  set_flags self value =
      if ltb (length value) 4 then none else elim (memcpy self.flags (take 4 value)) [
        | none ↦ none
        | some cells ↦ some (record self { flags = cells })
      ]

  unfoldable pub host : Example z → Bytes
  host self = self.host

  unfoldable pub set_host : Example z → Source → Option (Example z)
  set_host self value = elim (set_array self.host value) [
    | none ↦ none
    | some cells ↦ some (record self { host = cells })
  ]

  unfoldable pub client_forename : Example z → Bytes
  client_forename self = self.client_forename

  unfoldable pub set_client_forename : Example z → Source → Option (Example z)
  set_client_forename self value = elim (set_array self.client_forename value) [
    | none ↦ none
    | some cells ↦ some (record self { client_forename = cells })
  ]

  unfoldable pub client_surname : Example z → Bytes
  client_surname self = self.client_surname

  unfoldable pub set_client_surname : Example z → Source → Option (Example z)
  set_client_surname self value = elim (set_array self.client_surname value) [
    | none ↦ none
    | some cells ↦ some (record self { client_surname = cells })
  ]

  unfoldable pub client_mobile : Example z → Bytes
  client_mobile self = self.client_mobile

  unfoldable pub set_client_mobile : Example z → Source → Option (Example z)
  set_client_mobile self value = elim (set_array self.client_mobile value) [
    | none ↦ none
    | some cells ↦ some (record self { client_mobile = cells })
  ]

  unfoldable pub client_email : Example z → Bytes
  client_email self = self.client_email

  unfoldable pub set_client_email : Example z → Source → Option (Example z)
  set_client_email self value = elim (set_array self.client_email value) [
    | none ↦ none
    | some cells ↦ some (record self { client_email = cells })
  ]

  unfoldable pub supplier_forename : Example z → Bytes
  supplier_forename self = self.supplier_forename

  unfoldable pub set_supplier_forename : Example z → Source → Option (Example z)
  set_supplier_forename self value = elim (set_array self.supplier_forename value) [
    | none ↦ none
    | some cells ↦ some (record self { supplier_forename = cells })
  ]

  unfoldable pub supplier_surname : Example z → Bytes
  supplier_surname self = self.supplier_surname

  unfoldable pub set_supplier_surname : Example z → Source → Option (Example z)
  set_supplier_surname self value = elim (set_array self.supplier_surname value) [
    | none ↦ none
    | some cells ↦ some (record self { supplier_surname = cells })
  ]

  unfoldable pub supplier_mobile : Example z → Bytes
  supplier_mobile self = self.supplier_mobile

  unfoldable pub set_supplier_mobile : Example z → Source → Option (Example z)
  set_supplier_mobile self value = elim (set_array self.supplier_mobile value) [
    | none ↦ none
    | some cells ↦ some (record self { supplier_mobile = cells })
  ]

  unfoldable pub supplier_email : Example z → Bytes
  supplier_email self = self.supplier_email

  unfoldable pub set_supplier_email : Example z → Source → Option (Example z)
  set_supplier_email self value = elim (set_array self.supplier_email value) [
    | none ↦ none
    | some cells ↦ some (record self { supplier_email = cells })
  ]
