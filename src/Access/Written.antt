-- ===== src/Access/Written.antt =====
-- What each string setter does to the object.
use zproto.Base.{◌≡◌, some, length, arith}
use zproto.CharArray.{Bytes, block}
use zproto.CharArray.Laws.{overwritten, set_array-overwritten}
use zproto.Czmq.{Czmq}
use zproto.Example.{Example}
use zproto.Access.Strings.{
  set_host, set_client_forename, set_client_surname, set_client_mobile, set_client_email,
  set_supplier_forename, set_supplier_surname, set_supplier_mobile, set_supplier_email,
}

module _ ⦃z : Czmq⦄ (self : Example z) (v : Bytes) where
  pub set_host_lem :
      length self.host ≡ 256 → set_host self (block v) ≡ some (record self { host = overwritten v })
  unfolding set_host
  set_host_lem h = ground (arith, set_array-overwritten self.host v h)

  pub set_client_forename_lem :
      length self.client_forename ≡ 256
      → set_client_forename self (block v) ≡ some (record self { client_forename = overwritten v })
  unfolding set_client_forename
  set_client_forename_lem h = ground (arith, set_array-overwritten self.client_forename v h)

  pub set_client_surname_lem :
      length self.client_surname ≡ 256
      → set_client_surname self (block v) ≡ some (record self { client_surname = overwritten v })
  unfolding set_client_surname
  set_client_surname_lem h = ground (arith, set_array-overwritten self.client_surname v h)

  pub set_client_mobile_lem :
      length self.client_mobile ≡ 256
      → set_client_mobile self (block v) ≡ some (record self { client_mobile = overwritten v })
  unfolding set_client_mobile
  set_client_mobile_lem h = ground (arith, set_array-overwritten self.client_mobile v h)

  pub set_client_email_lem :
      length self.client_email ≡ 256
      → set_client_email self (block v) ≡ some (record self { client_email = overwritten v })
  unfolding set_client_email
  set_client_email_lem h = ground (arith, set_array-overwritten self.client_email v h)

  pub set_supplier_forename_lem :
      length self.supplier_forename ≡ 256
      → set_supplier_forename self (block v)
        ≡ some (record self { supplier_forename = overwritten v })
  unfolding set_supplier_forename
  set_supplier_forename_lem h = ground (arith, set_array-overwritten self.supplier_forename v h)

  pub set_supplier_surname_lem :
      length self.supplier_surname ≡ 256
      → set_supplier_surname self (block v)
        ≡ some (record self { supplier_surname = overwritten v })
  unfolding set_supplier_surname
  set_supplier_surname_lem h = ground (arith, set_array-overwritten self.supplier_surname v h)

  pub set_supplier_mobile_lem :
      length self.supplier_mobile ≡ 256
      → set_supplier_mobile self (block v) ≡ some (record self { supplier_mobile = overwritten v })
  unfolding set_supplier_mobile
  set_supplier_mobile_lem h = ground (arith, set_array-overwritten self.supplier_mobile v h)

  pub set_supplier_email_lem :
      length self.supplier_email ≡ 256
      → set_supplier_email self (block v) ≡ some (record self { supplier_email = overwritten v })
  unfolding set_supplier_email
  set_supplier_email_lem h = ground (arith, set_array-overwritten self.supplier_email v h)
