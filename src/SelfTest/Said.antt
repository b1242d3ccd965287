-- ===== src/SelfTest/Said.antt =====
-- The four messages of zproto_example_test, and that their assertions hold of them.
use zproto.Base.{◌≡◌, refl, none, some, arith}
use zproto.CharArray.{c_string}
use zproto.Czmq.{Czmq}
use zproto.Zconfig.{Zconfig}
use zproto.Example.{new}
use zproto.Example.View.{message}
use zproto.Send.{count_content}
use zproto.NewZpl.AnyTree.{new-IsObject}
use zproto.Network.{Network}
use zproto.SelfTest.{Inspect, World}
use zproto.SelfTest.Steps.{check_log, check_structures, check_binary, check_types}
use zproto.SelfTest.Log.{said_log, log_set, log_set-IsObject, log_set-message, check_log_lem}
use zproto.SelfTest.Structures.{
  said_structures, structures_set, structures_set-IsObject, structures_set-message,
  check_structures_lem, three_aliases-items, one_header-items, taken-IsObject,
}
use zproto.SelfTest.Binary.{said_binary, binary_set, binary_set-IsObject, binary_set-message}
use zproto.SelfTest.Binary.Check.{check_binary_lem}
use zproto.SelfTest.Types.{
  said_types, types_set, types_set-IsObject, types_set-message, check_types_lem,
}
use zproto.SelfTest.Exchanged.{Checked, Exchanges}

module _ ⦃z : Czmq⦄ ⦃c : Zconfig z⦄ ⦃n : Network z⦄ where
  pub said_log-Exchanges : Exchanges (log_set new) said_log check_log
  unfolding new c_string
  said_log-Exchanges = record {
    object = log_set-IsObject new new-IsObject;
    fits = record {
      text = omega arith;
      alias_count = omega arith;
      aliases = tt;
      header_count = omega arith;
      headers = tt;
      public_key = omega arith;
    };
    known = omega arith;
    says = log_set-message new;
    checks = λ w says. record {
      after = w.self;
      run = check_log_lem w says;
      object = λ o. o;
      routed = refl;
      small = λ h. h refl;
    };
  }

  pub said_types-Exchanges : Exchanges (types_set new) said_types check_types
  unfolding new
  said_types-Exchanges = record {
    object = types_set-IsObject new new-IsObject;
    fits = record {
      text = omega arith;
      alias_count = omega arith;
      aliases = tt;
      header_count = omega arith;
      headers = tt;
      public_key = omega arith;
    };
    known = omega arith;
    says = types_set-message new;
    checks = λ w says. record {
      after = w.self;
      run = check_types_lem w says;
      object = λ o. o;
      routed = refl;
      small = λ h. h refl;
    };
  }

module _ ⦃z : Czmq⦄ ⦃c : Zconfig z⦄ ⦃i : Inspect z c⦄ ⦃n : Network z⦄ where
  pub said_structures-Exchanges : Exchanges (structures_set new) said_structures check_structures
  unfolding new
  said_structures-Exchanges = record {
    object = structures_set-IsObject new new-IsObject;
    fits = record {
      text = omega arith;
      alias_count = rw three_aliases-items (omega arith);
      aliases = rw three_aliases-items (omega arith);
      header_count = rw one_header-items (omega arith);
      headers = rw one_header-items (omega arith);
      public_key = omega arith;
    };
    known = omega arith;
    says = structures_set-message new;
    checks = λ w says. record {
      after = record (w.self) { aliases = none; headers = none };
      run = check_structures_lem w says;
      object = λ o. taken-IsObject w.self o;
      routed = refl;
      small = λ h. h refl;
    };
  }

  check_binary-Checked :
      (w : World) → message w.self ≡ said_binary → Checked (binary_set new) check_binary w
  unfolding count_content
  check_binary-Checked w says =
      let (m, run, size) = check_binary_lem w says in
      record {
        after = record (w.self) { content = some m };
        run = run;
        object = λ o. assumption;
        routed = refl;
        small = λ h. omega (arith, size);
      }

  pub said_binary-Exchanges : Exchanges (binary_set new) said_binary check_binary
  unfolding new
  said_binary-Exchanges = record {
    object = binary_set-IsObject new new-IsObject;
    fits = record {
      text = omega arith;
      alias_count = omega arith;
      aliases = tt;
      header_count = omega arith;
      headers = tt;
      public_key = rw z.chunk_data-new (omega arith);
    };
    known = omega arith;
    says = binary_set-message new;
    checks = check_binary-Checked;
  }
