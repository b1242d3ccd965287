-- ===== src/SelfTest/Passes.antt =====
-- zproto_example_test from end to end.
use zproto.Base.{◌≡◌, ◌↔◌, refl, true, false, none, some, [], All, arith, replicate, length}
use zproto.Base.{same_bytes, same_bytes_iff, take, take_all, Bool-cases, inl, inr}
use zproto.CharArray.{Bytes}
use zproto.CharArray.Laws.{IsByte}
use zproto.Czmq.{Czmq}
use zproto.Zconfig.{Zconfig, codes}
use zproto.Example.{new}
use zproto.Send.{count_content}
use zproto.NewZpl.AnyTree.{new-IsObject}
use zproto.Network.{Network}
use zproto.SelfTest.{Inspect, World}
use zproto.SelfTest.Exchange.{exchange}
use zproto.SelfTest.Steps.{
  set_log, check_log, set_structures, check_structures, set_binary, check_binary, set_types,
  check_types, self_test,
}
use zproto.SelfTest.Binary.{binary_set, set_binary_lem}
use zproto.SelfTest.Sent.{Ready}
use zproto.SelfTest.Rounds.{
  set_log-Round, set_structures-Round, set_binary-Round, set_types-Round, set_binary-none,
}

module _ ⦃z : Czmq⦄ ⦃c : Zconfig z⦄ ⦃i : Inspect z c⦄ ⦃n : Network z⦄ where
  self_test_steps :
      (assign_array : Bytes → Bytes → Bytes) (rid : Bytes) (w w1 w2 w3 w4 w5 w6 w7 w8 : World)
      → set_log (record w { self = new }) ≡ some (tt, w1)
      → exchange assign_array rid check_log w1 ≡ some (tt, w2)
      → set_structures w2 ≡ some (tt, w3)
      → exchange assign_array rid check_structures w3 ≡ some (tt, w4)
      → set_binary w4 ≡ some (tt, w5)
      → exchange assign_array rid check_binary w5 ≡ some (tt, w6)
      → set_types w6 ≡ some (tt, w7)
      → exchange assign_array rid check_types w7 ≡ some (tt, w8)
      → self_test assign_array rid w ≡ some (tt, w8)
  unfolding self_test
  self_test_steps assign_array rid w w1 w2 w3 w4 w5 w6 w7 w8 e1 e2 e3 e4 e5 e6 e7 e8 =
      rw (e1, e2, e3, e4, e5, e6, e7) e8

  self_test_stops :
      (assign_array : Bytes → Bytes → Bytes) (rid : Bytes) (w w1 w2 w3 w4 w5 : World)
      → set_log (record w { self = new }) ≡ some (tt, w1)
      → exchange assign_array rid check_log w1 ≡ some (tt, w2)
      → set_structures w2 ≡ some (tt, w3)
      → exchange assign_array rid check_structures w3 ≡ some (tt, w4)
      → set_binary w4 ≡ some (tt, w5)
      → exchange assign_array rid check_binary w5 ≡ none
      → self_test assign_array rid w ≡ none
  unfolding self_test
  self_test_stops assign_array rid w w1 w2 w3 w4 w5 e1 e2 e3 e4 e5 e6 =
      rw (e1, e2, e3, e4, e5, e6) refl

  module _ (assign_array : Bytes → Bytes → Bytes) (rid : Bytes) (bytes : All IsByte rid) where
    -- In the state that the test begins in.
    begin-Ready :
        (w : World)
        → z.is_router w.input ≡ true
        → z.incoming w.input ≡ []
        → n.waiting w.input ≡ []
        → Ready w.tree [] (record w { self = new })
    unfolding new count_content
    begin-Ready w kind whole queue = record {
      object = new-IsObject;
      small = omega arith;
      whole = whole;
      queue = queue;
      kind = kind;
      tree = refl;
    }

    passes :
        (w : World)
        → Ready w.tree [] (record w { self = new })
        → assign_array (replicate 4 0) (codes "b38c") ≡ codes "b38c"
        → (w' : World) × (self_test assign_array rid w ≡ some (tt, w'))
          × (z.incoming w'.input ≡ [])
          × (n.waiting w'.input ≡ [])
    unfolding new
    passes w r0 flags =
        let w0 : World = record w { self = new } in
        let a = set_log-Round assign_array rid bytes w0 r0 tt in
        let b = set_structures-Round assign_array rid bytes a.ended a.ready a.routed in
        let d = set_binary-Round assign_array rid bytes b.ended flags b.ready b.routed in
        let e = set_types-Round assign_array rid bytes d.ended d.ready d.routed in
        (
          e.ended,
          self_test_steps assign_array rid w a.begun a.ended b.begun b.ended d.begun d.ended e.begun
              e.ended a.set_run a.exchange_run b.set_run b.exchange_run d.set_run d.exchange_run
              e.set_run e.exchange_run,
          e.ready.whole,
          e.ready.queue,
        )

    stops :
        (w : World)
        → Ready w.tree [] (record w { self = new })
        → same_bytes (take 4 (assign_array (replicate 4 0) (codes "b38c"))) (codes "b38c") ≡ false
        → self_test assign_array rid w ≡ none
    unfolding new
    stops w r0 other =
        let w0 : World = record w { self = new } in
        let a = set_log-Round assign_array rid bytes w0 r0 tt in
        let b = set_structures-Round assign_array rid bytes a.ended a.ready a.routed in
        self_test_stops assign_array rid w a.begun a.ended b.begun b.ended
          (record (b.ended) { self = binary_set b.ended.self }) a.set_run a.exchange_run b.set_run
          b.exchange_run (set_binary_lem b.ended b.ready.object)
          (set_binary-none assign_array rid bytes b.ended other b.ready b.routed)

    keeps_flags :
        (w w' : World)
        → Ready w.tree [] (record w { self = new })
        → length (assign_array (replicate 4 0) (codes "b38c")) ≡ 4
        → self_test assign_array rid w ≡ some (tt, w')
        → assign_array (replicate 4 0) (codes "b38c") ≡ codes "b38c"
    keeps_flags w w' r0 four run =
        let cells = assign_array (replicate 4 0) (codes "b38c") in
        elim (Bool-cases (same_bytes (take 4 cells) (codes "b38c"))) [
          | inl same ↦
              let whole : take 4 cells ≡ cells = take_all 4 cells (omega (arith, four)) in
              let e = (same_bytes_iff (take 4 cells) (codes "b38c")).0 same in cc
          | inr other ↦ let none_run = stops w r0 other in absurd (cc)
        ]

  -- The self test, whatever libraries keep the laws, and whatever the assignment of a pointer to
  -- the array `flags` does, if it leaves four bytes there: on sockets with no message under way, of
  -- which `input` is a ROUTER that knows its peer by a routing id of bytes, the statements of
  -- zproto_example_test come to their end with no assertion failed and no fault, and every message
  -- that has been sent has been received, if and only if the assignment makes b38c of the zeros of
  -- the new object and the text b38c.
  pub self_test-passes :
      (assign_array : Bytes → Bytes → Bytes) (rid : Bytes) (w : World)
      → length (assign_array (replicate 4 0) (codes "b38c")) ≡ 4
      → All IsByte rid
      → z.is_router w.input ≡ true
      → z.incoming w.input ≡ []
      → n.waiting w.input ≡ []
      → ((w' : World) × (self_test assign_array rid w ≡ some (tt, w'))
          × (z.incoming w'.input ≡ [])
          × (n.waiting w'.input ≡ []))
        ↔ (assign_array (replicate 4 0) (codes "b38c") ≡ codes "b38c")
  self_test-passes assign_array rid w four bytes kind whole queue =
      let r0 = begin-Ready assign_array rid bytes w kind whole queue in
      (
        λ ended. keeps_flags assign_array rid bytes w ended.0 r0 four ended.1,
        λ flags. passes assign_array rid bytes w r0 flags,
      )
