-- ===== src/Destroy.antt =====
-- zproto_example_destroy of src/zproto_example.c: what it frees.
pub mod Transfers
pub mod Owned
use zproto.Base.{Option, none, some, List, [], ◌∷◌, ◌++◌}
use zproto.CharArray.{Bytes}
use zproto.Czmq.{Czmq}
use zproto.Example.{Example}

module _ ⦃z : Czmq⦄ where
  -- A call of free or of a destroy function of CZMQ, with what it frees. These do nothing for NULL.
  pub data Freed : Type 0 where
    frame : z.ZFrame → Freed
    text : Bytes → Freed
    list : z.ZList → Freed
    hash : z.ZHash → Freed
    chunk : z.ZChunk → Freed
    uuid : z.ZUuid → Freed
    msg : z.ZMsg → Freed
    object : Freed

  abbrev pub part : {A : Type 0} → Option A → (A → Freed) → List Freed
  part none freed = []
  part (some a) freed = freed a ∷ []

  -- "Free class properties", "Free object itself"
  unfoldable pub frees : Example z → List Freed
  frees self =
      part self.routing_id frame
      ++ (part self.text text
          ++ (part self.aliases list
              ++ (part self.headers hash
                  ++ (part self.public_key chunk
                      ++ (part self.identifier uuid
                          ++ (part self.address frame
                              ++ (part self.content msg ++ object ∷ [])))))))

  -- On the caller's pointer, which is NULL afterwards.
  unfoldable pub destroy : Option (Example z) → List Freed × Option (Example z)
  destroy none = ([], none)
  destroy (some self) = (frees self, none)
