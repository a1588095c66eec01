-- ===== src/BasicUsage/Tests.antt =====
-- The demos on short strings.
use spscring.Base.{ℕ, ◌≡◌, List, [], ◌∷◌, some, arith}
use spscring.Memory.{Memory, store, load-store}
use spscring.Varlen.Copy.{CopyOut}
use spscring.BasicUsage.{demo_meta, varlen_ring_demo}
use spscring.VarlenChannel.{memset}
use spscring.BasicUsage.Printed.{varlen_ring_demo-printed}

abbrev noise : Memory
noise = λ i. i

-- "hello"
abbrev hello : List ℕ
hello = 104 ∷ 101 ∷ 108 ∷ 108 ∷ 111 ∷ []

abbrev item : List ℕ
item = memset 104 64

varlen_ring_demo-printed_example :
    (c : CopyOut) × (varlen_ring_demo noise 5 (store noise 0 hello) ≡ some c)
    × (c.out ≡ some hello)
    × (c.out_size ≡ some 5)
    × (c.out_meta ≡ some demo_meta)
varlen_ring_demo-printed_example =
    varlen_ring_demo-printed noise (store noise 0 hello) hello (omega arith) (omega arith)
      (load-store noise 0 hello)
