-- ===== src/Wire/Examples.antt =====
-- Receiving four bytes at address 8, on short streams.
use mathlib.Core.List.{flatten}
use hawck.Prelude.{ℕ, ◌≡◌, refl, ◌++◌, List, [], ◌∷◌, map, arith, replicate}
use hawck.Wire.{bytes, failed, Memory, received, store, recv_all}
use hawck.Wire.Exact.{recv_all-chunks}
use hawck.Wire.Faults.{recv_all-underflow}

abbrev blank : Memory
blank a = 0

abbrev pieces : List (List ℕ)
pieces = (1 ∷ []) ∷ (2 ∷ 3 ∷ []) ∷ (4 ∷ []) ∷ []

recv_all-chunks_example :
    recv_all (map bytes pieces ++ []) blank 8 4 ≡ received (store blank 8 (1 ∷ 2 ∷ 3 ∷ 4 ∷ []))
unfolding flatten
recv_all-chunks_example =
    recv_all-chunks pieces [] blank 8 4 (omega arith) refl (omega arith) (omega arith) (omega arith)

-- Two failures, and then the stream is readable again: six bytes from address 6 on.
abbrev shifted : List (List ℕ)
shifted = (1 ∷ 2 ∷ 3 ∷ 4 ∷ 5 ∷ 6 ∷ []) ∷ []

recv_all-underflow_example :
    recv_all (replicate 2 failed ++ (map bytes shifted ++ [])) blank 8 4
    ≡ received (store blank 6 (1 ∷ 2 ∷ 3 ∷ 4 ∷ 5 ∷ 6 ∷ []))
unfolding flatten
recv_all-underflow_example =
    recv_all-underflow 2 shifted blank 8 4 (omega arith) (omega arith) (omega arith) refl
      (omega arith) (omega arith)
