-- ===== src/Wire/Exact.antt =====
-- The blocking `recvAll` of src/UNIXSocket.hpp on a stream that delivers.
use mathlib.Core.List.{flatten, append-nil}
use hawck.Prelude.{
  ℕ, ◌+◌, ◌-◌, ◌^◌, ◌<◌, ◌≡◌, refl, ap, ◌∙◌, List, [], ◌∷◌, ◌++◌, map, arith, length, length-append,
  All, ◌==◌, if◌then◌else◌,
}
use hawck.Wire.{Read, bytes, Memory, received, store, recv_all}

pub store-nil : (m : Memory) (d : ℕ) → store m d [] ≡ m
unfolding store
store-nil m d = refl

pub store-append :
    (m : Memory) (d : ℕ) (xs ys : List ℕ)
    → store (store m d xs) (d + length xs) ys ≡ store m d (xs ++ ys)
unfolding store
store-append m d [] ys = ap (λ e. store m e ys) (omega arith)
store-append m d (x ∷ xs) ys =
    ap (λ e. store (store m d (x ∷ xs)) e ys) (omega arith)
    ∙ store-append (λ a. if a == d then x else m a) (d + 1) xs ys

-- A chunk that a `read()` returns before the end of the stream.
abbrev pub Arrives : List ℕ → Type 0
Arrives c = 0 < length c

-- Whatever the sizes of the chunks in which `sz` bytes arrive, and whatever comes behind them, the
-- call returns with exactly these bytes stored at `dst`, in order.
pub recv_all-chunks :
    (chunks : List (List ℕ)) (more : List Read) (m : Memory) (dst sz : ℕ)
    → All Arrives chunks
    → length (flatten chunks) ≡ sz
    → 0 < sz
    → sz < 2 ^ 63
    → dst + sz < 2 ^ 64
    → recv_all (map bytes chunks ++ more) m dst sz ≡ received (store m dst (flatten chunks))
unfolding recv_all flatten
recv_all-chunks [] more m dst sz full e p h k = absurd (omega arith)
recv_all-chunks (c ∷ []) more m dst sz full e p h k =
    ground (arith, append-nil c, length-append c [])
recv_all-chunks (c ∷ (d ∷ cs)) more m dst sz full e p h k = ground (
  arith,
  length-append c (d ++ flatten cs),
  length-append d (flatten cs),
  recv_all-chunks (d ∷ cs) more (store m dst c) (dst + length c) (sz - length c) full.1,
  store-append m dst c (d ++ flatten cs),
)
