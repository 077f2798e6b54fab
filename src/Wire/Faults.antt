-- ===== src/Wire/Faults.antt =====
-- The blocking `recvAll` of src/UNIXSocket.hpp when `read()` returns 0 or -1.
use mathlib.Core.List.{flatten}
use hawck.Prelude.{
  ℕ, zero, suc, ◌+◌, ◌-◌, ◌^◌, ◌≤◌, ◌<◌, ◌≡◌, List, [], ◌∷◌, ◌++◌, map, arith, length,
  length-append, All, replicate,
}
use hawck.Wire.{Read, bytes, failed, Memory, received, socket_error, store, recv_all, add64}
use hawck.Wire.Exact.{Arrives, recv_all-chunks}

-- When the stream ends before `sz` bytes have arrived, the call throws `SocketError`.
pub recv_all-end :
    (chunks : List (List ℕ)) (more : List Read) (m : Memory) (dst sz : ℕ)
    → All Arrives chunks
    → length (flatten chunks) < sz
    → sz < 2 ^ 63
    → recv_all (map bytes chunks ++ bytes [] ∷ more) m dst sz ≡ socket_error
unfolding recv_all flatten
recv_all-end [] more m dst sz full p h = ground arith
recv_all-end (c ∷ cs) more m dst sz full p h = ground (
  arith,
  length-append c (flatten cs),
  recv_all-end cs more (store m dst c) (add64 dst (length c)) (sz - length c) full.1,
)

-- The -1 of a failed `read()` is compared as an unsigned number, and passes for bytes: each failure
-- moves the destination back by one byte and asks for one byte more.
pub recv_all-failed :
    (k : ℕ) (rest : List Read) (m : Memory) (dst sz : ℕ)
    → k ≤ dst
    → dst < 2 ^ 64
    → 0 < sz
    → sz + k < 2 ^ 63
    → recv_all (replicate k failed ++ rest) m dst sz ≡ recv_all rest m (dst - k) (sz + k)
unfolding recv_all store
recv_all-failed zero rest m dst sz h p q b = ground arith
recv_all-failed (suc k) rest m dst sz h p q b =
    ground (arith, recv_all-failed k rest m (dst - 1) (sz + 1))

-- So after `k` failures that leave the stream readable, the bytes are stored from `k` bytes before
-- the buffer on, and `k` bytes of what follows the packet are taken with it.
pub recv_all-underflow :
    (k : ℕ) (chunks : List (List ℕ)) (m : Memory) (dst sz : ℕ)
    → k ≤ dst
    → 0 < sz
    → All Arrives chunks
    → length (flatten chunks) ≡ sz + k
    → sz + k < 2 ^ 63
    → dst + sz < 2 ^ 64
    → recv_all (replicate k failed ++ (map bytes chunks ++ [])) m dst sz
      ≡ received (store m (dst - k) (flatten chunks))
recv_all-underflow k chunks m dst sz h q full e b c = ground (
  arith,
  recv_all-failed k (map bytes chunks ++ []) m dst sz,
  recv_all-chunks chunks [] m (dst - k) (sz + k) full,
)
