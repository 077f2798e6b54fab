-- ===== src/Wire/Timed.antt =====
-- The `recvAll` of src/UNIXSocket.hpp with a timeout.
use hawck.Prelude.{
  ℕ, ◌+◌, ◌-◌, ◌^◌, ◌≤◌, ◌<◌, ◌≡◌, refl, ap, ◌∙◌, true, false, List, [], ◌∷◌, ◌++◌, map, arith,
  length, length-append, All, ◌==◌, leb,
}
use hawck.Wire.{
  bytes, Memory, received, socket_timeout, store, recv_timed, Poll, ready, add64, sub64,
}
use hawck.Wire.Exact.{Arrives, store-append, store-nil}

-- A chunk with the time that its round takes.
abbrev pub Timed : Type 0
Timed = List ℕ × ℕ

abbrev pub round_of : Timed → Poll
round_of (c, elapsed) = ready true (bytes c) elapsed

unfoldable pub payload : List Timed → List ℕ
payload [] = []
payload ((c, elapsed) ∷ ts) = c ++ payload ts

unfoldable pub total : List Timed → ℕ
total [] = 0
total ((c, elapsed) ∷ ts) = elapsed + total ts

abbrev pub TimedArrives : Timed → Type 0
TimedArrives (c, elapsed) = Arrives c

-- One round that reads `c`, in time and not at the end of the packet.
recv_timed-ready :
    (c : List ℕ) (elapsed : ℕ) (ps : List Poll) (m : Memory) (n dst sz timeout : ℕ)
    → (sub64 sz n == 0) ≡ false
    → (length c == 0) ≡ false
    → leb timeout elapsed ≡ false
    → recv_timed (round_of (c, elapsed) ∷ ps) m n dst sz timeout
      ≡ recv_timed ps
          (store m dst c)
          (length c)
          (add64 dst (length c))
          (sub64 sz n)
          (timeout - elapsed)
unfolding recv_timed
recv_timed-ready c elapsed ps m n dst sz timeout more some_bytes in_time =
    rw (more, some_bytes, in_time) refl

-- The loop in the middle: `n` bytes of the round before are not yet taken from `sz`.
recv_timed-step :
    (ts : List Timed) (more : List Poll) (m : Memory) (n dst sz timeout : ℕ)
    → All TimedArrives ts
    → n + length (payload ts) ≡ sz
    → sz < 2 ^ 63
    → dst + length (payload ts) < 2 ^ 64
    → total ts < timeout
    → recv_timed (map round_of ts ++ more) m n dst sz timeout ≡ received (store m dst (payload ts))
unfolding recv_timed payload total
recv_timed-step [] [] m n dst sz timeout full e b d t = ground (arith, store-nil m dst)
recv_timed-step [] (p ∷ more) m n dst sz timeout full e b d t = ground (arith, store-nil m dst)
recv_timed-step ((c, elapsed) ∷ ts) more m n dst sz timeout full e b d t =
    recv_timed-ready c elapsed (map round_of ts ++ more) m n dst sz timeout
      (ground (arith, length-append c (payload ts))) (ground arith) (ground arith)
    ∙ rw (left, add)
        (recv_timed-step ts more (store m dst c) (length c) (dst + length c) (sz - n)
          (timeout - elapsed) full.1 (ground (arith, length-append c (payload ts))) (omega arith)
          (ground (arith, length-append c (payload ts))) (ground arith))
    ∙ ap received (store-append m dst c (payload ts))
  where
    left : sub64 sz n ≡ sz - n
    left = ground arith

    add : add64 dst (length c) ≡ dst + length c
    add = ground (arith, length-append c (payload ts))

-- When the chunks of a packet arrive, whatever their sizes, and the rounds that read them take less
-- than the timeout together, the call returns with exactly these bytes stored at `dst`.
pub recv_timed-chunks :
    (ts : List Timed) (more : List Poll) (m : Memory) (dst sz timeout : ℕ)
    → All TimedArrives ts
    → length (payload ts) ≡ sz
    → sz < 2 ^ 63
    → dst + sz < 2 ^ 64
    → total ts < timeout
    → recv_timed (map round_of ts ++ more) m 0 dst sz timeout ≡ received (store m dst (payload ts))
recv_timed-chunks ts more m dst sz timeout full e b d t =
    recv_timed-step ts more m 0 dst sz timeout full (omega arith) b (omega arith) t

-- A round that uses up the timeout makes the call throw `SocketTimeout`, also when the bytes that it
-- has just read complete the packet: they are stored, and reported as missing.
pub recv_timed-late :
    (ts : List Timed) (c : List ℕ) (elapsed : ℕ) (more : List Poll) (m : Memory)
    (n dst sz timeout : ℕ)
    → All TimedArrives ts
    → Arrives c
    → n + length (payload ts) + length c ≡ sz
    → sz < 2 ^ 63
    → total ts < timeout
    → timeout ≤ total ts + elapsed
    → recv_timed (map round_of ts ++ round_of (c, elapsed) ∷ more) m n dst sz timeout
      ≡ socket_timeout
unfolding recv_timed payload total
recv_timed-late [] c elapsed more m n dst sz timeout full a e b t late = rw (p, q, r) refl
  where
    p : (sub64 sz n == 0) ≡ false
    p = ground arith

    q : (length c == 0) ≡ false
    q = ground arith

    r : leb timeout elapsed ≡ true
    r = ground arith
recv_timed-late ((d, spent) ∷ ts) c elapsed more m n dst sz timeout full a e b t late =
    recv_timed-ready d spent (map round_of ts ++ round_of (c, elapsed) ∷ more) m n dst sz timeout
      (ground (arith, length-append d (payload ts))) (ground arith) (ground arith)
    ∙ rw left (
        recv_timed-late ts c elapsed more (store m dst d) (length d) (add64 dst (length d)) (sz - n)
          (timeout - spent) full.1 a (ground (arith, length-append d (payload ts))) (omega arith)
          (ground arith) (ground arith))
  where
    left : sub64 sz n ≡ sz - n
    left = ground (arith, length-append d (payload ts))
