-- ===== src/Wire/Packets.antt =====
-- `UNIXSocket<Packet>` of src/UNIXSocket.hpp: sending packets, and receiving them from the buffer.
use mathlib.Core.List.{flatten}
use hawck.Prelude.{
  ℕ, zero, suc, ◌+◌, ◌*◌, ◌^◌, ◌<◌, ◌≡◌, refl, sym, ap, ◌∙◌, List, [], ◌∷◌, ◌++◌, map, arith,
  length, length-append, All, Option, none, some, ◌==◌, if◌then◌else◌,
}
use hawck.Wire.{Read, bytes, Memory, Outcome, received, store, recv_all}
use hawck.Wire.Exact.{Arrives, recv_all-chunks}

-- The bytes of a packet in memory, which the compiler chooses: every packet takes `size` of them, and
-- a copy of them is the packet again.
pub record Layout : Type 1 where
  pub Packet : Type 0
  pub size : ℕ
  pub encode : Packet → List ℕ
  pub decode : List ℕ → Packet
  pub length-encode : (p : Packet) → length (encode p) ≡ size
  pub decode-encode : (p : Packet) → decode (encode p) ≡ p

-- The `n` bytes at an address.
unfoldable pub load : Memory → ℕ → ℕ → List ℕ
load m src zero = []
load m src (suc n) = m src ∷ load m (src + 1) n

store_below : (m : Memory) (d a : ℕ) (bs : List ℕ) → a < d → store m d bs a ≡ m a
unfolding store
store_below m d a [] h = refl
store_below m d a (b ∷ bs) h =
    store_below (λ a. if a == d then b else m a) (d + 1) a bs (omega arith) ∙ ground arith

pub load-store : (m : Memory) (d : ℕ) (bs : List ℕ) → load (store m d bs) d (length bs) ≡ bs
unfolding load store
load-store m d [] = refl
load-store m d (b ∷ bs) = ground (
  arith,
  store_below (λ a. if a == d then b else m a) (d + 1) d bs,
  load-store (λ a. if a == d then b else m a) (d + 1) bs,
)

module _ (L : Layout) where
  open L use {Packet, size, encode, decode, length-encode, decode-encode}

  -- The bytes of several packets, one behind the other, as in the array of a vector.
  unfoldable pub encode_all : List Packet → List ℕ
  encode_all [] = []
  encode_all (p ∷ ps) = encode p ++ encode_all ps

  -- `send` of a vector of packets, on what `::send` returns for a length. `none` is the exception
  -- `SocketError`, `some` holds the bytes that went out.
  unfoldable pub send_all : (ℕ → Option ℕ) → List Packet → Option (List ℕ)
  unfolding encode_all
  send_all os [] = some []
  send_all os (p ∷ ps) =
      let len = size * length (p ∷ ps) in
      elim (os len) [ none ↦ none | some n ↦ if n == len then some (encode_all (p ∷ ps)) else none ]

  -- `send` of one packet.
  unfoldable pub send_one : (ℕ → Option ℕ) → Packet → Option (List ℕ)
  send_one os p = elim (os size) [
    | none ↦ none
    | some n ↦ if n == size then some (encode p) else none
  ]

  -- `recv`: an outcome that is received leaves the packet at `dst`.
  unfoldable pub recv : List Read → Memory → ℕ → Outcome
  recv reads m dst = recv_all reads m dst size

  pub length-encode_all : (ps : List Packet) → length (encode_all ps) ≡ size * length ps
  unfolding encode_all
  length-encode_all [] = omega arith
  length-encode_all (p ∷ ps) =
      grind (arith, length-append (encode p) (encode_all ps), length-encode p, length-encode_all ps)

  sent-encode :
      (os : ℕ → Option ℕ) (p : Packet) (sent : List ℕ) → send_one os p ≡ some sent → encode p ≡ sent
  unfolding send_one
  sent-encode os p sent s = ground arith

  -- A packet that one side sends arrives unchanged at the other, in whatever pieces the stream hands
  -- its bytes over.
  pub recv-send_one :
      (os : ℕ → Option ℕ) (p : Packet) (sent : List ℕ) (chunks : List (List ℕ)) (more : List Read)
      (m : Memory) (dst : ℕ)
      → send_one os p ≡ some sent
      → flatten chunks ≡ sent
      → All Arrives chunks
      → 0 < size
      → size < 2 ^ 63
      → dst + size < 2 ^ 64
      → (m' : Memory) × (recv (map bytes chunks ++ more) m dst ≡ received m')
        × (decode (load m' dst size) ≡ p)
  unfolding recv
  recv-send_one os p sent chunks more m dst s f full a b c =
      let e : flatten chunks ≡ encode p = f ∙ sym (sent-encode os p sent s) in
      let n : length (flatten chunks) ≡ size = ap length e ∙ length-encode p in
      (
        store m dst (flatten chunks),
        recv_all-chunks chunks more m dst size full n a b c,
        rw (← n, load-store m dst (flatten chunks), e) (decode-encode p),
      )
