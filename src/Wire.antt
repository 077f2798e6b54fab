-- ===== src/Wire.antt =====
-- src/UNIXSocket.hpp: receiving an exact number of bytes, and sending packets.
-- `ssize_t`, `size_t` and pointers are 64-bit patterns; the memory is a function of the address.
pub mod Exact
pub mod Faults
pub mod Timed
pub mod Packets
pub mod Connect
mod Examples
use hawck.Prelude.{
  ℕ, suc, ◌+◌, ◌-◌, ◌*◌, ◌%◌, ◌^◌, Bool, true, false, ◌&&◌, not, List, [], ◌∷◌, ◌++◌, Option, none,
  some, length, ltb, leb, ◌==◌, if◌then◌else◌,
}

-- What one `read()` does: it stores bytes (none of them at the end of the stream) or returns -1.
pub data Read : Type 0 where
  bytes : List ℕ → Read
  failed : Read

abbrev pub Memory : Type 0
Memory = ℕ → ℕ

abbrev pub size_max : ℕ
size_max = 2 ^ 64 - 1

-- The result of `read()`, as the `size_t n` that it is assigned to.
abbrev pub count : Read → ℕ
count (bytes bs) = length bs
count failed = size_max

abbrev pub stored : Read → List ℕ
stored (bytes bs) = bs
stored failed = []

unfoldable pub store : Memory → ℕ → List ℕ → Memory
store m dst [] = m
store m dst (b ∷ bs) = store (λ a. if a == dst then b else m a) (dst + 1) bs

-- `dst += n` and `sz -= n`.
abbrev pub add64 : ℕ → ℕ → ℕ
add64 a b = (a + b) % 2 ^ 64

abbrev pub sub64 : ℕ → ℕ → ℕ
sub64 a b = (a + 2 ^ 64 - b) % 2 ^ 64

-- `sz > 0`, of a signed word.
abbrev pub positive : ℕ → Bool
positive sz = ltb 0 sz && ltb sz (2 ^ 63)

pub data Outcome : Type 0 where
  received : Memory → Outcome
  socket_error : Outcome
  socket_timeout : Outcome
  system_error : Outcome
  -- the call blocks: nothing more has arrived
  waiting : Outcome

-- `recvAll(int fd, char *dst, ssize_t sz)`, on the results of its calls of `read()`.
unfoldable pub recv_all : List Read → Memory → ℕ → ℕ → Outcome
recv_all [] m dst sz = waiting
recv_all (r ∷ rs) m dst sz =
    let n = count r in
    let m' = store m dst (stored r) in
    let left = sub64 sz n in
    let next = recv_all rs m' (add64 dst n) left in
    if positive left then (if n == 0 then socket_error else next) else received m'

-- What one `poll()` returns, and then the time that the round took, in milliseconds. `ready`
-- says whether POLLIN is among the events.
pub data Poll : Type 0 where
  failed_poll : Poll
  no_event : Poll
  ready : Bool → Read → ℕ → Poll

-- The rest of a round of the timed loop, once `n` is assigned.
abbrev pub spend : ℕ → ℕ → Outcome → Outcome
spend timeout elapsed next = if leb timeout elapsed then socket_timeout else next

-- `recvAll(int fd, char *dst, ssize_t sz, milliseconds timeout)`, on the results of its rounds. The
-- first argument after the memory is the `n` of the round before.
unfoldable pub recv_timed : List Poll → Memory → ℕ → ℕ → ℕ → ℕ → Outcome
recv_timed [] m n dst sz timeout = if sub64 sz n == 0 then received m else waiting
recv_timed (p ∷ ps) m n dst sz timeout =
    let left = sub64 sz n in
    if left == 0 then received m else elim p [
      | failed_poll ↦ system_error
      | no_event ↦ socket_timeout
      | ready false r elapsed ↦
          spend timeout elapsed (recv_timed ps m n (add64 dst n) left (timeout - elapsed))
      | ready true r elapsed ↦
          if count r == 0
          then socket_error
          else spend timeout elapsed (
              recv_timed ps (store m dst (stored r)) (count r) (add64 dst (count r)) left
                (timeout - elapsed))
    ]
