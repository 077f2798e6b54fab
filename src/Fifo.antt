-- ===== src/Fifo.antt =====
-- src/FIFOWatcher.cpp, src/FIFOWatcher.hpp: the pipes over which options are set, and
-- src/LuaConfig.cpp, src/LuaConfig.hpp: what a message on them does.
pub mod Replies
pub mod Messages
pub mod Config
pub mod Options
mod Examples
use hawck.Prelude.{
  ℕ, zero, suc, ◌+◌, ◌/◌, ◌%◌, ◌^◌, ◌≡◌, Bool, true, false, ◌||◌, List, [], ◌∷◌, ◌++◌, Option, none,
  some, Str, leb, ◌==◌, length, take, if◌then◌else◌,
}
use hawck.Effect.{
  Result, ok, err, system_error, socket_error, keyboard_error, process_ended, Action, proceed,
  ◌>>=◌, ◌>>◌,
}
use hawck.Prelude.Maps.{lookup, insert, str_key}

-- `time_inc`, in milliseconds.
abbrev pub time_inc : ℕ
time_inc = 10

abbrev pub max_recv : ℕ
max_recv = 16384

-- What is called on the pipes. `open_out` opens the pipe for the answers, if someone reads from it;
-- `write` has no result if it returns -1; `recv_size` and `recv_body` are the two calls of `recvAll`.
-- `opened` counts the open descriptors of answers, `slept` the milliseconds in `usleep`, and `written`
-- has the bytes of the answers.
pub record Pipes : Type 1 where
  pub W : Type 0
  pub open_out : W → Bool × W
  pub write : Str → W → Option ℕ × W
  pub sleep : ℕ → W → W
  pub open_in : W → Option ℕ × W
  pub close_in : ℕ → W → W
  pub recv_size : Option ℕ → W → Result ℕ × W
  pub recv_body : Option ℕ → ℕ → W → Result Str × W
  pub opened : W → ℕ
  pub slept : W → ℕ
  pub written : W → Str
  pub opened-open :
      (w : W) → opened (open_out w).1 ≡ (if (open_out w).0 then opened w + 1 else opened w)
  pub opened-write : (b : Str) (w : W) → opened (write b w).1 ≡ opened w
  pub opened-sleep : (ms : ℕ) (w : W) → opened (sleep ms w) ≡ opened w
  pub slept-open : (w : W) → slept (open_out w).1 ≡ slept w
  pub slept-sleep : (ms : ℕ) (w : W) → slept (sleep ms w) ≡ slept w + ms
  pub written-open : (w : W) → written (open_out w).1 ≡ written w
  pub written-write :
      (b : Str) (w : W) → (write b w).0 ≡ some (length b) → written (write b w).1 ≡ written w ++ b
  pub written-sleep : (ms : ℕ) (w : W) → written (sleep ms w) ≡ written w
  pub length-recv_body :
      (fd : Option ℕ) (n : ℕ) (w : W) (b : Str) → (recv_body fd n w).0 ≡ ok b → length b ≡ n

-- The bytes of `bufsz`, a `uint32_t`.
abbrev pub size_bytes : ℕ → Str
size_bytes n = n % 256 ∷ n / 256 % 256 ∷ n / 65536 % 256 ∷ n / 16777216 % 256 ∷ []

module _ (P : Pipes) where
  open P use {W}

  -- The two calls of `write`, of which the second is made if the first does not fail.
  unfoldable pub send : Str → Action W Unit
  send buf w =
      let (first, w') = P.write (size_bytes (length buf % 2 ^ 32)) w in
      let (second, w'') = P.write (take (length buf % 2 ^ 32) buf) w' in
      elim first [
        | none ↦ (err system_error, w')
        | some n ↦ elim second [ none ↦ (err system_error, w'') | some n ↦ (ok tt, w'') ]
      ]

  -- The loop of `reply`, on the rounds that are left.
  unfoldable pub reply : Str → ℕ → Action W Unit
  reply buf zero w = (err system_error, w)
  reply buf (suc rounds) w =
      let (found, w') = P.open_out w in
      let rest = reply buf rounds (P.sleep time_inc w') in if found then send buf w' else rest

  module _ {C : Type 0} (handle : Str → C → Str × C) where
    pub record FifoWatcher : Type 0 where
      pub fd : Option ℕ
      pub pipes : W
      pub client : C

    abbrev pub closed : FifoWatcher → W
    closed f = elim f.fd [ none ↦ f.pipes | some fd ↦ P.close_in fd f.pipes ]

    unfoldable pub reset : Action FifoWatcher Unit
    reset f =
        let (fd, w) = P.open_in (closed f) in
        let f' = record f { fd = fd; pipes = w } in
        elim fd [ none ↦ (err system_error, f') | some fd ↦ (ok tt, f') ]

    -- `recvAll` of the message, `handleMessage` and `reply`.
    unfoldable pub serve : ℕ → Action FifoWatcher Unit
    serve sz f =
        let (body, w) = P.recv_body f.fd sz f.pipes in
        let received = record f { pipes = w } in
        elim body [
          | err e ↦ (err e, received)
          | ok buf ↦
              let (ret, client) = handle buf f.client in
              let (sent, w') = reply ret 256 w in
              (sent, record received { pipes = w'; client = client })
        ]

    -- The body of the `try` block.
    unfoldable pub attempt : Action FifoWatcher Unit
    attempt f =
        let (size, w) = P.recv_size f.fd f.pipes in
        let f' = record f { pipes = w } in
        elim size [
          | err e ↦ (err e, f')
          | ok sz ↦ if leb max_recv sz || sz == 0 then reset f' else serve sz f'
        ]

    -- A round of the loop of `watch`. An exception of the handlers leaves the loop.
    unfoldable pub watch_round : Action FifoWatcher Unit
    watch_round f =
        let (r, f') = attempt f in
        elim r [
          | ok u ↦ (ok tt, f')
          | err socket_error ↦ reset f'
          | err system_error ↦ reset f'
          | err keyboard_error ↦ (err keyboard_error, f')
          | err process_ended ↦ (err process_ended, f')
        ]

    -- `watch`, for so many rounds.
    unfoldable pub watch_rounds : ℕ → Action FifoWatcher Unit
    watch_rounds zero f = (ok tt, f)
    watch_rounds (suc rounds) f = (watch_round >>= λ _. watch_rounds rounds) f

    unfoldable pub watch : ℕ → Action FifoWatcher Unit
    watch rounds f = (reset >>= λ _. watch_rounds rounds) f
