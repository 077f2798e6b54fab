-- ===== src/Popen.antt =====
-- src/Popen.cpp: what a program that is run by the daemon writes, and how it ends.
pub mod ReadOnce
mod Examples
use hawck.Prelude.{
  ℕ, zero, suc, ◌≡◌, Bool, true, false, List, [], ◌∷◌, ◌++◌, Option, none, some, Str, ◌==◌, take,
  drop, if◌then◌else◌,
}

-- What `waitpid` gives with WNOHANG: 0, the process that has ended with its status, or -1.
pub data Waited : Type 0 where
  still_runs no_child : Waited
  ended : ℕ → Waited

-- A process as the kernel knows it.
pub data Phase : Type 0 where
  runs reaped : Phase
  zombie : ℕ → Phase

pub data Pipe : Type 0 where
  stdout stderr : Pipe

-- The pipes and the processes. `pending` has the bytes that were written to a pipe and not read yet; of
-- a process that has ended they are all that is to come, and a read does not wait.
pub record Children : Type 1 where
  pub W : Type 0
  pub read : Pipe → ℕ → W → Option Str × W
  pub waitpid : Option ℕ → W → Waited × W
  pub waitpid_blocking : ℕ → W → W
  pub pending : Pipe → W → Str
  pub phase : ℕ → W → Phase
  pub read-runs : (p : Pipe) (pid n : ℕ) (w : W) → phase pid (read p n w).1 ≡ phase pid w
  pub read-zombie :
      (p : Pipe) (pid n status : ℕ) (w : W)
      → phase pid w ≡ zombie status
      → ((read p n w).0 ≡ some (take n (pending p w)))
        × (pending p (read p n w).1 ≡ drop n (pending p w))
  pub read-reaped :
      (p : Pipe) (pid n : ℕ) (w : W)
      → phase pid w ≡ reaped
      → ((read p n w).0 ≡ some (take n (pending p w)))
        × (pending p (read p n w).1 ≡ drop n (pending p w))
  pub read-other : (n : ℕ) (w : W) → pending stderr (read stdout n w).1 ≡ pending stderr w
  pub waitpid-zombie :
      (pid status : ℕ) (w : W)
      → phase pid w ≡ zombie status
      → ((waitpid (some pid) w).0 ≡ ended status) × (phase pid (waitpid (some pid) w).1 ≡ reaped)
  pub waitpid-reaped :
      (pid : ℕ) (w : W)
      → phase pid w ≡ reaped
      → ((waitpid (some pid) w).0 ≡ no_child) × (phase pid (waitpid (some pid) w).1 ≡ reaped)
  pub pending-waitpid :
      (p : Pipe) (pid : Option ℕ) (w : W) → pending p (waitpid pid w).1 ≡ pending p w

-- How `readOnce` ends.
pub data Output : Type 0 where
  output : Str → Output
  system_error : Output
  subprocess_error : Str → ℕ → Output

-- The size of the buffers.
abbrev pub buf_size : ℕ
buf_size = 8192

module _ (C : Children) where
  open C use {W}

  -- The loop of `readOnce` on fuel, from what was read and the status so far: with what it ends.
  unfoldable pub read_rounds : ℕ → Option ℕ → Str → ℕ → W → Option (Option (Str × ℕ) × W)
  read_rounds zero pid sofar status w = none
  read_rounds (suc fuel) pid sofar status w =
      let (got, w1) = C.read stdout buf_size w in
      let (waited, w2) = C.waitpid pid w1 in
      elim got [
        | none ↦ some (none, w1)
        | some buf ↦ elim waited [
          | still_runs ↦ read_rounds fuel pid (sofar ++ buf) status w2
          | ended status' ↦ read_rounds fuel pid (sofar ++ buf) status' w2
          | no_child ↦ some (some (sofar ++ buf, status), w2)
        ]
      ]

  -- `Pipe::read` on fuel.
  unfoldable pub read_pipe : ℕ → Pipe → Str → W → Option (Option Str × W)
  read_pipe zero p sofar w = none
  read_pipe (suc fuel) p sofar w =
      let (got, w1) = C.read p buf_size w in
      elim got [
        | none ↦ some (none, w1)
        | some [] ↦ some (some sofar, w1)
        | some (b ∷ buf) ↦ read_pipe fuel p (sofar ++ b ∷ buf) w1
      ]

  -- The end of `readOnce`, with `stderr.read(0)` for the message of the exception.
  unfoldable pub report : ℕ → Str × ℕ → W → Option (Output × W)
  report fuel (out, status) w =
      if status == 0 then some (output out, w) else (elim (read_pipe fuel stderr [] w) [
        | none ↦ none
        | some (none, w') ↦ some (system_error, w')
        | some (some text, w') ↦ some (subprocess_error text status, w')
      ])

  -- `readOnce`, with the process that the object has then; `indeterminate` is what `status` has before
  -- it is written.
  unfoldable pub read_once : ℕ → ℕ → Option ℕ → W → Option ((Output × Option ℕ) × W)
  read_once fuel indeterminate pid w = elim (read_rounds fuel pid [] indeterminate w) [
    | none ↦ none
    | some (none, w') ↦ some ((system_error, pid), w')
    | some (some r, w') ↦ elim (report fuel r w') [
      | none ↦ none
      | some (o, w'') ↦ some ((o, none), w'')
    ]
  ]

  -- The destructor waits for the process, unless it was waited for or detached.
  unfoldable pub destroy : Option ℕ → W → W
  destroy none w = w
  destroy (some pid) w = C.waitpid_blocking pid w
