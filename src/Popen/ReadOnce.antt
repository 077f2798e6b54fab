-- ===== src/Popen/ReadOnce.antt =====
-- What `readOnce` and `Pipe::read` of src/Popen.cpp give of a process that has ended.
use native.Mathlib.Numerals.{unary_clauses}
use mathlib.Core.List.{append-nil, append_assoc}
use hawck.Prelude.{
  ℕ, zero, suc, ◌+◌, ◌≡◌, ◌<◌, ◌⊎◌, refl, sym, ap, ◌∙◌, inl, inr, [], ◌∷◌, ◌++◌, none, some, Str,
  ◌==◌, take, drop, length, arith, if◌then◌else◌, Bool-cases,
}
use hawck.Popen.{
  Children, zombie, reaped, Pipe, stdout, stderr, output, subprocess_error, buf_size, read_rounds,
  read_pipe, report, read_once,
}

take-drop : (n m : ℕ) (xs : Str) → take n xs ++ take m (drop n xs) ≡ take (n + m) xs
take-drop zero m xs = let same : m ≡ 0 + m = omega arith in ap (λ k. take k xs) same
take-drop (suc n) zero [] = simp unary_clauses refl
take-drop (suc n) (suc m) [] = simp unary_clauses refl
take-drop (suc n) m (x ∷ xs) =
    let same : suc (n + m) ≡ suc n + m = omega arith in
    ap (λ l. x ∷ l) (take-drop n m xs) ∙ ap (λ k. take k (x ∷ xs)) same

take-append-drop : (n : ℕ) (xs : Str) → take n xs ++ drop n xs ≡ xs
take-append-drop zero xs = refl
take-append-drop (suc n) [] = refl
take-append-drop (suc n) (x ∷ xs) = ap (λ l. x ∷ l) (take-append-drop n xs)

length-drop_le : (n : ℕ) (xs : Str) → length (drop n xs) < suc (length xs)
length-drop_le zero xs = omega arith
length-drop_le (suc n) [] = omega arith
length-drop_le (suc n) (x ∷ xs) = let shorter = length-drop_le n xs in omega arith

-- A read with room for a byte gives none only at the end.
first_chunk :
    (n : ℕ) (xs : Str)
    → (xs ≡ [])
      ⊎ ((b : ℕ) × (bs : Str) × (take (suc n) xs ≡ b ∷ bs) × (length (drop (suc n) xs) < length xs))
first_chunk n [] = inl refl
first_chunk n (x ∷ xs) = inr (x, take n xs, refl, length-drop_le n xs)

module _ (C : Children) where
  open C use {W}

  -- Of a process that was waited for, `Pipe::read` gives all that is left in the pipe, as many rounds as
  -- bytes and one more are enough.
  pub read_pipe_all :
      (fuel pid : ℕ) (p : Pipe) (sofar : Str) (w : W)
      → C.phase pid w ≡ reaped
      → length (C.pending p w) < fuel
      → (w' : W) × (read_pipe C fuel p sofar w ≡ some (some (sofar ++ C.pending p w), w'))
  unfolding read_pipe
  read_pipe_all zero pid p sofar w gone h = absurd (omega arith)
  read_pipe_all (suc fuel) pid p sofar w gone h =
      let (got, left) = C.read-reaped p pid buf_size w gone in
      let w1 = (C.read p buf_size w).1 in
      elim (first_chunk 8191 (C.pending p w)) [
        | inl done ↦
            (w1, rw (got, done, read_pipe) (ap (λ l. some (some l, w1)) (sym (append-nil sofar))))
        | inr (b, bs, chunk, less) ↦
            let (w', rest) =
              read_pipe_all fuel pid p (sofar ++ b ∷ bs) w1 (C.read-runs p pid buf_size w ∙ gone)
                (rw left (omega arith)) in
            let all : (sofar ++ b ∷ bs) ++ C.pending p w1 ≡ sofar ++ C.pending p w =
              ap (λ l. (sofar ++ l) ++ C.pending p w1) (sym chunk)
              ∙ append_assoc sofar (take buf_size (C.pending p w)) (C.pending p w1)
              ∙ ap (λ l. sofar ++ (take buf_size (C.pending p w) ++ l)) left
              ∙ ap (λ l. sofar ++ l) (take-append-drop buf_size (C.pending p w)) in
            (w', rw (got, chunk, read_pipe) (rest ∙ ap (λ l. some (some l, w')) all))
      ]

  -- The two rounds after the end of the process: the first learns of it, the second of nothing more.
  last_rounds :
      (fuel pid status indeterminate : ℕ) (sofar : Str) (w : W)
      → C.phase pid w ≡ zombie status
      → (w' : W) × (read_rounds C (suc (suc fuel)) (some pid) sofar indeterminate w
          ≡ some (some (sofar ++ take 16384 (C.pending stdout w), status), w'))
        × (C.phase pid w' ≡ reaped)
        × (C.pending stderr w' ≡ C.pending stderr w)
  unfolding read_rounds
  last_rounds fuel pid status indeterminate sofar w dead =
      let xs = C.pending stdout w in
      let (got1, left1) = C.read-zombie stdout pid buf_size status w dead in
      let w1 = (C.read stdout buf_size w).1 in
      let (waited1, gone1) =
        C.waitpid-zombie pid status w1 (C.read-runs stdout pid buf_size w ∙ dead) in
      let w2 = (C.waitpid (some pid) w1).1 in
      let (got2, left2) = C.read-reaped stdout pid buf_size w2 gone1 in
      let w3 = (C.read stdout buf_size w2).1 in
      let (waited2, gone2) = C.waitpid-reaped pid w3 (C.read-runs stdout pid buf_size w2 ∙ gone1) in
      let w4 = (C.waitpid (some pid) w3).1 in
      let rest2 : C.pending stdout w2 ≡ drop buf_size xs =
        C.pending-waitpid stdout (some pid) w1 ∙ left1 in
      let all : (sofar ++ take buf_size xs) ++ take buf_size (C.pending stdout w2)
          ≡ sofar ++ take 16384 xs =
        append_assoc sofar (take buf_size xs) (take buf_size (C.pending stdout w2))
        ∙ ap (λ l. sofar ++ (take buf_size xs ++ take buf_size l)) rest2
        ∙ ap (λ l. sofar ++ l) (take-drop buf_size buf_size xs) in
      (
        w4,
        rw (got1, waited1, got2, waited2, read_rounds) (ap (λ l. some (some (l, status), w4)) all),
        gone2,
        C.pending-waitpid stderr (some pid) w3
            ∙ C.read-other buf_size w2
            ∙ C.pending-waitpid stderr (some pid) w1
            ∙ C.read-other buf_size w,
      )

  -- Of a process that has ended when `readOnce` is called, `readOnce` gives the first 16384 bytes of its
  -- output and no more if its status was 0, and the exception with all that it wrote to `stderr` else;
  -- the destructor waits for nothing then. As many rounds as there are bytes in `stderr`, and two more,
  -- are enough.
  pub read_once_ended :
      (fuel pid status indeterminate : ℕ) (w : W)
      → C.phase pid w ≡ zombie status
      → length (C.pending stderr w) < fuel
      → 1 < fuel
      → (w' : W) × (read_once C fuel indeterminate (some pid) w
          ≡ some (
            (
              if status == 0
                  then output (take 16384 (C.pending stdout w))
                  else subprocess_error (C.pending stderr w) status,
              none,
            ),
            w',
          ))
  unfolding read_once report
  read_once_ended zero pid status indeterminate w dead h two = absurd (omega arith)
  read_once_ended (suc zero) pid status indeterminate w dead h two = absurd (omega arith)
  read_once_ended (suc (suc fuel)) pid status indeterminate w dead h two =
      let (w1, rounds, gone, same) = last_rounds fuel pid status indeterminate [] w dead in
      let (w2, text) = read_pipe_all (suc (suc fuel)) pid stderr [] w1 gone (rw same h) in
      elim (Bool-cases (status == 0)) [
        | inl fine ↦ (w1, rw (rounds, fine, read_once, report) refl)
        | inr failed ↦ (
          w2,
          rw (rounds, failed, text, read_once, report)
              (ap (λ l. some ((subprocess_error l status, none), w2)) same),
        )
      ]
