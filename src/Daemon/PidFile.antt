-- ===== src/Daemon/PidFile.antt =====
-- The pid file of src/Daemon.cpp.
use hawck.Prelude.{
  ℕ, ◌≡◌, ◌||◌, ◌&&◌, refl, ap, ap₂, ◌∙◌, Bool, true, false, [], ◌∷◌, codes, Option, none, some,
  Str, str_eq, str_eq_iff, ◌==◌, ==_iff, arith, if◌then◌else◌, Bool-cases, inl, inr,
}
use hawck.Keyboard.Opening.{decimal}
use hawck.Paths.{path_join}
use hawck.Effect.{ok, err, system_error, process_ended}
use hawck.Daemon.{Processes, read_or, pidexe, is_pretender, is_own, kill_pretender, clear_pid_file}

module _ (P : Processes) where
  open P use {W}

  kill_if :
      (b : Bool) (old n : ℕ) (w : W)
      → (b && is_own P old) ≡ false
      → P.killed (if b then P.kill old w else w) n ≡ (P.killed w n || (b && old == n))
  kill_if true old n w h =
      let other : (old == 0) ≡ false = ground (arith, h) in
      P.killed-kill old n w other ∙ ground arith
  kill_if false old n w h = ground arith

  old_before :
      (initial : ℕ) (file : Str) (w : W)
      → read_or P initial file (P.flock file w).1 ≡ read_or P initial file w
  old_before initial file w =
      ap (λ (o : Option ℕ). elim o as (λ _. ℕ) [ none ↦ initial | some pid ↦ pid ])
        (P.read-flock file w)

  pidexe_before : (file : Str) (pid : ℕ) (w : W) → pidexe P pid (P.flock file w).1 ≡ pidexe P pid w
  unfolding pidexe
  pidexe_before file pid w =
      ap (λ (o : Option Str). elim o as (λ _. Str) [ none ↦ [] | some path ↦ path ])
        (P.readlink-flock file (path_join (codes "/proc") (decimal 10 pid [] ∷ codes "exe" ∷ [])) w)

  pretender_before :
      (file : Str) (old : ℕ) (w : W) → is_pretender P old (P.flock file w).1 ≡ is_pretender P old w
  pretender_before file old w =
      ap₂ (λ a b. str_eq (P.basename a) (P.basename b)) (pidexe_before file old w)
        (pidexe_before file P.getpid w)

  -- If `killPretender` returns, the pid file has the number of the process, its lock is free, and the
  -- processes that have been sent SIGTERM are those of before and the one in the file, if it runs a
  -- program of the same name.
  pub kill_pretender_kills :
      (file : Str) (n : ℕ) (w : W)
      → (kill_pretender P file w).0 ≡ ok tt
      → (P.read_pid file (kill_pretender P file w).1 ≡ some P.getpid)
        × (P.locked (kill_pretender P file w).1 file ≡ false)
        × (P.killed (kill_pretender P file w).1 n
            ≡ (P.killed w n || is_pretender P (read_or P 0 file w) w && read_or P 0 file w == n))
  unfolding kill_pretender
  kill_pretender_kills file n w h =
      let w' = (P.flock file w).1 in
      let old = read_or P 0 file w' in
      elim (Bool-cases (P.flock file w).0) [
        | inr refused ↦
            let stops : (kill_pretender P file w).0 ≡ err system_error =
              rw (refused, kill_pretender) refl in
            absurd (cc (stops, h))
        | inl taken ↦ elim (Bool-cases (is_pretender P old w' && is_own P old)) [
          | inl itself ↦
              let ends : (kill_pretender P file w).0 ≡ err process_ended =
                rw (taken, itself, kill_pretender) refl in
              absurd (cc (ends, h))
          | inr goes_on ↦
              let me = some P.getpid in
              let before = if is_pretender P old w' then P.kill old w' else w' in
              let written = P.write_pid file me before in
              rw (taken, goes_on, kill_pretender)
                (
                  P.read-unlock file written ∙ P.read-write file me before,
                  P.locked-unlock file written,
                  P.killed-unlock file n written
                      ∙ P.killed-write file me n before
                      ∙ kill_if (is_pretender P old w') old n w' goes_on
                      ∙ ap₂ (λ a b. a || (is_pretender P b w' && b == n)) (P.killed-flock file n w)
                          (old_before 0 file w)
                      ∙ ap (λ b. P.killed w n || (b && read_or P 0 file w == n))
                          (pretender_before file (read_or P 0 file w) w),
                )
        ]
      ]

  -- If the file has the number of the process itself, as it may after a restart of the system, the
  -- process ends by its own signal.
  pub kill_pretender_itself :
      (file : Str) (w : W)
      → (P.flock file w).0 ≡ true
      → P.read_pid file w ≡ some P.getpid
      → (kill_pretender P file w).0 ≡ err process_ended
  unfolding kill_pretender
  kill_pretender_itself file w taken mine =
      let w' = (P.flock file w).1 in
      let own : read_or P 0 file w' ≡ P.getpid =
        old_before 0 file w
        ∙ ap (λ (o : Option ℕ). elim o as (λ _. ℕ) [ none ↦ 0 | some pid ↦ pid ]) mine in
      let named : is_pretender P P.getpid w' ≡ true =
        (str_eq_iff (P.basename (pidexe P P.getpid w')) (P.basename (pidexe P P.getpid w'))).1
          refl in
      let same : (P.getpid == P.getpid) ≡ true = (==_iff P.getpid P.getpid).1 refl in
      let ends : (is_pretender P (read_or P 0 file w') w' && is_own P (read_or P 0 file w'))
          ≡ true =
        rw own (rw (named, same) refl) in
      rw (taken, ends, kill_pretender) refl

  -- After `killPretender` has returned, `clearPidFile` of the same process, if it returns, leaves no
  -- number in the pid file, and its lock is free.
  pub clear_pid_file-kill_pretender :
      (indeterminate : ℕ) (file : Str) (w : W)
      → (kill_pretender P file w).0 ≡ ok tt
      → (clear_pid_file P indeterminate file (kill_pretender P file w).1).0 ≡ ok tt
      → (P.read_pid file (clear_pid_file P indeterminate file (kill_pretender P file w).1).1 ≡ none)
        × (P.locked (clear_pid_file P indeterminate file (kill_pretender P file w).1).1 file
            ≡ false)
  unfolding clear_pid_file
  clear_pid_file-kill_pretender indeterminate file w h g =
      let u = (kill_pretender P file w).1 in
      let mine = (kill_pretender_kills file 0 w h).0 in
      elim (Bool-cases (P.flock file u).0) [
        | inr refused ↦
            let stops : (clear_pid_file P indeterminate file u).0 ≡ err system_error =
              rw (refused, clear_pid_file) refl in
            absurd (cc (stops, g))
        | inl taken ↦
            let u' = (P.flock file u).1 in
            let here : P.read_pid file u' ≡ some P.getpid = P.read-flock file u ∙ mine in
            let cleared = P.write_pid file none u' in
            let same : (P.getpid == P.getpid) ≡ true = (==_iff P.getpid P.getpid).1 refl in
            rw (taken, here, same, clear_pid_file, read_or)
              (P.read-unlock file cleared ∙ P.read-write file none u', P.locked-unlock file cleared)
      ]
