-- ===== src/Daemon/Streams.antt =====
-- What `daemonize` of src/Daemon.cpp does to the open files.
use hawck.Prelude.{
  ℕ, zero, suc, ◌<◌, ◌≡◌, refl, sym, ap, ◌∙◌, Bool, true, false, Option, none, some, Str, codes,
  ◌==◌, ==_iff, arith, if◌then◌else◌, Bool-cases, Option-cases, inl, inr,
}
use hawck.Daemon.{
  Fds, Process, assign, close, dup2, close_all, Forked, fork_failed, in_child, in_parent,
  fork_through, Unix, Ended, goes_on, aborts, throws, dup_and_close, dup_streams, max_fd, daemonize,
}

-- A descriptor that `dup2` does not write to.
dup2_other : (old new n : ℕ) (fds : Fds) → (new == n) ≡ false → dup2 old new fds n ≡ fds n
dup2_other old new n fds h = elim (Option-cases (fds old)) [
  | inl shut ↦ rw (shut, dup2) refl
  | inr (file, at) ↦ rw (at, dup2) (ap (λ b. if b then some file else fds n) h)
]

close_all_closes : (maxfd n : ℕ) (fds : Fds) → n < maxfd → close_all maxfd fds n ≡ none
unfolding close_all
close_all_closes zero n fds h = absurd (omega arith)
close_all_closes (suc maxfd) n fds h = ground (arith, h, close_all_closes maxfd n fds)

assign_here :
    (fd n : ℕ) (file : Option Str) (fds : Fds) → (fd == n) ≡ true → assign fd file fds n ≡ file
assign_here fd n file fds h = ap (λ b. if b then file else fds n) h

assign_other :
    (fd n : ℕ) (file : Option Str) (fds : Fds) → (fd == n) ≡ false → assign fd file fds n ≡ fds n
assign_other fd n file fds h = ap (λ b. if b then file else fds n) h

-- A descriptor that is free although another has been opened was free before.
free_before :
    (fd n : ℕ) (file : Str) (fds : Fds) → assign fd (some file) fds n ≡ none → fds n ≡ none
free_before fd n file fds h = elim (Bool-cases (fd == n)) [
  | inl e ↦ absurd (cc (assign_here fd n (some file) fds e, h))
  | inr e ↦ sym (assign_other fd n (some file) fds e) ∙ h
]

free_at : (m n : ℕ) (fds : Fds) → (m == n) ≡ true → fds m ≡ none → fds n ≡ none
free_at m n fds e h = ap fds (sym ((==_iff m n).0 e)) ∙ h

module _ (U : Unix) where
  module _ (a b c n : ℕ) (f g h : Str) (fds : Fds) where
    abbrev opened : Fds
    opened = assign c (some h) (assign b (some g) (assign a (some f) fds))

    abbrev dupped : Fds
    dupped = dup2 2 c (dup2 1 b (dup2 0 a opened))

    untouched : (a == n) ≡ false → (b == n) ≡ false → (c == n) ≡ false → dupped n ≡ fds n
    untouched i j k =
        dup2_other 2 c n (dup2 1 b (dup2 0 a opened)) k
        ∙ dup2_other 1 b n (dup2 0 a opened) j
        ∙ dup2_other 0 a n opened i
        ∙ assign_other c n (some h) (assign b (some g) (assign a (some f) fds)) k
        ∙ assign_other b n (some g) (assign a (some f) fds) j
        ∙ assign_other a n (some f) fds i

    closes_again :
        fds a ≡ none
        → assign a (some f) fds b ≡ none
        → assign b (some g) (assign a (some f) fds) c ≡ none
        → dup_and_close U a b c opened n ≡ fds n
    closes_again at_a at_b at_c =
        let free_b = free_before a b f fds at_b in
        let free_c = free_before a c f fds (free_before b c g (assign a (some f) fds) at_c) in
        elim (Bool-cases (a == n)) [
          | inl i ↦ assign_here a n none (close b (close c dupped)) i ∙ sym (free_at a n fds i at_a)
          | inr i ↦
              assign_other a n none (close b (close c dupped)) i ∙ elim (Bool-cases (b == n)) [
                | inl j ↦ assign_here b n none (close c dupped) j ∙ sym (free_at b n fds j free_b)
                | inr j ↦ assign_other b n none (close c dupped) j ∙ elim (Bool-cases (c == n)) [
                  | inl k ↦ assign_here c n none dupped k ∙ sym (free_at c n fds k free_c)
                  | inr k ↦ assign_other c n none dupped k ∙ untouched i j k
                ]
              ]
        ]

  -- `dup_streams` redirects nothing: if it returns, every descriptor has the file that it had before, or
  -- is closed as it was.
  pub dup_streams_keeps :
      (stdout_path stderr_path : Str) (p after : Process) (n : ℕ)
      → dup_streams U stdout_path stderr_path p ≡ goes_on after
      → after.fds n ≡ p.fds n
  unfolding dup_streams
  dup_streams_keeps stdout_path stderr_path p after n h =
      let fds = p.fds in
      let null = codes "/dev/null" in
      elim (Option-cases (U.open_file null fds)) [
        | inl failed ↦
            let stops : dup_streams U stdout_path stderr_path p ≡ aborts =
              rw (failed, dup_streams) refl in
            absurd (cc (stops, h))
        | inr (a, at_a) ↦
            let fds1 = assign a (some null) fds in
            elim (Option-cases (U.open_file stdout_path fds1)) [
              | inl failed ↦
                  let stops : dup_streams U stdout_path stderr_path p ≡ throws =
                    rw (at_a, failed, dup_streams) refl in
                  absurd (cc (stops, h))
              | inr (b, at_b) ↦
                  let fds2 = assign b (some stdout_path) fds1 in
                  elim (Option-cases (U.open_file stderr_path fds2)) [
                    | inl failed ↦
                        let stops : dup_streams U stdout_path stderr_path p ≡ throws =
                          rw (at_a, at_b, failed, dup_streams) refl in
                        absurd (cc (stops, h))
                    | inr (c, at_c) ↦
                        let fds3 = assign c (some stderr_path) fds2 in
                        let ends : dup_streams U stdout_path stderr_path p
                            ≡ goes_on (record p { fds = dup_and_close U a b c fds3 }) =
                          rw (at_a, at_b, at_c, dup_streams) refl in
                        let same : goes_on after
                            ≡ goes_on (record p { fds = dup_and_close U a b c fds3 }) =
                          sym h ∙ ends in
                        let table : after ≡ record p { fds = dup_and_close U a b c fds3 } =
                          cc same in
                        ap (λ (t : Process). t.fds n) table
                        ∙ closes_again a b c n null stdout_path stderr_path fds
                            (U.open-free null fds a at_a) (U.open-free stdout_path fds1 b at_b)
                            (U.open-free stderr_path fds2 c at_c)
                  ]
            ]
      ]

  through_inv :
      (forked : Forked) (rest : Ended) (after : Process)
      → fork_through U forked rest ≡ goes_on after
      → rest ≡ goes_on after
  through_inv fork_failed rest after h = absurd (cc h)
  through_inv in_child rest after h = h
  through_inv in_parent rest after h = absurd (cc h)

  if_inv :
      (b : Bool) (rest : Ended) (after : Process)
      → (if b then rest else throws) ≡ goes_on after
      → rest ≡ goes_on after
  if_inv true rest after h = h
  if_inv false rest after h = absurd (cc h)

  -- If `daemonize` returns, in the child of the child, then no descriptor below the limit is open:
  -- neither standard input nor the two outputs lead anywhere.
  pub daemonize_closes :
      (logfile_path : Str) (p after : Process) (n : ℕ)
      → n < max_fd U
      → daemonize U logfile_path p ≡ goes_on after
      → after.fds n ≡ none
  unfolding daemonize
  daemonize_closes logfile_path p after n low h =
      let inner = through_inv U.first_fork _ after h in
      let second = if_inv U.setsid _ after inner in
      let third = through_inv U.second_fork _ after second in
      let streams = if_inv (U.chdir (codes "/")) _ after third in
      dup_streams_keeps logfile_path logfile_path
        (record p {
          leads_session = false;
          umask = 0;
          cwd = codes "/";
          fds = close_all (max_fd U) p.fds;
        })
        after n streams
      ∙ close_all_closes (max_fd U) n p.fds low
