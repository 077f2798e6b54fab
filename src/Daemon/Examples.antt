-- ===== src/Daemon/Examples.antt =====
-- Tests of the helpers of a daemon.
use hawck.Prelude.{
  ℕ, ◌≡◌, ap, sym, ◌∙◌, Option-cases, inl, inr, leb, refl, true, false, Option, none, some, codes,
  if◌then◌else◌,
}
use hawck.Daemon.{
  Fds, Process, assign, dup_and_close, Unix, in_child, close_all, pidexe, kill_pretender,
}
use hawck.Daemon.PidFile.{kill_pretender_kills}
use hawck.Samples.{processes, host}

-- The first descriptor of 0, 1, 2 and 3 that is not in use.
abbrev lowest : Fds → Option ℕ
lowest fds = elim (fds 0) [
  | none ↦ some 0
  | some f ↦ elim (fds 1) [
    | none ↦ some 1
    | some g ↦ elim (fds 2) [ none ↦ some 2 | some h ↦ none ]
  ]
]

lowest_free : (fds : Fds) (fd : ℕ) → lowest fds ≡ some fd → fds fd ≡ none
lowest_free fds fd h = elim (Option-cases (fds 0)) [
  | inl shut ↦
      let at : lowest fds ≡ some 0 = rw (shut, lowest) refl in
      let one : 0 ≡ fd = cc (at, h) in ap fds (sym one) ∙ shut
  | inr (f, taken) ↦ elim (Option-cases (fds 1)) [
    | inl shut ↦
        let at : lowest fds ≡ some 1 = rw (taken, shut, lowest) refl in
        let one : 1 ≡ fd = cc (at, h) in ap fds (sym one) ∙ shut
    | inr (g, taken1) ↦ elim (Option-cases (fds 2)) [
      | inl shut ↦
          let at : lowest fds ≡ some 2 = rw (taken, taken1, shut, lowest) refl in
          let one : 2 ≡ fd = cc (at, h) in ap fds (sym one) ∙ shut
      | inr (k, taken2) ↦
          let full : lowest fds ≡ none = rw (taken, taken1, taken2, lowest) refl in
          absurd (cc (full, h))
    ]
  ]
]

abbrev unix : Unix
unix = record {
  open_file = λ path fds. lowest fds;
  open-free = λ path fds fd h. lowest_free fds fd h;
  first_fork = in_child;
  second_fork = in_child;
  setsid = true;
  chdir = λ path. true;
  open_max = some 4;
}

-- A shell's descriptors: one terminal for all three.
abbrev terminal : Fds
terminal n = if leb n 2 then some (codes "/dev/tty") else none

-- The descriptors after the three files have been closed again.
abbrev redirected : Fds
redirected = dup_and_close unix 0 1 2 (
    assign 2 (some (codes "/log"))
      (assign 1 (some (codes "/log")) (assign 0 (some (codes "/dev/null")) (close_all 4 terminal))))

abbrev shell : Process
shell = record { fds = terminal; umask = 0o22; cwd = codes "/h"; leads_session = false }

abbrev daemon : Process
daemon = record { fds = redirected; umask = 0; cwd = codes "/"; leads_session = false }

kill_pretender_kills_example :
    ((kill_pretender processes (codes "/pid") host).1.pid ≡ some 7)
    × ((kill_pretender processes (codes "/pid") host).1.busy ≡ false)
    × ((kill_pretender processes (codes "/pid") host).1.dead 5 ≡ true)
unfolding kill_pretender pidexe
kill_pretender_kills_example = kill_pretender_kills processes (codes "/pid") 5 host refl
