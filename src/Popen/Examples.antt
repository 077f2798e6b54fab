-- ===== src/Popen/Examples.antt =====
-- Tests of the reading of a program's output.
use hawck.Prelude.{ℕ, ◌≡◌, refl, ap, [], Option, none, some, Str, codes, take, drop, arith}
use hawck.Popen.{
  Children, Phase, runs, zombie, reaped, Waited, still_runs, no_child, ended, Pipe, stdout, stderr,
  output, subprocess_error, read_rounds, report, read_once,
}
use hawck.Popen.ReadOnce.{read_once_ended}

-- One process, of which nothing is seen but the bytes that it left and its phase.
record Child : Type 0 where
  written : Str
  errors : Str
  state : Phase

abbrev pending_of : Pipe → Child → Str
pending_of stdout c = c.written
pending_of stderr c = c.errors

abbrev read_of : Pipe → ℕ → Child → Option Str × Child
read_of stdout n c = (some (take n c.written), record c { written = drop n c.written })
read_of stderr n c = (some (take n c.errors), record c { errors = drop n c.errors })

abbrev reap : Phase → Waited × Phase
reap runs = (still_runs, runs)
reap (zombie status) = (ended status, reaped)
reap reaped = (no_child, reaped)

read_of-state : (p : Pipe) (n : ℕ) (c : Child) → (read_of p n c).1.state ≡ c.state
read_of-state stdout n c = refl
read_of-state stderr n c = refl

read_of-pending :
    (p : Pipe) (n : ℕ) (c : Child)
    → ((read_of p n c).0 ≡ some (take n (pending_of p c)))
      × (pending_of p (read_of p n c).1 ≡ drop n (pending_of p c))
read_of-pending stdout n c = (refl, refl)
read_of-pending stderr n c = (refl, refl)

pending_of-state :
    (p : Pipe) (c : Child) (s : Phase) → pending_of p (record c { state = s }) ≡ pending_of p c
pending_of-state stdout c s = refl
pending_of-state stderr c s = refl

abbrev children : Children
children = record {
  W = Child;
  read = read_of;
  waitpid = λ pid c. let (waited, s) = reap c.state in (waited, record c { state = s });
  waitpid_blocking = λ pid c. record c { state = reaped };
  pending = pending_of;
  phase = λ pid c. c.state;
  read-runs = λ p pid n c. read_of-state p n c;
  read-zombie = λ p pid n status c h. read_of-pending p n c;
  read-reaped = λ p pid n c h. read_of-pending p n c;
  read-other = λ n c. refl;
  waitpid-zombie = λ pid status c h. (ap (λ s. (reap s).0) h, ap (λ s. (reap s).1) h);
  waitpid-reaped = λ pid c h. (ap (λ s. (reap s).0) h, ap (λ s. (reap s).1) h);
  pending-waitpid = λ p pid c. pending_of-state p c (reap c.state).1;
}

abbrev failed : Child
failed = record { written = codes "-- "; errors = codes "line 3"; state = zombie 1 }

read_once_ended_example :
    (w' : Child) × (read_once children 7 0 (some 5) failed
      ≡ some ((subprocess_error (codes "line 3") 1, none), w'))
read_once_ended_example = read_once_ended children 7 5 1 0 failed refl (omega arith) (omega arith)

succeeds :
    read_once children 3 0 (some 5) (record failed { state = zombie 0 })
    ≡ some ((output (codes "-- "), none), record failed { written = []; state = reaped })
unfolding read_once read_rounds report
succeeds = refl
