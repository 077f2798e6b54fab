-- ===== src/Watcher/Threads.antt =====
-- `FSWatcher::asyncWatch` and `FSWatcher::stop`, src/FSWatcher.hpp and src/FSWatcher.cpp: the thread that
-- watches, and the one that starts it and stops it, in any interleaving.
use hawck.Prelude.{ℕ, zero, suc, ◌*◌, ◌-◌, ◌≡◌, Bool, true, false, List, [], ◌∷◌}
use hawck.Watcher.Rounds.{RunState, stopped_state, running_state, stopping_state}

-- Where a thread is in `watch`: before the condition of its loop, in the body, or behind the loop.
pub data Place : Type 0 where
  at_test in_body behind : Place

-- The other thread: it can be between the test of `running` and the store, in `asyncWatch` and in
-- `stop`, it can be in the loop of `stop` with rounds left, have given up with an exception, or have
-- come back from `stop`.
pub data Owner : Type 0 where
  idle starting halting gave_up returned : Owner
  waiting : ℕ → Owner

pub record Threads : Type 0 where
  pub running : RunState
  pub owner : Owner
  pub watching : List Place

-- The rounds of 10 µs of `stop` before the one that throws, of FSW_THREAD_STOP_TIMEOUT_SEC seconds.
abbrev pub stop_rounds : ℕ → ℕ
stop_rounds timeout_sec = timeout_sec * 100000 - 1

abbrev pub is_running : RunState → Bool
is_running running_state = true
is_running stopped_state = false
is_running stopping_state = false

abbrev pub is_stopped : RunState → Bool
is_stopped stopped_state = true
is_stopped running_state = false
is_stopped stopping_state = false

-- A step of a watching thread, with what it leaves of `running` and of itself.
pub data Turn : RunState → List Place → RunState → List Place → Type 0 where
  enters : (ps : List Place) → Turn running_state (at_test ∷ ps) running_state (in_body ∷ ps)
  leaves :
      (r : RunState) (ps : List Place)
      → is_running r ≡ false
      → Turn r (at_test ∷ ps) r (behind ∷ ps)
  ends_round : (r : RunState) (ps : List Place) → Turn r (in_body ∷ ps) r (at_test ∷ ps)
  is_told_to_stop :
      (r : RunState) (ps : List Place) → Turn r (in_body ∷ ps) stopping_state (at_test ∷ ps)
  ends : (r : RunState) (ps : List Place) → Turn r (behind ∷ ps) stopped_state ps
  other :
      (r r' : RunState) (p : Place) (ps qs : List Place)
      → Turn r ps r' qs
      → Turn r (p ∷ ps) r' (p ∷ qs)

-- `may_start` says in which states the owner calls `asyncWatch`.
module _ (may_start : RunState → Bool) (timeout_sec : ℕ) where
  pub data Step : Threads → Threads → Type 0 where
    turns :
        {r r' : RunState} {ps qs : List Place} {o : Owner}
        → Turn r ps r' qs
        → Step
            (record { running = r; owner = o; watching = ps })
            (record { running = r'; owner = o; watching = qs })
    tests_start :
        (r : RunState) (ps : List Place)
        → may_start r ≡ true
        → is_running r ≡ false
        → Step
            (record { running = r; owner = idle; watching = ps })
            (record { running = r; owner = starting; watching = ps })
    starts :
        (r : RunState) (ps : List Place)
        → Step
            (record { running = r; owner = starting; watching = ps })
            (record { running = running_state; owner = idle; watching = at_test ∷ ps })
    tests_stop :
        (r : RunState) (ps : List Place)
        → is_stopped r ≡ false
        → Step
            (record { running = r; owner = idle; watching = ps })
            (record { running = r; owner = halting; watching = ps })
    returns_at_once :
        (r : RunState) (ps : List Place)
        → is_stopped r ≡ true
        → Step
            (record { running = r; owner = idle; watching = ps })
            (record { running = r; owner = returned; watching = ps })
    halts :
        (r : RunState) (ps : List Place)
        → Step
            (record { running = r; owner = halting; watching = ps })
            (record {
              running = stopping_state;
              owner = waiting (stop_rounds timeout_sec);
              watching = ps;
            })
    waits :
        (r : RunState) (n : ℕ) (ps : List Place)
        → is_stopped r ≡ false
        → Step
            (record { running = r; owner = waiting (suc n); watching = ps })
            (record { running = r; owner = waiting n; watching = ps })
    gives_up :
        (r : RunState) (ps : List Place)
        → is_stopped r ≡ false
        → Step
            (record { running = r; owner = waiting zero; watching = ps })
            (record { running = r; owner = gave_up; watching = ps })
    returns :
        (r : RunState) (n : ℕ) (ps : List Place)
        → is_stopped r ≡ true
        → Step
            (record { running = r; owner = waiting n; watching = ps })
            (record { running = r; owner = returned; watching = ps })
    goes_on :
        (r : RunState) (ps : List Place)
        → Step
            (record { running = r; owner = returned; watching = ps })
            (record { running = r; owner = idle; watching = ps })

  pub data Reach : Threads → Type 0 where
    begin : Reach (record { running = stopped_state; owner = idle; watching = [] })
    next : {s t : Threads} → Reach s → Step s t → Reach t
