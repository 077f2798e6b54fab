-- ===== src/Watcher/ThreadExamples.antt =====
-- Tests of the threads of the file watcher.
use hawck.Prelude.{◌≡◌, refl, List, [], ◌∷◌}
use hawck.Watcher.Rounds.{stopped_state, running_state, stopping_state}
use hawck.Watcher.Threads.{
  Place, in_body, returned, stop_rounds, is_stopped, enters, leaves, ends_round, ends, turns,
  tests_start, starts, tests_stop, halts, returns, Reach, begin, next,
}
use hawck.Watcher.Stopping.{stopped_quiet}

-- The thread is in the body of its loop when it is told to stop, and ends while `stop` waits.
stopped : Reach is_stopped 15 (record { running = stopped_state; owner = returned; watching = [] })
stopped =
    next
      (next
        (next
          (next
            (next
              (next
                (next
                  (next (next begin (tests_start stopped_state [] refl refl))
                    (starts stopped_state []))
                  (turns (enters [])))
                (tests_stop running_state (in_body ∷ []) refl))
              (halts running_state (in_body ∷ [])))
            (turns (ends_round stopping_state [])))
          (turns (leaves stopping_state [] refl)))
        (turns (ends stopping_state [])))
      (returns stopped_state (stop_rounds 15) [] refl)

stopped_quiet_example : (stopped_state ≡ stopped_state) × (◌≡◌ {A = List Place} [] [])
stopped_quiet_example = stopped_quiet is_stopped 15 refl stopped refl
