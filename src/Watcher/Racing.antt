-- ===== src/Watcher/Racing.antt =====
-- Interleavings of `FSWatcher::asyncWatch` and `FSWatcher::stop`, src/FSWatcher.hpp and
-- src/FSWatcher.cpp, that end with two threads or with an exception.
use hawck.Prelude.{ℕ, ◌≡◌, refl, Bool, true, [], ◌∷◌}
use hawck.Watcher.Rounds.{RunState, stopped_state, running_state, stopping_state}
use hawck.Watcher.Threads.{
  at_test, idle, waiting, stop_rounds, enters, leaves, is_told_to_stop, ends, turns, tests_start,
  starts, tests_stop, halts, Reach, begin, next,
}

module _ (may_start : RunState → Bool) (timeout_sec : ℕ) where
  -- If `asyncWatch` is called while a watch is being stopped by its callback, two threads can be in
  -- `watch` at once.
  pub two_threads :
      may_start stopped_state ≡ true
      → may_start stopping_state ≡ true
      → Reach may_start timeout_sec
          (record { running = running_state; owner = idle; watching = at_test ∷ at_test ∷ [] })
  two_threads first second =
      next
        (next
          (next
            (next
              (next (next begin (tests_start stopped_state [] first refl))
                (starts stopped_state []))
              (turns (enters [])))
            (turns (is_told_to_stop running_state [])))
          (tests_start stopping_state (at_test ∷ []) second refl))
        (starts stopping_state (at_test ∷ []))

  -- If the callback ends the watch between the test and the store of `stop`, `stop` waits for a thread
  -- that is gone, and throws.
  pub stop_lost :
      may_start stopped_state ≡ true
      → Reach may_start timeout_sec (record {
        running = stopping_state;
        owner = waiting (stop_rounds timeout_sec);
        watching = [];
      })
  stop_lost first =
      next
        (next
          (next
            (next
              (next
                (next
                  (next (next begin (tests_start stopped_state [] first refl))
                    (starts stopped_state []))
                  (turns (enters [])))
                (turns (is_told_to_stop running_state [])))
              (tests_stop stopping_state (at_test ∷ []) refl))
            (turns (leaves stopping_state [] refl)))
          (turns (ends stopping_state [])))
        (halts stopped_state [])
