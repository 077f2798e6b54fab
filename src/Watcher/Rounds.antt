-- ===== src/Watcher/Rounds.antt =====
-- The loop of `FSWatcher::watch`, src/FSWatcher.cpp, and the fields of the class that it keeps events in.
use hawck.Prelude.{
  ℕ, suc, ◌≡◌, ap, Bool, false, List, [], ◌∷◌, ◌++◌, Str, ◌==◌, drop, length, arith, if◌then◌else◌,
}
use hawck.Watcher.{
  Inotify, FsWatcher, RawEvent, FsEvent, Format, Ending, finished, stopped, thrown, no_fuel,
  deliver,
}
use hawck.Watcher.Deliver.{AllEncoded, all_bytes, dispatch, deliver-all_bytes}

pub data RunState : Type 0 where
  stopped_state running_state stopping_state : RunState

-- What happens in a round: `poll` fails, times out, or there is something to read, of which `read` gives
-- some bytes, or none if it fails. Another thread can call `stop` before the round has ended: of a round
-- that handles events, the function says whether it has not yet done so at the test after each of them.
pub data Polled : Type 0 where
  poll_failed timed_out told_to_stop : Polled
  readable : Str → (ℕ → Bool) → Polled

module _ (I : Inotify) (F : Format) {S : Type 0} (callback : FsEvent → S → Bool × S) where
  -- The watcher, the fields that `watch` changes, and the state of the callback.
  pub record Watching : Type 0 where
    pub watcher : FsWatcher I
    pub evbuf : Str
    pub backup_num_read : ℕ
    pub running : RunState
    pub client : S

  -- What is left of a buffer `buf` when the loop over it has ended.
  abbrev pub settled : Str → Watching → Ending × FsWatcher I × S → Watching
  settled buf v (ending, watcher, client) =
      let over = record v {
        watcher = watcher;
        evbuf = buf;
        backup_num_read = 0;
        client = client;
      } in
      elim ending [
        | finished ↦ over
        | thrown ↦ over
        | no_fuel ↦ over
        | stopped kept ↦ record over {
          evbuf = kept ++ drop (length kept) buf;
          backup_num_read = length kept;
          running = stopping_state;
        }
      ]

  -- The loop over the first `num_read` bytes of the buffer.
  abbrev pub deliver_all : (ℕ → Bool) → Str → ℕ → Watching → Watching
  deliver_all runs buf num_read v =
      settled buf v (deliver I F callback runs (suc num_read) 0 buf num_read v.watcher v.client)

  -- A round of the loop of `watch`: the second call of `poll`, and what follows it. Each exception is
  -- caught at the end of the round.
  unfoldable pub watch_round : Polled → Watching → Watching
  watch_round poll_failed v = v
  watch_round timed_out v = v
  watch_round told_to_stop v = record v { running = stopping_state }
  watch_round (readable bytes runs) v =
      let fresh = deliver_all runs (bytes ++ drop (length bytes) v.evbuf) (length bytes) v in
      let again = deliver_all runs v.evbuf v.backup_num_read v in
      if v.backup_num_read == 0 then (if length bytes == 0 then v else fresh) else again

  -- The loop, on what its rounds see.
  unfoldable pub watch : List Polled → Watching → Watching
  watch [] v = v
  watch (p ∷ ps) v =
      let rest = watch ps (watch_round p v) in
      elim v.running [
        | running_state ↦ rest
        | stopping_state ↦ record v { running = stopped_state }
        | stopped_state ↦ record v { running = stopped_state }
      ]

  -- A round of `watch` that has nothing kept and reads the bytes of some events handles each of them,
  -- in order, up to the end, an exception, or a stop, by the callback or by another thread before the
  -- test that follows the event: an exception drops the events that follow, and a stop keeps them
  -- behind the name bytes of the last event.
  pub watch_round-all_bytes :
      (evs : List RawEvent) (runs : ℕ → Bool) (v : Watching)
      → AllEncoded F evs
      → v.backup_num_read ≡ 0
      → (length (all_bytes F evs) == 0) ≡ false
      → watch_round (readable (all_bytes F evs) runs) v
        ≡ settled (all_bytes F evs ++ drop (length (all_bytes F evs)) v.evbuf) v (
            dispatch I F callback runs 0 evs
              (drop (length (all_bytes F evs)) v.evbuf)
              v.watcher
              v.client)
  unfolding watch_round
  watch_round-all_bytes evs runs v all empty some_bytes =
      let size = length (all_bytes F evs) in
      let after = drop size v.evbuf in
      rw (empty, some_bytes, watch_round)
        (ap (settled (all_bytes F evs ++ after) v) (
          deliver-all_bytes I F callback runs (suc size) evs after v.watcher v.client all
            (omega arith)))
