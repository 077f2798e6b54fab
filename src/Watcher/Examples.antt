-- ===== src/Watcher/Examples.antt =====
-- Tests of the file watcher.
use mathlib.Core.Path.{subst}
use hawck.Prelude.{
  ℕ, ap, ◌∙◌, ◌-◌, ◌≤◌, replicate, take, ◌+◌, ◌<◌, ◌≡◌, refl, Bool, true, false, List, [], ◌∷◌,
  ◌++◌, none, some, Str, codes, ◌==◌, drop, length, arith, if◌then◌else◌,
}
use hawck.Prelude.Maps.{lookup, insert, remove, nat_key, lookup-insert, lookup-remove}
use hawck.Passthrough.{in_create}
use hawck.Watcher.{
  in_attrib, Inotify, FsWatcher, RawEvent, FsEvent, Format, deliver, handle_event, add, add_real,
}
use hawck.Watcher.Coupled.{IsCoupled}
use hawck.Watcher.Table.{add-IsCoupled}
use hawck.Watcher.Deliver.{AllEncoded, all_bytes, dispatch}
use hawck.Watcher.Rounds.{
  Watching, running_state, readable, settled, watch_round, watch_round-all_bytes,
}

-- The sum of the descriptors, and 1: it is none of them.
abbrev next : List (ℕ × Str) → ℕ
next [] = 1
next ((n, p) ∷ w) = n + next w

positive_next : (w : List (ℕ × Str)) → 0 < next w
positive_next [] = omega arith
positive_next ((m, p) ∷ w) = let h = positive_next w in omega arith

above_next : (n : ℕ) (w : List (ℕ × Str)) → next w ≤ n → lookup nat_key n w ≡ none
unfolding lookup
above_next n [] h = refl
above_next n ((m, p) ∷ w) h = ground (arith, h, positive_next w, above_next n w)

-- A kernel whose state is the list of its watches, without limits. Every path is a directory with one
-- file f, and the descriptors 1 and 2 are those of the first two paths.
abbrev kernel : Inotify
kernel = record {
  W = List (ℕ × Str);
  realpath = λ p w. some p;
  opendir = λ p w. some (codes "f" ∷ []);
  stat = λ p w. some (record { st_mode = 0o100644; st_uid = 0; st_gid = 0 });
  add_watch = λ p w. (some (next w), insert nat_key (next w) p w);
  rm_watch = λ n w. remove nat_key n w;
  watches = λ w n. lookup nat_key n w;
  add-fresh = λ p w n new got.
      let fresh = above_next (next w) w (omega arith) in
      let one : next w ≡ n = cc got in cc (fresh, one);
  watches-add = λ p w n m got.
      let one : next w ≡ n = cc got in
      lookup-insert nat_key m (next w) p w
      ∙ ap (λ k. if k == m then some p else lookup nat_key m w) one;
  watches-failed = λ p w m failed. absurd (cc failed);
  watches-rm = λ n w m. lookup-remove nat_key m n w;
}

abbrev fresh_watcher : FsWatcher kernel
fresh_watcher = record {
  path_to_wd = [];
  wd_to_path = [];
  auto_add = true;
  watch_dirs = false;
  kernel = [];
}

fresh_watcher-IsCoupled : IsCoupled kernel fresh_watcher
unfolding lookup
fresh_watcher-IsCoupled = record {
  there = λ p n h. cc h;
  back = λ p n h. cc h;
  watched = λ n. refl;
}

abbrev new_file : RawEvent
new_file = record { wd = 1; mask = in_create; len = 2; name = codes "x" }

abbrev on_a : FsWatcher kernel
on_a = record fresh_watcher {
  path_to_wd = (codes "/a", 1) ∷ [];
  wd_to_path = (1, codes "/a") ∷ [];
  kernel = (1, codes "/a") ∷ [];
}

on_a_added : (add kernel (codes "/a") fresh_watcher).1 ≡ on_a
unfolding add add_real insert lookup
on_a_added = refl

on_a-IsCoupled : IsCoupled kernel on_a
on_a-IsCoupled =
    subst (IsCoupled kernel) on_a_added
      (add-IsCoupled kernel (codes "/a") fresh_watcher fresh_watcher-IsCoupled)

none_left : (m : ℕ) → none ≡ (if 1 == m then none else lookup nat_key m on_a.kernel)
unfolding lookup
none_left m = ground arith

abbrev touched : RawEvent
touched = record { wd = 1; mask = in_attrib; len = 0; name = [] }

-- The first byte of a name.
abbrev head_or_zero : Str → ℕ
head_or_zero [] = 0
head_or_zero (x ∷ xs) = x

-- Four bytes of fields, twelve that are not used, and the name.
abbrev read_header : Str → RawEvent
read_header (wd ∷ mask ∷ len ∷ first ∷ bytes) = record {
  wd = wd;
  mask = mask;
  len = len;
  name = if len == 0 then [] else first ∷ [];
}
read_header bytes = record { wd = 0; mask = 0; len = 0; name = [] }

abbrev short_names : Format
short_names = record {
  header = read_header;
  header_bytes = λ ev. ev.wd ∷ ev.mask ∷ ev.len ∷ head_or_zero ev.name ∷ replicate 12 0;
  name_bytes = λ ev. take ev.len (ev.name ++ replicate ev.len 0);
}

abbrev stop_at_first : FsEvent → List Str → Bool × List Str
stop_at_first e seen = (false, seen ++ e.path ∷ [])

abbrev watching : Watching kernel short_names stop_at_first
watching = record {
  watcher = on_a;
  evbuf = replicate 64 0;
  backup_num_read = 0;
  running = running_state;
  client = [];
}

abbrev two_events : List RawEvent
two_events = new_file ∷ touched ∷ []

two_events-AllEncoded : AllEncoded short_names two_events
two_events-AllEncoded = (
  record { reads = λ rest. refl; header_length = refl; name_length = refl },
  (record { reads = λ rest. refl; header_length = refl; name_length = refl }, tt),
)

watch_round-all_bytes_example :
    watch_round kernel short_names stop_at_first
      (readable (all_bytes short_names two_events) (λ i. true))
      watching
    ≡ settled kernel short_names stop_at_first
        (all_bytes short_names two_events
          ++ drop (length (all_bytes short_names two_events)) watching.evbuf)
        watching
        (dispatch kernel short_names stop_at_first
          (λ i. true)
          0
          two_events
          (drop (length (all_bytes short_names two_events)) watching.evbuf)
          on_a
          [])
unfolding all_bytes
watch_round-all_bytes_example =
    watch_round-all_bytes kernel short_names stop_at_first two_events (λ i. true) watching
      two_events-AllEncoded refl refl

-- The stop keeps the two name bytes before the second event.
round_stopped :
    (watch_round kernel short_names stop_at_first
      (readable (all_bytes short_names two_events) (λ i. true))
      watching).backup_num_read
    ≡ 64 - 16
unfolding watch_round deliver handle_event add add_real insert lookup all_bytes
round_stopped = refl
