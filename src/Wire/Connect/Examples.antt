-- ===== src/Wire/Connect/Examples.antt =====
-- Tests of the connection of a client with a server.
use hawck.Prelude.{
  ◌≡◌, refl, Bool, true, false, not, [], some, Str, codes, str_eq, str_eq_iff, arith, if◌then◌else◌,
}
use hawck.Effect.{ok}
use hawck.Wire.Connect.{
  Sockets, connect_from, connect_to, serve, connect_from_ends, serve-connect_to,
}

-- The paths of files, the paths that accept connections, and the path that was bound last.
record Net : Type 0 where
  files : Str → Bool
  accepting : Str → Bool
  last : Str

abbrev with_path : Str → (Str → Bool) → Str → Bool
with_path p f q = if str_eq p q then true else f q

with_path_here : (p : Str) (f : Str → Bool) → with_path p f p ≡ true
with_path_here p f = rw ((str_eq_iff p p).1 refl) refl

abbrev net : Sockets
net = record {
  W = Net;
  path_size = 4;
  socket = λ w. (some 3, w);
  connect = λ fd path w. (w.accepting path, w);
  bind =
      λ fd path w. (not (w.files path), record w { files = with_path path w.files; last = path });
  listen = λ fd w. (true, record w { accepting = with_path w.last w.accepting });
  accept = λ fd w. (some 4, w);
  unlink = λ path w. (true, record w { files = λ q. if str_eq path q then false else w.files q });
  close = λ fd w. w;
  usleep = λ us w. record w { accepting = with_path (codes "/s") w.accepting };
  bound = λ w. w.files;
  listening = λ w. w.accepting;
  connect_lem = λ fd path w. refl;
  may_bind = λ w path. true;
  may_bind-unlink = λ file path w. refl;
  bind_lem = λ fd path w. ground arith;
  bound-socket = λ path w. refl;
  bound-unlink = λ file path w. refl;
  listening-listen = λ fd path w h g. with_path_here path w.accepting;
  listening-socket = λ path w. refl;
}

abbrev empty : Net
empty = record { files = λ p. false; accepting = λ p. false; last = [] }

serve-connect_to_example :
    ((serve net (codes "/s") empty).0 ≡ ok 3)
    × ((w' : Net) × (connect_to net 1 (codes "/s") (serve net (codes "/s") empty).1
          ≡ some (ok 3, w')))
unfolding serve
serve-connect_to_example =
    serve-connect_to net (codes "/s") empty 3 3 (omega arith) refl refl refl refl

-- The server listens after the first refusal.
connect_from_ends_example : (w' : Net) × (connect_from net 5 3 (codes "/s") empty ≡ some (ok 3, w'))
connect_from_ends_example = connect_from_ends net 1 5 3 (codes "/s") empty (omega arith) refl
