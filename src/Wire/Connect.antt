-- ===== src/Wire/Connect.antt =====
-- `UNIXSocket::connectTo` and `UNIXServer` of src/UNIXSocket.hpp: how the two ends of a socket meet.
mod Examples
use hawck.Prelude.{
  ℕ, zero, suc, ◌+◌, ◌-◌, ◌≡◌, ◌<◌, ◌≤◌, refl, sym, ap, ◌∙◌, inl, inr, Bool, true, false, not, ◌&&◌,
  ◌||◌, List, [], ◌∷◌, Option, none, some, Str, str_eq, str_eq_iff, take, length, arith,
  if◌then◌else◌, Bool-cases,
}
use hawck.Effect.{Result, ok, err, socket_error, Action}

-- The calls on sockets. `bound` says whether there is a file at a path, and `listening` whether a
-- connection to a path is accepted; `path_size` is the size of `sun_path`. `unlink` can
-- fail, of a directory for one; `bind` succeeds where there is no file and `may_bind` says that nothing
-- else, as the permissions of the directory, is in the way.
pub record Sockets : Type 1 where
  pub W : Type 0
  pub path_size : ℕ
  pub socket : W → Option ℕ × W
  pub connect : ℕ → Str → W → Bool × W
  pub bind : ℕ → Str → W → Bool × W
  pub listen : ℕ → W → Bool × W
  pub accept : ℕ → W → Option ℕ × W
  pub unlink : Str → W → Bool × W
  pub close : ℕ → W → W
  pub usleep : ℕ → W → W
  pub bound : W → Str → Bool
  pub listening : W → Str → Bool
  pub connect_lem : (fd : ℕ) (path : Str) (w : W) → (connect fd path w).0 ≡ listening w path
  pub may_bind : W → Str → Bool
  pub bind_lem :
      (fd : ℕ) (path : Str) (w : W) → (bind fd path w).0 ≡ (not (bound w path) && may_bind w path)
  pub bound-socket : (path : Str) (w : W) → bound (socket w).1 path ≡ bound w path
  pub bound-unlink :
      (file path : Str) (w : W)
      → bound (unlink file w).1 path
        ≡ (if (unlink file w).0 && str_eq file path then false else bound w path)
  pub may_bind-unlink :
      (file path : Str) (w : W) → may_bind (unlink file w).1 path ≡ may_bind w path
  pub listening-listen :
      (fd : ℕ) (path : Str) (w : W)
      → (bind fd path w).0 ≡ true
      → (listen fd (bind fd path w).1).0 ≡ true
      → listening (listen fd (bind fd path w).1).1 path ≡ true
  pub listening-socket : (path : Str) (w : W) → listening (socket w).1 path ≡ listening w path

take_all : (n : ℕ) (xs : Str) → length xs ≤ n → take n xs ≡ xs
take_all zero [] h = refl
take_all zero (x ∷ xs) h = absurd (omega arith)
take_all (suc n) [] h = refl
take_all (suc n) (x ∷ xs) h = ap (λ l. x ∷ l) (take_all n xs (omega arith))

length-take_le : (n : ℕ) (xs : Str) → n ≤ length xs → length (take n xs) ≡ n
length-take_le zero xs h = refl
length-take_le (suc n) [] h = absurd (omega arith)
length-take_le (suc n) (x ∷ xs) h = ap suc (length-take_le n xs (omega arith))

module _ (C : Sockets) where
  open C use {W}

  -- `strncpy` into `sun_path`, the last byte of which stays 0.
  unfoldable pub sun_path : Str → Str
  sun_path addr = take (C.path_size - 1) addr

  -- The loop of `connectTo`, on fuel.
  unfoldable pub connect_from : ℕ → ℕ → Str → W → Option (Result ℕ × W)
  connect_from zero fd path w = none
  connect_from (suc fuel) fd path w =
      let (connected, w') = C.connect fd path w in
      let again = connect_from fuel fd path (C.usleep 250000 w') in
      if connected then some (ok fd, w') else again

  unfoldable pub connect_to : ℕ → Str → W → Option (Result ℕ × W)
  connect_to fuel addr w =
      let (made, w') = C.socket w in
      elim made [
        | none ↦ some (err socket_error, w')
        | some fd ↦ connect_from fuel fd (sun_path addr) w'
      ]

  unfoldable pub recon : ℕ → ℕ → Str → W → Option (Result ℕ × W)
  recon fuel fd addr w = connect_to fuel addr (C.close fd w)

  -- The constructor of `UNIXServer`.
  unfoldable pub serve : Str → Action W ℕ
  serve addr w =
      let (made, w1) = C.socket w in
      elim made [
        | none ↦ (err socket_error, w1)
        | some fd ↦
            let (bound, w2) = C.bind fd (sun_path addr) (C.unlink addr w1).1 in
            let (listens, w3) = C.listen fd w2 in
            if bound
            then (if listens then (ok fd, w3) else (err socket_error, w3))
            else (err socket_error, w2)
      ]

  unfoldable pub accept : ℕ → Action W ℕ
  accept fd w =
      let (taken, w') = C.accept fd w in
      elim taken [ none ↦ (err socket_error, w') | some ns ↦ (ok ns, w') ]

  -- The state in which `connectTo` tries for the n-th time, from 0 on.
  abbrev pub attempt : ℕ → ℕ → Str → W → W
  attempt zero fd path w = w
  attempt (suc n) fd path w = attempt n fd path (C.usleep 250000 (C.connect fd path w).1)

  -- If a connection is accepted at last, the loop of `connectTo` returns with it, however often it was
  -- refused before; as many rounds as attempts are enough.
  pub connect_from_ends :
      (n fuel fd : ℕ) (path : Str) (w : W)
      → n < fuel
      → C.listening (attempt n fd path w) path ≡ true
      → (w' : W) × (connect_from fuel fd path w ≡ some (ok fd, w'))
  unfolding connect_from
  connect_from_ends n zero fd path w h at = absurd (omega arith)
  connect_from_ends n (suc fuel) fd path w h at =
      let w' = (C.connect fd path w).1 in
      elim (Bool-cases (C.connect fd path w).0) [
        | inl now ↦ (w', rw (now, connect_from) refl)
        | inr refused ↦
            later n fuel fd path w h at refused
              (λ m less ready. connect_from_ends m fuel fd path (C.usleep 250000 w') less ready)
      ]
    where
      later :
          (n fuel fd : ℕ) (path : Str) (w : W)
          → n < suc fuel
          → C.listening (attempt n fd path w) path ≡ true
          → (C.connect fd path w).0 ≡ false
          → ((m : ℕ)
              → m < fuel
              → C.listening (attempt m fd path (C.usleep 250000 (C.connect fd path w).1)) path
                ≡ true
              → (w' : W) × (connect_from fuel fd path (C.usleep 250000 (C.connect fd path w).1)
                  ≡ some (ok fd, w')))
          → (w' : W) × (connect_from (suc fuel) fd path w ≡ some (ok fd, w'))
      later zero fuel fd path w h at refused ih = absurd (cc (at, refused, C.connect_lem fd path w))
      later (suc n) fuel fd path w h at refused ih =
          let (w', got) = ih n (omega arith) at in (w', rw (refused, connect_from) got)

  short : (addr : Str) → length addr < C.path_size → sun_path addr ≡ addr
  unfolding sun_path
  short addr h = take_all (C.path_size - 1) addr (omega arith)

  serve-made :
      (addr : Str) (w : W) (fd : ℕ)
      → (C.socket w).0 ≡ some fd
      → serve addr w ≡ (
          let bind = C.bind fd (sun_path addr) (C.unlink addr (C.socket w).1).1 in
          let listen = C.listen fd bind.1 in
          if bind.0
          then (if listen.0 then (ok fd, listen.1) else (err socket_error, listen.1))
          else (err socket_error, bind.1))
  unfolding serve
  serve-made addr w fd made = rw (made, serve) refl

  -- Nothing is in the way of the server: no file, or one that can be removed.
  abbrev pub is_free : Str → W → Bool
  is_free path w = (not (C.bound w path) || (C.unlink path w).0) && C.may_bind w path

  unlinked :
      (path : Str) (fd : ℕ) (w : W)
      → is_free path w ≡ true
      → (C.bind fd path (C.unlink path w).1).0 ≡ true
  unlinked path fd w free =
      let same : str_eq path path ≡ true = (str_eq_iff path path).1 refl in
      ground (
        arith,
        free,
        same,
        C.bind_lem fd path (C.unlink path w).1,
        C.bound-unlink path path w,
        C.may_bind-unlink path path w,
      )

  -- Of an address that fits, where there is no file or one that `unlink` removes, and the server may
  -- bind and listen: the server is made, and a client that then makes a socket and connects to the same
  -- address gets its connection at the first attempt.
  pub serve-connect_to :
      (addr : Str) (w : W) (fd fd' : ℕ)
      → length addr < C.path_size
      → (C.socket w).0 ≡ some fd
      → is_free addr (C.socket w).1 ≡ true
      → (C.listen fd (C.bind fd addr (C.unlink addr (C.socket w).1).1).1).0 ≡ true
      → (C.socket (serve addr w).1).0 ≡ some fd'
      → ((serve addr w).0 ≡ ok fd)
        × ((w' : W) × (connect_to 1 addr (serve addr w).1 ≡ some (ok fd', w')))
  unfolding connect_to
  serve-connect_to addr w fd fd' fits made free listens made' =
      let u = (C.unlink addr (C.socket w).1).1 in
      let v = (C.listen fd (C.bind fd addr u).1).1 in
      let binds = unlinked addr fd (C.socket w).1 free in
      let served : serve addr w ≡ (ok fd, v) =
        serve-made addr w fd made ∙ rw (short addr fits, binds, listens) refl in
      let ready = C.listening-listen fd addr u binds listens in
      let after = (C.socket (serve addr w).1).1 in
      let open_ : C.listening after (sun_path addr) ≡ true =
        ap (C.listening after) (short addr fits)
        ∙ C.listening-socket addr (serve addr w).1
        ∙ ap (λ r. C.listening r.1 addr) served
        ∙ ready in
      let (w', got) = connect_from_ends 0 1 fd' (sun_path addr) after (omega arith) open_ in
      (ap (λ r. r.0) served, (w', rw (made', connect_to) got))

  -- Of an address that does not fit, the path that is bound is not the one that is unlinked: where there
  -- is a file at the path, as after an earlier run, the server throws.
  pub serve_long :
      (addr : Str) (w : W) (fd : ℕ)
      → 0 < C.path_size
      → C.path_size ≤ length addr
      → (C.socket w).0 ≡ some fd
      → C.bound w (sun_path addr) ≡ true
      → (serve addr w).0 ≡ err socket_error
  unfolding sun_path
  serve_long addr w fd some_size long made stale =
      let path = take (C.path_size - 1) addr in
      let u = (C.unlink addr (C.socket w).1).1 in
      let apart : str_eq addr path ≡ false = elim (Bool-cases (str_eq addr path)) [
        | inr e ↦ e
        | inl e ↦ absurd (
            omega (
              arith,
              ap length ((str_eq_iff addr path).0 e),
              length-take_le (C.path_size - 1) addr (omega arith),
            ))
      ] in
      let still : C.bound u path ≡ true =
        ground
          (arith, C.bound-unlink addr path (C.socket w).1, apart, C.bound-socket path w, stale) in
      let refused : (C.bind fd path u).0 ≡ false = ground (arith, C.bind_lem fd path u, still) in
      ap (λ r. r.0) (serve-made addr w fd made) ∙ rw refused refl
