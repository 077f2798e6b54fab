-- ===== src/Watcher/Deliver.antt =====
-- The loop of `FSWatcher::watch` over a buffer of events, src/FSWatcher.cpp.
use mathlib.Core.Path.{subst}
use mathlib.Core.List.{append_assoc}
use hawck.Prelude.{
  ℕ, zero, suc, ◌+◌, ◌-◌, ◌<◌, ◌≡◌, ◌≢◌, ◌&&◌, refl, sym, ap, ap₂, ◌∙◌, Bool, false, List, [], ◌∷◌,
  ◌++◌, none, some, Str, ◌==◌, drop, length, length-append, arith, if◌then◌else◌, Bool-cases, inl,
  inr,
}
use hawck.Effect.{ok, err, Result-cases}
use hawck.Watcher.{
  Inotify, FsWatcher, RawEvent, FsEvent, Format, header_size, Ending, finished, stopped, thrown,
  no_fuel, handle_event, deliver,
}

-- Every event of a list has its bytes: `header` reads it, whatever follows, and it takes as many bytes
-- as the loop steps over.
pub record IsEncoded (F : Format) (ev : RawEvent) : Type 0 where
  pub reads : (rest : Str) → F.header (F.header_bytes ev ++ (F.name_bytes ev ++ rest)) ≡ ev
  pub header_length : length (F.header_bytes ev) ≡ header_size
  pub name_length : length (F.name_bytes ev) ≡ ev.len

abbrev pub AllEncoded : Format → List RawEvent → Type 0
AllEncoded F [] = Unit
AllEncoded F (ev ∷ evs) = IsEncoded F ev × AllEncoded F evs

-- The bytes of the events of a list.
unfoldable pub all_bytes : Format → List RawEvent → Str
all_bytes F [] = []
all_bytes F (ev ∷ evs) = F.header_bytes ev ++ (F.name_bytes ev ++ all_bytes F evs)

drop-length : (xs ys : Str) → drop (length xs) (xs ++ ys) ≡ ys
drop-length [] ys = refl
drop-length (x ∷ xs) ys = drop-length xs ys

module _ (I : Inotify) (F : Format) {S : Type 0} (callback : FsEvent → S → Bool × S)
    (runs : ℕ → Bool) where
  -- What the loop does, on events in place of their bytes; `rest` is what stands after them.
  unfoldable pub dispatch : ℕ → List RawEvent → Str → FsWatcher I → S → Ending × FsWatcher I × S
  dispatch i [] rest w s = (finished, w, s)
  dispatch i (ev ∷ evs) rest w s =
      let (r, w') = handle_event I ev w in
      let silent = dispatch (suc i) evs rest w' s in
      elim r [
        | err e ↦ (thrown, w', s)
        | ok none ↦
            if runs i
            then silent
            else (stopped (F.name_bytes ev ++ (all_bytes F evs ++ rest)), w', s)
        | ok (some e) ↦
            let (more, s') = callback e s in
            let went_on = dispatch (suc i) evs rest w' s' in
            if more && runs i
            then went_on
            else (stopped (F.name_bytes ev ++ (all_bytes F evs ++ rest)), w', s')
      ]

  -- The loop of `watch` over a buffer always ends: as much fuel as the buffer has bytes, and one more,
  -- is enough, whatever bytes it has.
  pub deliver_ends :
      (fuel i : ℕ) (evbuf : Str) (left : ℕ) (w : FsWatcher I) (s : S)
      → left < fuel
      → (deliver I F callback runs fuel i evbuf left w s).0 ≢ no_fuel
  unfolding deliver
  deliver_ends zero i evbuf left w s h = absurd (omega arith)
  deliver_ends (suc fuel) i evbuf left w s h = elim (Bool-cases (left == 0)) [
    | inl done ↦ rw (done, deliver) (λ e. cc e)
    | inr more ↦
        let ev = F.header evbuf in
        let w' = (handle_event I ev w).1 in
        let size = header_size + ev.len in
        let smaller : left - size < fuel = ground (arith, more, h) in
        elim (Result-cases (handle_event I ev w).0) [
          | inr (e, failed) ↦ rw (more, failed, deliver) (λ e. cc e)
          | inl (none, quiet) ↦ elim (Bool-cases (runs i)) [
            | inl on ↦
                rw (more, quiet, on, deliver)
                  (deliver_ends fuel (suc i) (drop size evbuf) (left - size) w' s smaller)
            | inr off ↦ rw (more, quiet, off, deliver) (λ e. cc e)
          ]
          | inl (some e, event) ↦ elim (Bool-cases ((callback e s).0 && runs i)) [
            | inl on ↦
                rw (more, event, on, deliver)
                  (deliver_ends fuel (suc i) (drop size evbuf) (left - size) w' (callback e s).1
                    smaller)
            | inr off ↦ rw (more, event, off, deliver) (λ e. cc e)
          ]
        ]
  ]

  module _ (ev : RawEvent) (evs : List RawEvent) (rest : Str) (here : IsEncoded F ev) where
    first_bytes :
        all_bytes F (ev ∷ evs) ++ rest
        ≡ F.header_bytes ev ++ (F.name_bytes ev ++ (all_bytes F evs ++ rest))
    unfolding all_bytes
    first_bytes =
        append_assoc (F.header_bytes ev) (F.name_bytes ev ++ all_bytes F evs) rest
        ∙ ap (λ l. F.header_bytes ev ++ l) (append_assoc (F.name_bytes ev) (all_bytes F evs) rest)

    header_first : F.header (all_bytes F (ev ∷ evs) ++ rest) ≡ ev
    header_first = ap F.header first_bytes ∙ here.reads (all_bytes F evs ++ rest)

    drop_header :
        drop header_size (all_bytes F (ev ∷ evs) ++ rest)
        ≡ F.name_bytes ev ++ (all_bytes F evs ++ rest)
    drop_header =
        ap (drop header_size) first_bytes
        ∙ ap (λ n. drop n (F.header_bytes ev ++ (F.name_bytes ev ++ (all_bytes F evs ++ rest))))
            (sym here.header_length)
        ∙ drop-length (F.header_bytes ev) (F.name_bytes ev ++ (all_bytes F evs ++ rest))

    length_first : length (all_bytes F (ev ∷ evs)) ≡ header_size + ev.len + length (all_bytes F evs)
    unfolding all_bytes
    length_first =
        let a = length-append (F.header_bytes ev) (F.name_bytes ev ++ all_bytes F evs) in
        let b = length-append (F.name_bytes ev) (all_bytes F evs) in
        let c = here.header_length in let d = here.name_length in omega arith

    drop_first :
        drop (header_size + ev.len) (all_bytes F (ev ∷ evs) ++ rest) ≡ all_bytes F evs ++ rest
    drop_first =
        let both = F.header_bytes ev ++ F.name_bytes ev in
        let size : header_size + ev.len ≡ length both =
          let a = length-append (F.header_bytes ev) (F.name_bytes ev) in
          let c = here.header_length in let d = here.name_length in omega arith in
        ap₂ drop size (
          first_bytes
          ∙ sym (append_assoc (F.header_bytes ev) (F.name_bytes ev) (all_bytes F evs ++ rest)))
        ∙ drop-length both (all_bytes F evs ++ rest)

  -- A round of the loop, for an event that has been read.
  abbrev round : ℕ → ℕ → RawEvent → Str → ℕ → FsWatcher I → S → Ending × FsWatcher I × S
  round fuel i ev evbuf left w s =
      let (r, w') = handle_event I ev w in
      let size = header_size + ev.len in
      let silent = deliver I F callback runs fuel (suc i) (drop size evbuf) (left - size) w' s in
      elim r [
        | err e ↦ (thrown, w', s)
        | ok none ↦ if runs i then silent else (stopped (drop header_size evbuf), w', s)
        | ok (some e) ↦
            let (more, s') = callback e s in
            let went_on =
              deliver I F callback runs fuel (suc i) (drop size evbuf) (left - size) w' s' in
            if more && runs i then went_on else (stopped (drop header_size evbuf), w', s')
      ]

  deliver-suc :
      (fuel i : ℕ) (ev : RawEvent) (evbuf : Str) (left : ℕ) (w : FsWatcher I) (s : S)
      → F.header evbuf ≡ ev
      → (left == 0) ≡ false
      → deliver I F callback runs (suc fuel) i evbuf left w s ≡ round fuel i ev evbuf left w s
  unfolding deliver
  deliver-suc fuel i ev evbuf left w s head more =
      subst
        (λ x. deliver I F callback runs (suc fuel) i evbuf left w s ≡ round fuel i x evbuf left w s)
        head
        (ap (λ b. if b then (finished, w, s) else round fuel i (F.header evbuf) evbuf left w s)
          more)

  deliver-dispatch :
      (fuel i : ℕ) (evs : List RawEvent) (rest evbuf : Str) (left : ℕ) (w : FsWatcher I) (s : S)
      → AllEncoded F evs
      → evbuf ≡ all_bytes F evs ++ rest
      → left ≡ length (all_bytes F evs)
      → left < fuel
      → deliver I F callback runs fuel i evbuf left w s ≡ dispatch i evs rest w s
  unfolding deliver dispatch all_bytes
  deliver-dispatch zero i evs rest evbuf left w s all buf len h = absurd (omega arith)
  deliver-dispatch (suc fuel) i [] rest evbuf left w s all buf len h = rw (len, deliver) refl
  deliver-dispatch (suc fuel) i (ev ∷ evs) rest evbuf left w s (here, all) buf len h =
      let size = length_first ev evs rest here in
      let head = ap F.header buf ∙ header_first ev evs rest here in
      let kept = ap (drop header_size) buf ∙ drop_header ev evs rest here in
      let after = ap (drop (header_size + ev.len)) buf ∙ drop_first ev evs rest here in
      let more : (left == 0) ≡ false = ground (arith, size, len) in
      let fewer : left - (header_size + ev.len) ≡ length (all_bytes F evs) = omega arith in
      let smaller : left - (header_size + ev.len) < fuel = omega arith in
      let w' = (handle_event I ev w).1 in
      deliver-suc fuel i ev evbuf left w s head more ∙ elim (Result-cases (handle_event I ev w).0) [
        | inr (e, failed) ↦ rw (failed, round, dispatch) refl
        | inl (none, quiet) ↦ elim (Bool-cases (runs i)) [
          | inl on ↦
              rw (quiet, on, round, dispatch)
                (deliver-dispatch fuel (suc i) evs rest (drop (header_size + ev.len) evbuf)
                  (left - (header_size + ev.len)) w' s all after fewer smaller)
          | inr off ↦ rw (quiet, off, kept, round, dispatch) refl
        ]
        | inl (some e, event) ↦ elim (Bool-cases ((callback e s).0 && runs i)) [
          | inl on ↦
              rw (event, on, round, dispatch)
                (deliver-dispatch fuel (suc i) evs rest (drop (header_size + ev.len) evbuf)
                  (left - (header_size + ev.len)) w' (callback e s).1 all after fewer smaller)
          | inr off ↦ rw (event, off, kept, round, dispatch) refl
        ]
      ]

  -- Over a buffer that begins with the bytes of some events, whatever follows them, the loop hands on
  -- to the callback what `handleEvent` makes of each event, in order, up to the end, an exception or a
  -- stop, by the callback or by another thread. On a stop what is kept for the next call of `watch` is what stands after the
  -- header of the last event: the bytes of its name, and the events that follow.
  pub deliver-all_bytes :
      (fuel : ℕ) (evs : List RawEvent) (rest : Str) (w : FsWatcher I) (s : S)
      → AllEncoded F evs
      → length (all_bytes F evs) < fuel
      → deliver I F callback runs fuel 0 (all_bytes F evs ++ rest) (length (all_bytes F evs)) w s
        ≡ dispatch 0 evs rest w s
  deliver-all_bytes fuel evs rest w s all h =
      deliver-dispatch fuel 0 evs rest (all_bytes F evs ++ rest) (length (all_bytes F evs)) w s all
        refl refl h
