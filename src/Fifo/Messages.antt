-- ===== src/Fifo/Messages.antt =====
-- The messages that `FIFOWatcher::watch` of src/FIFOWatcher.cpp hands on.
use hawck.Prelude.{
  ℕ, zero, suc, ◌<◌, ◌≡◌, refl, sym, ap, ◌∙◌, false, ◌||◌, List, [], ◌∷◌, ◌++◌, Str, leb, ◌==◌,
  length, arith, Bool-cases, Option-cases, inl, inr,
}
use hawck.Effect.{system_error, socket_error, keyboard_error, process_ended, proceed, Result-cases}
use hawck.Fifo.{
  Pipes, max_recv, FifoWatcher, closed, reset, serve, attempt, watch_round, watch_rounds, watch,
}

-- A message has at least one byte, and fewer than `max_recv`.
abbrev pub IsSized : Str → Type 0
IsSized msg = (0 < length msg) × (length msg < max_recv)

abbrev pub AllSized : List Str → Type 0
AllSized [] = Unit
AllSized (msg ∷ msgs) = IsSized msg × AllSized msgs

module _ (P : Pipes) {C : Type 0} (handle : Str → C → Str × C) where
  -- The client after it has handled the messages of a list.
  abbrev pub handled : List Str → C → C
  handled [] c = c
  handled (msg ∷ msgs) c = handled msgs (handle msg c).1

  -- From one client to another by messages that are sized.
  abbrev ByMessages : C → C → Type 0
  ByMessages c d = (msgs : List Str) × AllSized msgs × (d ≡ handled msgs c)

  handled_append :
      (msgs more : List Str) (c : C) → handled (msgs ++ more) c ≡ handled more (handled msgs c)
  handled_append [] more c = refl
  handled_append (msg ∷ msgs) more c = handled_append msgs more (handle msg c).1

  AllSized-append : (msgs more : List Str) → AllSized msgs → AllSized more → AllSized (msgs ++ more)
  AllSized-append [] more h g = g
  AllSized-append (msg ∷ msgs) more (here, h) g = (here, AllSized-append msgs more h g)

  join_messages : (c d e : C) → ByMessages c d → ByMessages d e → ByMessages c e
  join_messages c d e (msgs, sized, at) (more, sized', at') = (
    msgs ++ more,
    AllSized-append msgs more sized sized',
    at' ∙ ap (handled more) at ∙ sym (handled_append msgs more c),
  )

  reset_client : (f : FifoWatcher P handle) → (reset P handle f).1.client ≡ f.client
  unfolding reset
  reset_client f = elim (Option-cases (P.open_in (closed P handle f)).0) [
    | inl failed ↦ rw (failed, reset) refl
    | inr (fd, opened) ↦ rw (opened, reset) refl
  ]

  serve_messages :
      (sz : ℕ) (f : FifoWatcher P handle)
      → (leb max_recv sz || sz == 0) ≡ false
      → ByMessages f.client (serve P handle sz f).1.client
  unfolding serve
  serve_messages sz f fits = elim (Result-cases (P.recv_body f.fd sz f.pipes).0) [
    | inr (e, failed) ↦ ([], tt, rw (failed, serve) refl)
    | inl (buf, got) ↦
        let size = P.length-recv_body f.fd sz f.pipes buf got in
        (
          buf ∷ [],
          ((ground (arith, fits, size), ground (arith, fits, size)), tt),
          rw (got, serve) refl,
        )
  ]

  attempt_messages : (f : FifoWatcher P handle) → ByMessages f.client (attempt P handle f).1.client
  unfolding attempt
  attempt_messages f =
      let f' = record f { pipes = (P.recv_size f.fd f.pipes).1 } in
      elim (Result-cases (P.recv_size f.fd f.pipes).0) [
        | inr (e, failed) ↦ ([], tt, rw (failed, attempt) refl)
        | inl (sz, got) ↦ elim (Bool-cases (leb max_recv sz || sz == 0)) [
          | inl refused ↦ ([], tt, rw (got, refused, attempt) (reset_client f'))
          | inr fits ↦ rw (got, fits, attempt) (serve_messages sz f' fits)
        ]
      ]

  watch_round_messages :
      (f : FifoWatcher P handle) → ByMessages f.client (watch_round P handle f).1.client
  unfolding watch_round
  watch_round_messages f =
      let f' = (attempt P handle f).1 in
      let (msgs, sized, at) = attempt_messages f in
      elim (Result-cases (attempt P handle f).0) [
        | inl (u, fine) ↦ rw (fine, watch_round) (msgs, sized, at)
        | inr (socket_error, failed) ↦ rw (failed, watch_round) (msgs, sized, reset_client f' ∙ at)
        | inr (system_error, failed) ↦ rw (failed, watch_round) (msgs, sized, reset_client f' ∙ at)
        | inr (keyboard_error, failed) ↦ rw (failed, watch_round) (msgs, sized, at)
        | inr (process_ended, failed) ↦ rw (failed, watch_round) (msgs, sized, at)
      ]

  rounds_messages :
      (rounds : ℕ) (f : FifoWatcher P handle)
      → ByMessages f.client (watch_rounds P handle rounds f).1.client
  unfolding watch_rounds
  rounds_messages zero f = ([], tt, refl)
  rounds_messages (suc rounds) f =
      let f' = (watch_round P handle f).1 in
      let first = watch_round_messages f in
      elim (Result-cases (watch_round P handle f).0) [
        | inr (e, failed) ↦ rw (failed, watch_rounds, proceed) first
        | inl (u, fine) ↦
            rw (fine, watch_rounds, proceed)
              (join_messages f.client f'.client (watch_rounds P handle rounds f').1.client first
                (rounds_messages rounds f'))
      ]

  -- However many rounds `watch` runs, and whatever fails in them, the client has handled a list of
  -- messages, each of which has at least one byte and fewer than 16384: a size of 0, or of 16384 and
  -- more, is never taken for that of a message.
  pub watch_messages :
      (rounds : ℕ) (f : FifoWatcher P handle)
      → (msgs : List Str) × AllSized msgs
        × ((watch P handle rounds f).1.client ≡ handled msgs f.client)
  unfolding watch
  watch_messages rounds f =
      let f' = (reset P handle f).1 in
      let (msgs, sized, at) = rounds_messages rounds f' in
      elim (Result-cases (reset P handle f).0) [
        | inr (e, failed) ↦ ([], tt, rw (failed, watch, proceed) (reset_client f))
        | inl (u, fine) ↦
            (msgs, sized, rw (fine, watch, proceed) (at ∙ ap (handled msgs) (reset_client f)))
      ]
