-- ===== src/Fifo/Replies.antt =====
-- `FIFOWatcher::reply` of src/FIFOWatcher.cpp.
use mathlib.Core.List.{append_assoc}
use hawck.Prelude.{
  ℕ, zero, suc, ◌+◌, ◌*◌, ◌%◌, ◌^◌, ◌≡◌, refl, sym, ap, ◌∙◌, false, ◌++◌, some, Str, length, take,
  arith, if◌then◌else◌, Bool-cases, inl, inr,
}
use hawck.Effect.{Result, ok, err, system_error}
use hawck.Fifo.{Pipes, time_inc, size_bytes, send, reply}

module _ (P : Pipes) where
  open P use {W}

  -- If no one opens the pipe, an answer is given up, after as many waits of 10 ms as the timeout has
  -- milliseconds.
  pub reply_waits :
      (buf : Str) (timeout : ℕ) (w : W)
      → ((u : W) → (P.open_out u).0 ≡ false)
      → ((reply P buf timeout w).0 ≡ err system_error)
        × (P.slept (reply P buf timeout w).1 ≡ P.slept w + timeout * 10)
  unfolding reply
  reply_waits buf zero w closed = (refl, omega arith)
  reply_waits buf (suc rounds) w closed =
      let w' = P.sleep time_inc (P.open_out w).1 in
      let (fails, time) = reply_waits buf rounds w' closed in
      let once = P.slept-sleep time_inc (P.open_out w).1 in
      let same = P.slept-open w in rw (closed w, reply) (fails, omega arith)

  module _ (whole : (b : Str) (w : W) → (P.write b w).0 ≡ some (length b)) where
    -- The size of an answer, which is a `uint32_t`, and as many of its bytes.
    abbrev pub framed : Str → Str
    framed buf = size_bytes (length buf % 2 ^ 32) ++ take (length buf % 2 ^ 32) buf

    -- What `send` leaves.
    abbrev Sent : Str → W → Result (Unit {0}) × W → Type 0
    Sent buf w r =
        (r.0 ≡ ok tt) × (P.written r.1 ≡ P.written w ++ framed buf) × (P.opened r.1 ≡ P.opened w)

    send_writes : (buf : Str) (w : W) → Sent buf w (send P buf w)
    unfolding send
    send_writes buf w =
        let size = size_bytes (length buf % 2 ^ 32) in
        let w' = (P.write size w).1 in
        let first = whole size w in
        let body = take (length buf % 2 ^ 32) buf in
        let second = whole body w' in
        rw (first, second, send)
          (
            refl,
            P.written-write body w' second
                ∙ ap (λ l. l ++ body) (P.written-write size w first)
                ∙ append_assoc (P.written w) size body,
            P.opened-write body w' ∙ P.opened-write size w,
          )

    -- If writes are whole, an answer that is not given up puts its size modulo 2 ^ 32 in four bytes, and
    -- as many of its bytes, on the pipe, and leaves one more descriptor open than before.
    pub reply_sends :
        (buf : Str) (timeout : ℕ) (w : W)
        → (reply P buf timeout w).0 ≡ ok tt
        → (P.written (reply P buf timeout w).1 ≡ P.written w ++ framed buf)
          × (P.opened (reply P buf timeout w).1 ≡ P.opened w + 1)
    unfolding reply
    reply_sends buf zero w sent = absurd (cc sent)
    reply_sends buf (suc rounds) w sent = elim (Bool-cases (P.open_out w).0) [
      | inl found ↦
          let w' = (P.open_out w).1 in
          let (done, bytes, left) = send_writes buf w' in
          rw (found, reply)
            (
              bytes ∙ ap (λ l. l ++ framed buf) (P.written-open w),
              left ∙ P.opened-open w ∙ ap (λ b. if b then P.opened w + 1 else P.opened w) found,
            )
      | inr closed ↦
          let w' = (P.open_out w).1 in
          let later = P.sleep time_inc w' in
          let went_on : reply P buf (suc rounds) w ≡ reply P buf rounds later =
            rw (closed, reply) refl in
          let (bytes, opened) = reply_sends buf rounds later (sym (ap (λ r. r.0) went_on) ∙ sent) in
          let same = P.opened-open w ∙ ap (λ b. if b then P.opened w + 1 else P.opened w) closed in
          let start = P.written-sleep time_inc w' ∙ P.written-open w in
          rw (went_on) (
            bytes ∙ ap (λ l. l ++ framed buf) start,
            opened ∙ ap (λ n. n + 1) (P.opened-sleep time_inc w' ∙ same),
          )
    ]
