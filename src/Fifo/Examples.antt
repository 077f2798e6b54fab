-- ===== src/Fifo/Examples.antt =====
-- Tests of the configuration pipe.
use hawck.Prelude.{
  ℕ, ◌+◌, ◌≡◌, refl, Bool, true, List, [], ◌∷◌, ◌++◌, none, some, Str, codes, length, replicate,
  length-replicate, if◌then◌else◌,
}
use hawck.Effect.{ok}
use hawck.Fifo.{Pipes, FifoWatcher, send, reply, watch}
use hawck.Fifo.Replies.{reply_sends}
use hawck.Fifo.Messages.{AllSized, handled, watch_messages}

-- The number of descriptors, the time slept, the bytes written, and whether someone reads the answers.
pub record Traffic : Type 0 where
  pub descriptors : ℕ
  pub time : ℕ
  pub bytes : Str
  pub reader : Bool

-- Pipes on which every message has the size 3.
abbrev pipes : Pipes
pipes = record {
  W = Traffic;
  open_out = λ w.
      (w.reader, record w { descriptors = if w.reader then w.descriptors + 1 else w.descriptors });
  write = λ b w. (some (length b), record w { bytes = w.bytes ++ b });
  sleep = λ ms w. record w { time = w.time + ms };
  open_in = λ w. (some 3, w);
  close_in = λ fd w. w;
  recv_size = λ fd w. (ok 3, w);
  recv_body = λ fd n w. (ok (replicate n 65), w);
  opened = λ w. w.descriptors;
  slept = λ w. w.time;
  written = λ w. w.bytes;
  opened-open = λ w. refl;
  opened-write = λ b w. refl;
  opened-sleep = λ ms w. refl;
  slept-open = λ w. refl;
  slept-sleep = λ ms w. refl;
  written-open = λ w. refl;
  written-write = λ b w h. refl;
  written-sleep = λ ms w. refl;
  length-recv_body = λ fd n w b h. cc (length-replicate {A = ℕ} n 65, h);
}

abbrev quiet : Traffic
quiet = record { descriptors = 0; time = 0; bytes = []; reader = true }

reply_sends_example :
    ((reply pipes (codes "x") 256 quiet).1.bytes ≡ 1 ∷ 0 ∷ 0 ∷ 0 ∷ codes "x")
    × ((reply pipes (codes "x") 256 quiet).1.descriptors ≡ 0 + 1)
unfolding reply send
reply_sends_example = reply_sends pipes (λ b w. refl) (codes "x") 256 quiet refl

abbrev keep : Str → List Str → Str × List Str
keep msg seen = (codes "ok", msg ∷ seen)

abbrev waiting : FifoWatcher pipes keep
waiting = record { fd = none; pipes = quiet; client = [] }

watch_messages_example :
    (msgs : List Str) × AllSized msgs
    × ((watch pipes keep 2 waiting).1.client ≡ handled pipes keep msgs [])
watch_messages_example = watch_messages pipes keep 2 waiting
