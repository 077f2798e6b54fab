-- ===== src/Remote.antt =====
-- src/RemoteUDevice.cpp: the device that the macro daemon emits its events on, a buffer of packets
-- before the socket to the input daemon.
pub mod Sent
mod Examples
use hawck.Prelude.{ℕ, ◌≡◌, Bool, true, false, not, List, [], ◌∷◌, ◌++◌, if◌then◌else◌}
use hawck.Input.{InputEvent, KbdAction, zero_action}
use hawck.Effect.{Result, ok, err, socket_error, Action, ◌>>=◌, ◌>>◌}
use hawck.Udev.{event_of}

-- The socket's sending side. `send` says whether `::send` took all the packets, otherwise
-- `SocketError` is thrown and none of them arrives; `sent` is the sequence of packets that arrive at
-- the other end of the connection; `accept` waits for a new connection.
pub record Link : Type 1 where
  pub Net : Type 0
  pub send : List KbdAction → Net → Bool × Net
  pub accept : Net → Net
  pub sent : Net → List KbdAction
  pub sent-send :
      (ps : List KbdAction) (n : Net)
      → sent (send ps n).1 ≡ (if (send ps n).0 then sent n ++ ps else sent n)

-- The packet of `emit(int type, int code, int val)`, of `emit(const input_event *)`, and of `done`.
abbrev pub val_packet : ℕ → ℕ → ℕ → KbdAction
val_packet type code val = record zero_action { ev = event_of type code val }

abbrev pub event_packet : InputEvent → KbdAction
event_packet ev = record zero_action { ev = ev }

abbrev pub done_packet : KbdAction
done_packet = record zero_action { done = true }

module _ (K : Link) where
  -- `conn` says whether the pointer to the socket is set.
  pub record RemoteUDevice : Type 0 where
    pub conn : Bool
    pub evbuf : List KbdAction
    pub net : K.Net

  abbrev pub emit_val : ℕ → ℕ → ℕ → RemoteUDevice → RemoteUDevice
  emit_val type code val r = record r { evbuf = r.evbuf ++ val_packet type code val ∷ [] }

  abbrev pub emit : InputEvent → RemoteUDevice → RemoteUDevice
  emit ev r = record r { evbuf = r.evbuf ++ event_packet ev ∷ [] }

  -- `conn->send`.
  abbrev pub send_packets : List KbdAction → Action RemoteUDevice Unit
  send_packets ps r =
      let (taken, net) = K.send ps r.net in
      (if taken then ok tt else err socket_error, record r { net = net })

  abbrev pub flush_buffer : List KbdAction → Action RemoteUDevice Unit
  flush_buffer [] r = (ok tt, r)
  flush_buffer (p ∷ ps) r = (send_packets (p ∷ ps) >>= λ _ s. (ok tt, record s { evbuf = [] })) r

  unfoldable pub flush : Action RemoteUDevice Unit
  flush r = if r.conn then flush_buffer r.evbuf r else (ok tt, r)

  unfoldable pub done : Action RemoteUDevice Unit
  unfolding flush
  done r = if r.conn then (flush >> send_packets (done_packet ∷ [])) r else (ok tt, r)

  -- `setConnection` with a socket that has just been accepted; the buffer is kept.
  abbrev pub set_connection : RemoteUDevice → RemoteUDevice
  set_connection r = record r { conn = true; net = K.accept r.net }
