-- ===== src/Remote/Sent.antt =====
-- What arrives at the input daemon from the device of src/RemoteUDevice.cpp.
use mathlib.Core.List.{append-nil}
use hawck.Prelude.{◌≡◌, refl, true, false, List, [], ◌∷◌, ◌++◌, arith}
use hawck.Input.{KbdAction}
use hawck.Effect.{ok, err, socket_error}
use hawck.Remote.{Link, RemoteUDevice, flush, flush_buffer, done, done_packet}

module _ (K : Link) where
  -- What has arrived, and what is buffered behind it.
  abbrev pub outgoing : RemoteUDevice K → List KbdAction
  outgoing r = K.sent r.net ++ r.evbuf

  -- The socket takes every packet.
  abbrev pub Sends : Type 0
  Sends = (ps : List KbdAction) (n : K.Net) → (K.send ps n).0 ≡ true

  flush_buffer_lem :
      (ps : List KbdAction) (r : RemoteUDevice K)
      → r.evbuf ≡ ps
      → Sends
      → ((flush_buffer K ps r).0 ≡ ok tt)
        × ((flush_buffer K ps r).1.evbuf ≡ [])
        × ((flush_buffer K ps r).1.conn ≡ r.conn)
        × (K.sent (flush_buffer K ps r).1.net ≡ K.sent r.net ++ r.evbuf)
  flush_buffer_lem [] r e a = ground (arith, append-nil (K.sent r.net))
  flush_buffer_lem (p ∷ ps) r e a = ground (arith, K.sent-send (p ∷ ps) r.net, a (p ∷ ps) r.net)

  -- On a socket that takes every packet, `flush` succeeds, empties the buffer, and all that was
  -- buffered has arrived in its order behind what arrived before.
  pub flush_sends :
      (r : RemoteUDevice K)
      → Sends
      → r.conn ≡ true
      → ((flush K r).0 ≡ ok tt)
        × ((flush K r).1.evbuf ≡ [])
        × ((flush K r).1.conn ≡ true)
        × (K.sent (flush K r).1.net ≡ outgoing r)
  unfolding flush
  flush_sends r a c = ground (arith, flush_buffer_lem r.evbuf r refl a)

  pub done_sends :
      (r : RemoteUDevice K)
      → Sends
      → r.conn ≡ true
      → ((done K r).0 ≡ ok tt)
        × ((done K r).1.evbuf ≡ [])
        × (K.sent (done K r).1.net ≡ outgoing r ++ done_packet ∷ [])
  unfolding done
  done_sends r a c = ground (
    arith,
    flush_sends r a c,
    K.sent-send (done_packet ∷ []) (flush K r).1.net,
    a (done_packet ∷ []) (flush K r).1.net,
  )

  -- When the socket does not take the buffered packets, `flush` throws `SocketError`, nothing more has
  -- arrived, and the packets stay in the buffer, also across a new connection.
  pub flush_refused :
      (p : KbdAction) (ps : List KbdAction) (r : RemoteUDevice K)
      → r.conn ≡ true
      → r.evbuf ≡ p ∷ ps
      → (K.send (p ∷ ps) r.net).0 ≡ false
      → ((flush K r).0 ≡ err socket_error)
        × ((flush K r).1.evbuf ≡ p ∷ ps)
        × (K.sent (flush K r).1.net ≡ K.sent r.net)
  unfolding flush
  flush_refused p ps r c e h =
      rw (c, flush) (rw (e, flush_buffer) (ground (arith, K.sent-send (p ∷ ps) r.net)))
