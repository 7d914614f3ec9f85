-- ===== src/Stream/Secure.antt =====
-- The stream's loops run only over an encrypted connection, and its data leaves encrypted.
use file_hop_z.Base.{
  ℕ, ◌≡◌, refl, ◌∙◌, Bool, ◌||◌, true, false, inl, inr, Option, arith, Bool-cases,
}
use file_hop_z.Base.Bytes.{Bytes}
use file_hop_z.Errors.{BoostError, failed, Expected, ok, unexpected}
use file_hop_z.Packet.{Packet}
use file_hop_z.Host.{Host}
use file_hop_z.Transport.{Transport}
use file_hop_z.Transport.Keeps.{send_packet-Keeps}
use file_hop_z.Transport.Handshake.{
  HandshakeStep, finished, sends, awaits, handshake_start, take_peer_key, initiator_start,
  initiator_sent, initiator_received, responder_start, responder_received, responder_sent,
}
use file_hop_z.Stream.{HandshakeMode, initiator, responder, stream_packet, end_start_loops}
use file_hop_z.Stream.Calls
use file_hop_z.Stream.Calls.{
  StreamCall, send_call, receive_call, Connection, new_connection, with_transport, shake_start,
  forward, run_call, spawn_loop, handshake_ended, shaken, start_call, handshake_sent,
  handshake_received, send, receive, close_drained, close_waited, close, close_stopped,
  chunks_received, chunks_turn,
}

module _ (H : Host) where
  abbrev pub IsEncrypted : Transport H → Type 0
  IsEncrypted t = t.connection_encrypted ≡ true

  -- A stretch of the handshake turns no encryption off, and ends without an error only with it on.
  pub record Shakes (t : Transport H) (r : Transport H × HandshakeStep) : Type 0 where
    pub kept : IsEncrypted t → IsEncrypted r.0
    pub ended : (ec : BoostError) → r.1 ≡ finished ec → failed ec ≡ false → IsEncrypted r.0

  handshake_start_encrypted :
      (draw : ℕ) (t : Transport H)
      → (handshake_start H draw t).0.connection_encrypted ≡ t.connection_encrypted
  unfolding handshake_start
  handshake_start_encrypted draw t = ground arith

  take_peer_key_encrypted :
      (p : Packet) (t : Transport H)
      → (take_peer_key H p t).0.connection_encrypted ≡ t.connection_encrypted
  unfolding take_peer_key
  take_peer_key_encrypted p t = ground arith

  pub shake_start-Shakes :
      (mode : HandshakeMode) (draw : ℕ) (t : Transport H) → Shakes t (shake_start H mode draw t)
  unfolding shake_start initiator_start responder_start
  shake_start-Shakes initiator draw t = record {
    kept = λ e. handshake_start_encrypted draw t ∙ e;
    ended = λ ec h ok_here. ground (arith, h, ok_here);
  }
  shake_start-Shakes responder draw t = record {
    kept = λ e. handshake_start_encrypted draw t ∙ e;
    ended = λ ec h ok_here. ground (arith, h, ok_here);
  }

  pub shake_sent-Shakes :
      (mode : HandshakeMode) (ec : BoostError) (t : Transport H)
      → Shakes t (Calls.shake_sent H mode ec t)
  unfolding Calls.shake_sent initiator_sent responder_sent
  shake_sent-Shakes initiator ec t = record {
    kept = λ e. e;
    ended = λ ec' h ok_here. ground (arith, h, ok_here);
  }
  shake_sent-Shakes responder ec t = record {
    kept = λ e. ground (arith, e);
    ended = λ ec' h ok_here. ground (arith, h, ok_here);
  }

  pub shake_received-Shakes :
      (mode : HandshakeMode) (ec : BoostError) (p : Packet) (t : Transport H)
      → Shakes t (Calls.shake_received H mode ec p t)
  unfolding Calls.shake_received initiator_received responder_received
  shake_received-Shakes initiator ec p t = record {
    kept = λ e. ground (arith, e, take_peer_key_encrypted p t);
    ended = λ ec' h ok_here. ground (arith, h, ok_here);
  }
  shake_received-Shakes responder ec p t = record {
    kept = λ e. ground (arith, e, take_peer_key_encrypted p t);
    ended = λ ec' h ok_here. ground (arith, h, ok_here);
  }

  module _ (was : Bool) where
    -- Loops that run have shaken hands, and so has a stream of which that is known already.
    abbrev pub IsSecure : Connection H → Type 0
    IsSecure c = (was || c.stream.loops_running) ≡ true → IsEncrypted c.stream.transport

    forward-IsSecure :
        (me now : ℕ) (random : Option Bytes) (r : Expected Packet) (c : Connection H)
        → IsSecure c
        → IsSecure (forward H me now random r c).0
    unfolding forward
    forward-IsSecure me now random (unexpected ec) c s = s
    forward-IsSecure me now random (ok p) c s =
        λ running. (send_packet-Keeps H me p now random c.stream.transport).1 ∙ s running

    pub run_call-IsSecure :
        (call : StreamCall) (me now : ℕ) (random : Option Bytes) (c : Connection H)
        → IsSecure c
        → IsSecure (run_call H call me now random c).0
    unfolding run_call
    run_call-IsSecure (send_call stale bytes) me now random c s =
        forward-IsSecure me now random (stream_packet stale bytes) c s
    run_call-IsSecure receive_call me now random c s = s

    handshake_ended-IsSecure :
        (call : StreamCall) (me loop now : ℕ) (random : Option Bytes) (ec : BoostError)
        (c : Connection H)
        → IsSecure c
        → (failed ec ≡ false → IsEncrypted c.stream.transport)
        → IsSecure (handshake_ended H call me loop now random ec c).0
    unfolding handshake_ended end_start_loops spawn_loop
    handshake_ended-IsSecure call me loop now random ec c s on = elim (Bool-cases (failed ec)) [
      | inl e ↦ rw (e, e) s
      | inr e ↦ rw (e, e) (run_call-IsSecure call me now random _ (λ running. on e))
    ]

    pub shaken-IsSecure :
        (call : StreamCall) (me loop now : ℕ) (random : Option Bytes)
        (r : Transport H × HandshakeStep) (c : Connection H)
        → IsSecure c
        → Shakes c.stream.transport r
        → IsSecure (shaken H call me loop now random r c).0
    unfolding shaken
    shaken-IsSecure call me loop now random (t, finished ec) c s k =
        handshake_ended-IsSecure call me loop now random ec (with_transport H c t)
          (λ running. k.kept (s running)) (k.ended ec refl)
    shaken-IsSecure call me loop now random (t, sends p) c s k = λ running. k.kept (s running)
    shaken-IsSecure call me loop now random (t, awaits) c s k = λ running. k.kept (s running)
