-- ===== src/Stream/Confidential.antt =====
-- Data that is given to `send` never leaves a stream in the clear.
use file_hop_z.Base.{
  ◌≤◌, ℕ, ◌≡◌, refl, ◌∙◌, ap, sym, true, false, not, inl, inr, Option, List, ◌||◌, arith,
  Bool-cases, if_false, length, ltb,
}
use file_hop_z.Base.Bytes.{Bytes}
use file_hop_z.Errors.{BoostError, Expected, ok, unexpected}
use file_hop_z.Packet.{packet_payload_size, Packet}
use file_hop_z.Crypto.{CryptoContext}
use file_hop_z.Host.{Host}
use file_hop_z.Transport.{Transport}
use file_hop_z.Transport.Send.{sending, send_packet, send_woken}
use file_hop_z.Stream.{HandshakeMode, data_packet, stream_packet}
use file_hop_z.Stream.Calls
use file_hop_z.Stream.Calls.{
  Stretch, send_call, shaking, forwarding, Connection, new_connection, with_transport, shake_start,
  forward, run_call, spawn_loop, handshake_ended, shaken, start_call, handshake_sent,
  handshake_received, send,
}
use file_hop_z.Stream.Machine.{Event, run}
use file_hop_z.Stream.Secure.{IsEncrypted, IsSecure, shake_sent-Shakes, shake_received-Shakes}
use file_hop_z.Stream.SecureSteps.{run-IsSecure, new-IsSecure}
use file_hop_z.Stream.Sealed.{
  IsSealedAs, IsSealed, shaken-IsSealed, send-IsSealed, woken-IsSealedAs,
}

module _ (H : Host) where
  forward_sent :
      (me now : ℕ) (random : Option Bytes) (r : Expected Packet) (c : Connection H) (q : Packet)
      → (forward H me now random r c).2 ≡ forwarding (sending q)
      → (p : Packet) × (r ≡ ok p)
        × ((send_packet H me p now random c.stream.transport).2 ≡ sending q)
  unfolding forward
  forward_sent me now random (unexpected ec) c q h = absurd cc
  forward_sent me now random (ok p) c q h = (p, refl, cc)

  stream_packet_ok :
      (stale bytes : Bytes) (p : Packet)
      → stream_packet stale bytes ≡ ok p
      → p ≡ data_packet stale bytes
  unfolding stream_packet
  stream_packet_ok stale bytes p h = elim (Bool-cases (ltb packet_payload_size (length bytes))) [
    | inl e ↦ absurd (ground arith)
    | inr e ↦ ground arith
  ]

  -- `send` once the loops run.
  pub send_sent :
      (stale bytes : Bytes) (me loop draw now : ℕ) (random : Option Bytes) (c : Connection H)
      (q : Packet)
      → c.stream.loops_running ≡ true
      → (send H stale bytes me loop draw now random c).2 ≡ forwarding (sending q)
      → (send_packet H me (data_packet stale bytes) now random c.stream.transport).2 ≡ sending q
  unfolding send run_call
  send_sent stale bytes me loop draw now random c q running h =
      let (p, e, sent) = forward_sent me now random (stream_packet stale bytes) c q (
        ap (λ (r : Stretch H). r.2)
          (sym (if_false (not c.stream.loops_running) _ _ (rw running refl)))
        ∙ h) in
      rw (← stream_packet_ok stale bytes p e) sent

  -- `send` hands over no more than a packet holds.
  pub send_fits :
      (stale bytes : Bytes) (me loop draw now : ℕ) (random : Option Bytes) (c : Connection H)
      (q : Packet)
      → c.stream.loops_running ≡ true
      → (send H stale bytes me loop draw now random c).2 ≡ forwarding (sending q)
      → length bytes ≤ packet_payload_size
  unfolding send run_call forward stream_packet
  send_fits stale bytes me loop draw now random c q running h =
      elim (Bool-cases (ltb packet_payload_size (length bytes))) [
        | inl e ↦ absurd (ground (arith, running))
        | inr e ↦ ground arith
      ]

  -- Whatever events a new stream has been through, and in whatever order they came: if its loops
  -- run, its connection is encrypted; and what `send` then hands to the socket, from its start or,
  -- if it had to make the handshake first, after either wait of the handshake, is a packet whose
  -- content is the encryption of the data under the connection's key.
  pub run_confidential :
      (mode : HandshakeMode) (endpoint : H.Endpoint) (crypto : CryptoContext H.ssl)
      (es : List (Event H)) (stale bytes : Bytes) (me loop draw now : ℕ) (random : Option Bytes)
      (ec : BoostError) (p : Packet)
      → let c = (run H es (new_connection H mode endpoint crypto)).0 in
        ((not c.stream.loops_running || c.stream.transport.connection_encrypted) ≡ true)
        × IsSealed H random bytes (send H stale bytes me loop draw now random c)
        × IsSealed H random bytes (handshake_sent H (send_call stale bytes) me loop now random ec c)
        × IsSealed H random bytes
            (handshake_received H (send_call stale bytes) me loop now random ec p c)
  unfolding handshake_sent handshake_received
  run_confidential mode endpoint crypto es stale bytes me loop draw now random ec p =
      let c : Connection H = (run H es (new_connection H mode endpoint crypto)).0 in
      let secure : IsSecure H false c =
        run-IsSecure H false es (new_connection H mode endpoint crypto)
          (new-IsSecure H mode endpoint crypto) in
      (
        ground (arith, secure),
        send-IsSealed H stale bytes me loop draw now random c secure,
        shaken-IsSealed H stale bytes me loop now random
            (Calls.shake_sent H c.stream.handshake_mode ec c.stream.transport) c.stream.transport c
            (shake_sent-Shakes H c.stream.handshake_mode ec c.stream.transport),
        shaken-IsSealed H stale bytes me loop now random
            (Calls.shake_received H c.stream.handshake_mode ec p c.stream.transport)
            c.stream.transport c
            (shake_received-Shakes H c.stream.handshake_mode ec p c.stream.transport),
      )

  -- Once the loops of a new stream have run, after whatever events, its connection is encrypted and
  -- stays so through all later events, `close` and new handshakes among them; and what a `send`
  -- that had to wait for the window hands to the socket when it is woken, however much later, is
  -- the encryption of its data under the connection's key.
  pub run_woken_confidential :
      (mode : HandshakeMode) (endpoint : H.Endpoint) (crypto : CryptoContext H.ssl)
      (es later : List (Event H)) (stale bytes : Bytes) (me now : ℕ) (random : Option Bytes)
      (ec : BoostError)
      → (run H es (new_connection H mode endpoint crypto)).0.stream.loops_running ≡ true
      → let c = (run H es (new_connection H mode endpoint crypto)).0 in
        let c' = (run H later c).0 in
        (c.stream.transport.connection_encrypted ≡ true)
        × (c'.stream.transport.connection_encrypted ≡ true)
        × IsSealedAs H random c'.stream.transport.crypto_context bytes
            (send_woken H me (data_packet stale bytes) now random ec c'.stream.transport).2
  run_woken_confidential mode endpoint crypto es later stale bytes me now random ec running =
      let c : Connection H = (run H es (new_connection H mode endpoint crypto)).0 in
      let t : Transport H = (run H later c).0.stream.transport in
      let on : IsEncrypted H c.stream.transport =
        run-IsSecure H false es (new_connection H mode endpoint crypto)
          (new-IsSecure H mode endpoint crypto) running in
      let still : IsEncrypted H t = run-IsSecure H true later c (λ h. on) refl in
      (
        on,
        still,
        woken-IsSealedAs H me now random ec t stale bytes
            (send_woken H me (data_packet stale bytes) now random ec t).2 still refl,
      )
