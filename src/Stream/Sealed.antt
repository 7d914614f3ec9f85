-- ===== src/Stream/Sealed.antt =====
-- What ProtoStream::send hands to the socket over an encrypted connection, in each of its stretches.
use file_hop_z.Base.{
  ℕ, ◌≡◌, refl, ◌∙◌, ap, sym, subst, false, not, inl, inr, Option, ◌%◌, arith, Bool-cases, if_true,
  if_false, length, drop, take, ltb, ◌++◌, take-append,
}
use file_hop_z.Base.Bytes.{Bytes, u16_mod}
use file_hop_z.Errors.{BoostError, failed, ok}
use file_hop_z.Packet.{packet_payload_size, Packet, content}
use file_hop_z.Crypto.{CryptoContext, encrypt_data}
use file_hop_z.Host.{Host}
use file_hop_z.Transport.{Transport}
use file_hop_z.Transport.Send.{
  SendOutcome, returned, blocked, sending, numbered, send_packet, send_woken, send_window,
  send_admitted,
}
use file_hop_z.Transport.Admission.{send_packet-IsAdmitted}
use file_hop_z.Transport.Channel.{Protected, protect-Protected}
use file_hop_z.Transport.Handshake.{HandshakeStep, finished, sends, awaits}
use file_hop_z.Stream.{Stream, data_packet, stream_packet, begin_loops, end_start_loops}
use file_hop_z.Stream.Calls.{
  Stretch, send_call, forwarding, Connection, with_transport, shake_start, forward, run_call,
  spawn_loop, handshake_ended, shaken, start_call, send,
}
use file_hop_z.Stream.Secure.{IsEncrypted, IsSecure, Shakes, shake_start-Shakes}

module _ (H : Host) where
  -- What a packet of the stream holds once it was protected.
  Protected-content :
      (random : Option Bytes) (t : Transport H) (stale bytes : Bytes) (sequence : ℕ) (q : Packet)
      → Protected H random t (numbered H (data_packet stale bytes) sequence) q
      → (encrypt_data H.ssl random t.crypto_context bytes ≡ ok (content q))
  Protected-content random t stale bytes sequence q x =
      let size : (length x.cipher % u16_mod) ≡ length x.cipher = omega (arith, x.fits) in
      let region = x.cipher ++ drop (length x.cipher) (data_packet stale bytes).region in
      let out : content q ≡ x.cipher =
        sym (ap content x.framed)
        ∙ ap (λ n. take n region) size
        ∙ take-append x.cipher _ (length x.cipher) refl in
      let whole : content (numbered H (data_packet stale bytes) sequence) ≡ bytes =
        take-append bytes (drop (length bytes) stale) (length bytes) refl in
      sym (ap (encrypt_data H.ssl random t.crypto_context) whole) ∙ x.encrypted ∙ ap ok (sym out)

  -- What was handed to the socket, if anything, is the encryption of the data.
  abbrev pub IsSealedAs : Option Bytes → CryptoContext H.ssl → Bytes → SendOutcome → Type 0
  IsSealedAs random context bytes (sending q) =
      encrypt_data H.ssl random context bytes ≡ ok (content q)
  IsSealedAs random context bytes (returned ec) = Unit
  IsSealedAs random context bytes blocked = Unit

  -- The same for a stretch of `send`, under the key of the connection at its end.
  abbrev pub IsSealed : Option Bytes → Bytes → Stretch H → Type 0
  IsSealed random bytes (c, effects, forwarding o) =
      IsSealedAs random c.stream.transport.crypto_context bytes o
  IsSealed random bytes (c, effects, _) = Unit

  sent-IsSealedAs :
      (me now : ℕ) (random : Option Bytes) (t : Transport H) (stale bytes : Bytes) (o : SendOutcome)
      → IsEncrypted H t
      → (send_packet H me (data_packet stale bytes) now random t).2 ≡ o
      → IsSealedAs random t.crypto_context bytes o
  sent-IsSealedAs me now random t stale bytes (returned ec) on e = tt
  sent-IsSealedAs me now random t stale bytes blocked on e = tt
  sent-IsSealedAs me now random t stale bytes (sending q) on e =
      Protected-content random t stale bytes t.sequence_counter q (
        protect-Protected H random t (numbered H (data_packet stale bytes) t.sequence_counter) q on
          (send_packet-IsAdmitted H me (data_packet stale bytes) now random t q e).protected)

  send_packet_context :
      (me now : ℕ) (p : Packet) (random : Option Bytes) (t : Transport H)
      → (send_packet H me p now random t).0.crypto_context ≡ t.crypto_context
  unfolding send_packet send_window send_admitted
  send_packet_context me now p random t = ground arith

  send_packet-IsSealedAs :
      (me now : ℕ) (random : Option Bytes) (t : Transport H) (stale bytes : Bytes)
      → IsEncrypted H t
      → let r = send_packet H me (data_packet stale bytes) now random t in
        IsSealedAs random r.0.crypto_context bytes r.2
  send_packet-IsSealedAs me now random t stale bytes on =
      let r = send_packet H me (data_packet stale bytes) now random t in
      subst (λ k. IsSealedAs random k bytes r.2)
        (sym (send_packet_context me now (data_packet stale bytes) random t))
        (sent-IsSealedAs me now random t stale bytes r.2 on refl)

  run_call-IsSealed :
      (stale bytes : Bytes) (me now : ℕ) (random : Option Bytes) (c : Connection H)
      → IsEncrypted H c.stream.transport
      → IsSealed random bytes (run_call H (send_call stale bytes) me now random c)
  unfolding run_call forward stream_packet
  run_call-IsSealed stale bytes me now random c on =
      elim (Bool-cases (ltb packet_payload_size (length bytes))) [
        | inl e ↦ rw e tt
        | inr e ↦ rw e (send_packet-IsSealedAs me now random c.stream.transport stale bytes on)
      ]

  handshake_ended-IsSealed :
      (stale bytes : Bytes) (me loop now : ℕ) (random : Option Bytes) (ec : BoostError)
      (c : Connection H)
      → (failed ec ≡ false → IsEncrypted H c.stream.transport)
      → IsSealed random bytes (handshake_ended H (send_call stale bytes) me loop now random ec c)
  unfolding handshake_ended end_start_loops spawn_loop
  handshake_ended-IsSealed stale bytes me loop now random ec c on = elim (Bool-cases (failed ec)) [
    | inl e ↦ rw (e, e) tt
    | inr e ↦ rw (e, e) (run_call-IsSealed stale bytes me now random _ (on e))
  ]

  pub shaken-IsSealed :
      (stale bytes : Bytes) (me loop now : ℕ) (random : Option Bytes)
      (r : Transport H × HandshakeStep) (t : Transport H) (c : Connection H)
      → Shakes H t r
      → IsSealed random bytes (shaken H (send_call stale bytes) me loop now random r c)
  unfolding shaken
  shaken-IsSealed stale bytes me loop now random (t', finished ec) t c k =
      handshake_ended-IsSealed stale bytes me loop now random ec (with_transport H c t')
        (k.ended ec refl)
  shaken-IsSealed stale bytes me loop now random (t', sends p) t c k = tt
  shaken-IsSealed stale bytes me loop now random (t', awaits) t c k = tt

  start_call-IsSealed :
      (stale bytes : Bytes) (me loop draw now : ℕ) (random : Option Bytes) (c : Connection H)
      → IsSealed random bytes (start_call H (send_call stale bytes) me loop draw now random c)
  unfolding start_call
  start_call-IsSealed stale bytes me loop draw now random c =
      let s : Stream H = begin_loops H now c.stream in
      shaken-IsSealed stale bytes me loop now random
        (shake_start H s.handshake_mode draw s.transport) s.transport (record c { stream = s })
        (shake_start-Shakes H s.handshake_mode draw s.transport)

  pub send-IsSealed :
      (stale bytes : Bytes) (me loop draw now : ℕ) (random : Option Bytes) (c : Connection H)
      → IsSecure H false c
      → IsSealed random bytes (send H stale bytes me loop draw now random c)
  unfolding send
  send-IsSealed stale bytes me loop draw now random c s =
      elim (Bool-cases (not c.stream.loops_running)) [
        | inl e ↦
            subst (λ r. IsSealed random bytes r) (sym (if_true (not c.stream.loops_running) _ _ e))
              (start_call-IsSealed stale bytes me loop draw now random c)
        | inr e ↦
            subst (λ r. IsSealed random bytes r) (sym (if_false (not c.stream.loops_running) _ _ e))
              (run_call-IsSealed stale bytes me now random c (s (ground (arith, e))))
      ]

  woken_sent :
      (me now : ℕ) (p : Packet) (random : Option Bytes) (ec : BoostError) (t : Transport H)
      (q : Packet)
      → (send_woken H me p now random ec t).2 ≡ sending q
      → (send_packet H me p now random t).2 ≡ sending q
  unfolding send_woken send_packet
  woken_sent me now p random ec t q h = elim (Bool-cases (failed ec)) [
    | inl e ↦ absurd (ground arith)
    | inr e ↦ elim (Bool-cases (failed t.loop_error)) [
      | inl f ↦ absurd (ground arith)
      | inr f ↦ ground arith
    ]
  ]

  pub woken-IsSealedAs :
      (me now : ℕ) (random : Option Bytes) (ec : BoostError) (t : Transport H) (stale bytes : Bytes)
      (o : SendOutcome)
      → IsEncrypted H t
      → (send_woken H me (data_packet stale bytes) now random ec t).2 ≡ o
      → IsSealedAs random t.crypto_context bytes o
  woken-IsSealedAs me now random ec t stale bytes (returned ec') on e = tt
  woken-IsSealedAs me now random ec t stale bytes blocked on e = tt
  woken-IsSealedAs me now random ec t stale bytes (sending q) on e =
      sent-IsSealedAs me now random t stale bytes (sending q) on
        (woken_sent me now (data_packet stale bytes) random ec t q e)
