-- ===== src/Stream/Steady.antt =====
-- What each event does to the chunks of a stream while its receive loop goes on.
use file_hop_z.Base.{
  if_true, if_false, not, subst, ℕ, ◌≡◌, refl, ◌∙◌, sym, ap, inl, inr, true, Option, none, List, [],
  ◌∷◌, ◌++◌, map, arith, Bool-cases,
}
use file_hop_z.Base.Bytes.{Bytes}
use file_hop_z.Base.Dict.{lookup-insert}
use file_hop_z.Errors.{BoostError, failed, Expected, ok, unexpected}
use file_hop_z.Packet.{Packet}
use file_hop_z.AsyncQueue
use file_hop_z.AsyncQueue.{AsyncQueue}
use file_hop_z.AsyncQueue.Fifo.{pops, cancels, perform-Conserves}
use file_hop_z.Host.{Host}
use file_hop_z.Transport.Receive.{receive_packet}
use file_hop_z.Transport.Send.{send_packet}
use file_hop_z.Reorder.{Window, accept}
use file_hop_z.Stream.{stream_packet, transport_asks, wake_reader}
use file_hop_z.Stream.Calls.{
  start_call, with_transport, forwarding, popping, send_call, receive_call, Connection, push_all,
  forward, run_call, send, receive, chunks_received, chunks_turn,
}
use file_hop_z.Stream.Machine.{
  asks, Event, send_called, receive_called, chunk_popped, reader_cancelled, packet_popped,
  loop_cancelled, transport_event, stretch, step,
}
use file_hop_z.Stream.Serving.{
  woken-stretch, push_all-Conserves, woken-transport, woken-readers, Serves, Delivers, Leaves,
  Leaves-Delivers, Conserves-Delivers,
}

module _ (H : Host) (loop : ℕ) where
  -- The loop goes on, no other loop runs, no handshake is on its way and nobody closes the stream.
  abbrev pub IsSteadyAt : Event H → Connection H → Type 0
  IsSteadyAt (send_called stale bytes me spawned draw now random) c = Unit {0}
  IsSteadyAt (receive_called me spawned draw now) c = Unit {0}
  IsSteadyAt (chunk_popped me ec chunk) c = Unit {0}
  IsSteadyAt (reader_cancelled me) c = Unit {0}
  IsSteadyAt (packet_popped from ec p) c =
      (from ≡ loop) × (receive_packet H ec p c.stream.transport ≡ ok p)
  IsSteadyAt (loop_cancelled from) c = Unit {0}
  IsSteadyAt (transport_event e) c = Unit {0}
  IsSteadyAt _ c = ⊥

  abbrev pub IsSteady : List (Event H) → Connection H → Type 0
  IsSteady [] c = Unit {0}
  IsSteady (e ∷ es) c = IsSteadyAt e c × IsSteady es (step H e c).0

  -- The packets that the loop takes.
  abbrev pub taken_by : Event H → List Packet
  taken_by (packet_popped from ec p) = p ∷ []
  taken_by _ = []

  abbrev pub taken : List (Event H) → List Packet
  taken [] = []
  taken (e ∷ es) = taken_by e ++ taken es

  forward-Leaves :
      (me now : ℕ) (random : Option Bytes) (r : Expected Packet) (c : Connection H)
      → Leaves H c (stretch H me (forward H me now random r c))
  unfolding forward
  forward-Leaves me now random (unexpected ec) c = (refl, refl, refl, refl)
  forward-Leaves me now random (ok p) c =
      let (t, effects, outcome) = send_packet H me p now random c.stream.transport in
      (
        refl,
        refl,
        refl,
        woken-stretch H me (with_transport H c t) (map transport_asks effects) (forwarding outcome)
            ∙ woken-transport H effects,
      )

  run_call-Leaves :
      (stale bytes : Bytes) (me now : ℕ) (random : Option Bytes) (c : Connection H)
      → Leaves H c (stretch H me (run_call H (send_call stale bytes) me now random c))
  unfolding run_call
  run_call-Leaves stale bytes me now random c =
      forward-Leaves me now random (stream_packet stale bytes) c

  pub send-Leaves :
      (stale bytes : Bytes) (me spawned draw now : ℕ) (random : Option Bytes) (c : Connection H)
      → c.stream.loops_running ≡ true
      → Leaves H c (stretch H me (send H stale bytes me spawned draw now random c))
  unfolding send
  send-Leaves stale bytes me spawned draw now random c running =
      subst (λ r. Leaves H c (stretch H me r))
        (sym (
          if_false (not c.stream.loops_running)
            (start_call H (send_call stale bytes) me spawned draw now random c)
            (run_call H (send_call stale bytes) me now random c) (rw running refl)))
        (run_call-Leaves stale bytes me now random c)

  module _ (w : Window) (c : Connection H) (s : Serves H loop w c) where
    pop-Delivers :
        (me now : ℕ) → Delivers H loop w [] c (stretch H me (run_call H receive_call me now none c))
    unfolding run_call
    pop-Delivers me now =
        let q = AsyncQueue.pop me c.stream.ready_chunks in
        Conserves-Delivers H loop w c [] _ q s.running s.window refl
          (woken-stretch H me c (map wake_reader q.1) popping ∙ woken-readers H q.1)
          (perform-Conserves (pops me) c.stream.ready_chunks s.idle)

    pub receive-Delivers :
        (me spawned draw now : ℕ)
        → Delivers H loop w [] c (stretch H me (receive H me spawned draw now c))
    unfolding receive
    receive-Delivers me spawned draw now = elim (Bool-cases (failed c.stream.stream_error)) [
      | inl e ↦
          subst (λ r. Delivers H loop w [] c (stretch H me r))
            (sym (if_true (failed c.stream.stream_error) _ _ e))
            (Leaves-Delivers H loop w c _ s (refl, refl, refl, refl))
      | inr e ↦
          subst (λ r. Delivers H loop w [] c (stretch H me r))
            (sym (
              if_false (failed c.stream.stream_error) _ _ e
              ∙ if_false (not c.stream.loops_running) _ (run_call H receive_call me now none c)
                  (rw s.running refl)))
            (pop-Delivers me now)
    ]

    pub cancel-Delivers : (me : ℕ) → Delivers H loop w [] c (step H (reader_cancelled me) c)
    unfolding step
    cancel-Delivers me =
        let q = AsyncQueue.cancel me c.stream.ready_chunks in
        Conserves-Delivers H loop w c [] _ q s.running s.window refl (woken-readers H q.1)
          (perform-Conserves (cancels me) c.stream.ready_chunks s.idle)

    received-Delivers :
        (p : Packet)
        → let r = chunks_received H loop w (ok p) c in
          Delivers H loop (accept p w).0 (accept p w).1 c (r.0, map asks r.1)
    unfolding chunks_received
    received-Delivers p =
        let q = push_all (accept p w).1 c.stream.ready_chunks in
        Conserves-Delivers H loop (accept p w).0 c (accept p w).1 _ q s.running
          (ground (arith, lookup-insert loop loop (accept p w).0 c.loops)) refl
          (woken-readers H q.1) (push_all-Conserves (accept p w).1 c.stream.ready_chunks s.idle)

    pub turn-Delivers :
        (p : Packet) (ec : BoostError)
        → receive_packet H ec p c.stream.transport ≡ ok p
        → Delivers H loop (accept p w).0 (accept p w).1 c (step H (packet_popped loop ec p) c)
    unfolding step chunks_turn
    turn-Delivers p ec got =
        subst (λ r. Delivers H loop (accept p w).0 (accept p w).1 c (r.0, map asks r.1))
          (sym (
            ap (λ o. chunks_turn H loop o ec p c) s.window
            ∙ ap (λ r. chunks_received H loop w r c) got))
          (received-Delivers p)
