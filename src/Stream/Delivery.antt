-- ===== src/Stream/Delivery.antt =====
-- What the receive loop of a stream hands on reaches the receives whole and in order.
use mathlib.Core.List.{append_assoc, append-nil}
use file_hop_z.Base.{
  subst, ℕ, ◌≡◌, refl, ◌∙◌, sym, ap, ◌≡⟨◌⟩◌, ◌∎, true, List, [], ◌∷◌, ◌++◌, map, ◌<◌, ◌≤◌,
}
use file_hop_z.Packet.{Packet}
use file_hop_z.AsyncQueue
use file_hop_z.AsyncQueue.{AsyncQueue}
use file_hop_z.Host.{Host}
use file_hop_z.Transport.{wake_receiver}
use file_hop_z.Transport.Step
use file_hop_z.Reorder.{Chunk, Window, accept, accept_all, initial_window, sequence_window_size}
use file_hop_z.Reorder.Flush.{chunks}
use file_hop_z.Reorder.Complete.{Traffic, arrived, accept_all_complete}
use file_hop_z.Stream.Calls.{Connection}
use file_hop_z.Stream.Machine.{
  key_sent, key_arrived, close_called, close_resumed, close_posted, Event, send_called,
  receive_called, chunk_popped, reader_cancelled, packet_popped, loop_cancelled, transport_event,
  step, run,
}
use file_hop_z.Stream.Serving.{
  woken, woken-append, woken-transport, Serves, Delivers, Leaves-Delivers,
}
use file_hop_z.Stream.Steady.{
  IsSteadyAt, IsSteady, taken_by, taken, send-Leaves, receive-Delivers, cancel-Delivers,
  turn-Delivers,
}

module _ (H : Host) (loop : ℕ) where
  run-Delivers_cons :
      (w1 w2 : Window) (new later : List Chunk) (e : Event H) (es : List (Event H))
      (c : Connection H)
      → Delivers H loop w1 new c (step H e c)
      → Delivers H loop w2 later (step H e c).0 (run H es (step H e c).0)
      → Delivers H loop w2 (new ++ later) c (run H (e ∷ es) c)
  unfolding run
  run-Delivers_cons w1 w2 new later e es c now rest =
      let c' = (step H e c).0 in
      let q' = c'.stream.ready_chunks.queue in
      let out = (step H e c).1 in
      let r = run H es c' in
      record {
        serves = rest.serves;
        conserved =
            c.stream.ready_chunks.queue ++ (new ++ later)
            ≡⟨ sym (append_assoc c.stream.ready_chunks.queue new later) ⟩
              (c.stream.ready_chunks.queue ++ new) ++ later
            ≡⟨ ap (λ l. l ++ later) now.conserved ⟩ (woken H out ++ q') ++ later
            ≡⟨ append_assoc (woken H out) q' later ⟩ woken H out ++ (q' ++ later)
            ≡⟨ ap (◌++◌ (woken H out)) rest.conserved ⟩
              woken H out ++ (woken H r.1 ++ r.0.stream.ready_chunks.queue)
            ≡⟨ sym (append_assoc (woken H out) (woken H r.1) r.0.stream.ready_chunks.queue) ⟩
              (woken H out ++ woken H r.1) ++ r.0.stream.ready_chunks.queue
            ≡⟨ ap (λ l. l ++ r.0.stream.ready_chunks.queue) (sym (woken-append H out r.1)) ⟩
              woken H (out ++ r.1) ++ r.0.stream.ready_chunks.queue ∎;
      }

  -- An event other than a packet for the loop.
  quiet-Delivers :
      (e : Event H) (w : Window) (c : Connection H)
      → Serves H loop w c
      → IsSteadyAt H loop e c
      → taken_by H loop e ≡ []
      → Delivers H loop w [] c (step H e c)
  unfolding step
  quiet-Delivers (send_called stale bytes me spawned draw now random) w c s ok_here quiet =
      Leaves-Delivers H loop w c _ s
        (send-Leaves H loop stale bytes me spawned draw now random c s.running)
  quiet-Delivers (receive_called me spawned draw now) w c s ok_here quiet =
      receive-Delivers H loop w c s me spawned draw now
  quiet-Delivers (key_sent call me l now random ec) w c s ok_here quiet = absurd ok_here
  quiet-Delivers (key_arrived call me l now random ec p) w c s ok_here quiet = absurd ok_here
  quiet-Delivers (chunk_popped me ec chunk) w c s ok_here quiet =
      Leaves-Delivers H loop w c _ s (refl, refl, refl, refl)
  quiet-Delivers (reader_cancelled me) w c s ok_here quiet = cancel-Delivers H loop w c s me
  quiet-Delivers (packet_popped from ec p) w c s ok_here quiet = absurd cc
  quiet-Delivers (loop_cancelled from) w c s ok_here quiet = Leaves-Delivers H loop w c _ s (
    refl,
    refl,
    refl,
    woken-transport H
        (map wake_receiver (AsyncQueue.cancel from c.stream.transport.received_packets_queue).1),
  )
  quiet-Delivers (close_called me) w c s ok_here quiet = absurd ok_here
  quiet-Delivers (close_resumed me) w c s ok_here quiet = absurd ok_here
  quiet-Delivers (close_posted me) w c s ok_here quiet = absurd ok_here
  quiet-Delivers (transport_event e) w c s ok_here quiet =
      Leaves-Delivers H loop w c _ s
        (refl, refl, refl, woken-transport H (Step.step H e c.stream.transport).1)

  abbrev Continues : List (Event H) → Connection H → Type 0
  Continues es c =
      (w : Window)
      → Serves H loop w c
      → let r = accept_all (taken H loop es) w in Delivers H loop r.0 r.1 c (run H es c)

  step-Delivers_cons :
      (e : Event H) (es : List (Event H)) (w : Window) (c : Connection H)
      → Serves H loop w c
      → IsSteadyAt H loop e c
      → Continues es (step H e c).0
      → let r = accept_all (taken_by H loop e ++ taken H loop es) w in
        Delivers H loop r.0 r.1 c (run H (e ∷ es) c)
  unfolding accept_all
  step-Delivers_cons (packet_popped from ec p) es w c s (same, got) rest =
      subst
        (λ l.
          let r = accept_all (p ∷ taken H loop es) w in
          Continues es (step H (packet_popped l ec p) c).0
          → Delivers H loop r.0 r.1 c (run H (packet_popped l ec p ∷ es) c))
        (sym same)
        (λ more.
          let d = turn-Delivers H loop w c s p ec got in
          run-Delivers_cons (accept p w).0 (accept_all (taken H loop es) (accept p w).0).0
            (accept p w).1 (accept_all (taken H loop es) (accept p w).0).1 (packet_popped loop ec p)
            es c d (more (accept p w).0 d.serves))
        rest
  step-Delivers_cons e es w c s here rest =
      let d = quiet-Delivers e w c s here refl in
      run-Delivers_cons w (accept_all (taken H loop es) w).0 [] (accept_all (taken H loop es) w).1 e
        es c d (rest w d.serves)

  run-Delivers :
      (es : List (Event H)) (w : Window) (c : Connection H)
      → Serves H loop w c
      → IsSteady H loop es c
      → let r = accept_all (taken H loop es) w in Delivers H loop r.0 r.1 c (run H es c)
  unfolding run accept_all
  run-Delivers [] w c s steady = record {
    serves = s;
    conserved = append-nil c.stream.ready_chunks.queue;
  }
  run-Delivers (e ∷ es) w c s (here, steady) =
      step-Delivers_cons e es w c s here (λ w' s'. run-Delivers es w' (step H e c).0 s' steady)

  -- A stream whose loop has just started, with no chunk ready, hands on whole and in order what
  -- was sent: if the loop takes each of fewer than 65536 data packets at least once, in any order,
  -- with repetitions and with other packets in between, then the chunks handed to receives and
  -- after them those that are still ready are the contents of all packets in order. That holds for
  -- every order of these turns with sends, receives, cancelled receives and the transport's own
  -- events, as long as the loop goes on, no other loop runs, no handshake is on its way and nobody
  -- closes the stream.
  pub run_delivers :
      (sent : ℕ → Packet) (n : ℕ) (es : List (Event H)) (c : Connection H)
      → Serves H loop initial_window c
      → c.stream.ready_chunks.queue ≡ []
      → IsSteady H loop es c
      → n < sequence_window_size
      → Traffic sent n (taken H loop es)
      → ((s : ℕ) → 1 ≤ s → s ≤ n → arrived s (taken H loop es) ≡ true)
      → woken H (run H es c).1 ++ (run H es c).0.stream.ready_chunks.queue ≡ chunks sent 1 n
  run_delivers sent n es c s empty steady short traffic all =
      sym (run-Delivers es initial_window c s steady).conserved
      ∙ ap (λ q. q ++ (accept_all (taken H loop es) initial_window).1) empty
      ∙ ap (λ r. r.1) (accept_all_complete sent n (taken H loop es) short traffic all)
