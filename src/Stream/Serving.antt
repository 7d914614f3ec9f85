-- ===== src/Stream/Serving.antt =====
-- The chunks that the stream hands to receives, and what a step may do to them.
use mathlib.Core.List.{append_assoc, append-nil}
use file_hop_z.Base.{ℕ, ◌≡◌, refl, ◌∙◌, sym, ap, true, some, List, [], ◌∷◌, ◌++◌, map}
use file_hop_z.Base.Dict.{lookup}
use file_hop_z.AsyncQueue.{AsyncQueue, Completion}
use file_hop_z.AsyncQueue.Fifo.{
  values-append, pushes, perform_all, perform_all_fifo, pushed, values, IsIdle, Conserves,
}
use file_hop_z.Host.{Host}
use file_hop_z.Transport.{Effect}
use file_hop_z.Reorder.{Chunk, Window}
use file_hop_z.Stream.{StreamEffect, transport_asks, wake_reader}
use file_hop_z.Stream.Calls.{Stand, Connection, push_all}
use file_hop_z.Stream.Machine.{stretch, Output, asks, stands}

push_all_perform :
    (cs : List Chunk) (q : AsyncQueue Chunk) → perform_all (map pushes cs) q ≡ push_all cs q
unfolding perform_all push_all
push_all_perform [] q = refl
push_all_perform (c ∷ cs) q = rw (push_all_perform cs _) refl

pushed-map : (cs : List Chunk) → pushed (map pushes cs) ≡ cs
pushed-map [] = refl
pushed-map (c ∷ cs) = ap (◌∷◌ c) (pushed-map cs)

pub push_all-Conserves :
    (cs : List Chunk) (q : AsyncQueue Chunk) → IsIdle q → Conserves q cs (push_all cs q)
push_all-Conserves cs q i =
    let (idle, kept) = perform_all_fifo (map pushes cs) q i in
    rw (← push_all_perform cs q) (idle, ap (◌++◌ q.queue) (sym (pushed-map cs)) ∙ kept)

module _ (H : Host) where
  -- The completions of receives that wait for a chunk, and the chunks handed to them.
  abbrev pub readers_by : Output H → List (Completion Chunk)
  readers_by (asks (wake_reader w)) = w ∷ []
  readers_by _ = []

  abbrev pub readers : List (Output H) → List (Completion Chunk)
  readers [] = []
  readers (o ∷ os) = readers_by o ++ readers os

  abbrev pub woken : List (Output H) → List Chunk
  woken os = values (readers os)

  pub readers-append : (xs ys : List (Output H)) → readers (xs ++ ys) ≡ readers xs ++ readers ys
  readers-append [] ys = refl
  readers-append (x ∷ xs) ys =
      ap (◌++◌ (readers_by x)) (readers-append xs ys)
      ∙ sym (append_assoc (readers_by x) (readers xs) (readers ys))

  pub readers-transport : (es : List (Effect H)) → readers (map asks (map transport_asks es)) ≡ []
  readers-transport [] = refl
  readers-transport (e ∷ es) = readers-transport es

  readers-completions :
      (ws : List (Completion Chunk)) → readers (map asks (map wake_reader ws)) ≡ ws
  readers-completions [] = refl
  readers-completions (w ∷ ws) = ap (◌∷◌ w) (readers-completions ws)

  pub readers-stretch :
      (me : ℕ) (c : Connection H) (effects : List (StreamEffect H)) (stand : Stand)
      → readers (stretch H me (c, effects, stand)).1 ≡ readers (map asks effects)
  readers-stretch me c effects stand =
      readers-append (map asks effects) (stands me stand ∷ [])
      ∙ append-nil (readers (map asks effects))

  pub woken-append : (xs ys : List (Output H)) → woken (xs ++ ys) ≡ woken xs ++ woken ys
  woken-append xs ys = ap values (readers-append xs ys) ∙ values-append (readers xs) (readers ys)

  pub woken-transport : (es : List (Effect H)) → woken (map asks (map transport_asks es)) ≡ []
  woken-transport es = ap values (readers-transport es)

  pub woken-readers :
      (ws : List (Completion Chunk)) → woken (map asks (map wake_reader ws)) ≡ values ws
  woken-readers ws = ap values (readers-completions ws)

  pub woken-stretch :
      (me : ℕ) (c : Connection H) (effects : List (StreamEffect H)) (stand : Stand)
      → woken (stretch H me (c, effects, stand)).1 ≡ woken (map asks effects)
  woken-stretch me c effects stand = ap values (readers-stretch me c effects stand)

  -- The loop `loop` runs with the window `w`, and no receive waits while a chunk is ready.
  pub record Serves (loop : ℕ) (w : Window) (c : Connection H) : Type 0 where
    pub running : c.stream.loops_running ≡ true
    pub window : lookup loop c.loops ≡ some w
    pub idle : IsIdle c.stream.ready_chunks

  -- The step pushed the chunks of `cs`, and no chunk was lost or moved.
  pub record Delivers (loop : ℕ) (w : Window) (cs : List Chunk) (c : Connection H)
      (r : Connection H × List (Output H)) : Type 0 where
    pub serves : Serves loop w r.0
    pub conserved : c.stream.ready_chunks.queue ++ cs ≡ woken r.1 ++ r.0.stream.ready_chunks.queue

  -- Nothing happened to the loop and to its chunks.
  abbrev pub Leaves : Connection H → Connection H × List (Output H) → Type 0
  Leaves c r =
      (r.0.stream.loops_running ≡ c.stream.loops_running)
      × (r.0.loops ≡ c.loops)
      × (r.0.stream.ready_chunks ≡ c.stream.ready_chunks)
      × (woken r.1 ≡ [])

  pub Leaves-Delivers :
      (loop : ℕ) (w : Window) (c : Connection H) (r : Connection H × List (Output H))
      → Serves loop w c
      → Leaves c r
      → Delivers loop w [] c r
  Leaves-Delivers loop w c r s (running, loops, ready, quiet) = record {
    serves = record {
      running = running ∙ s.running;
      window = ap (lookup loop) loops ∙ s.window;
      idle = rw ready s.idle;
    };
    conserved =
        append-nil c.stream.ready_chunks.queue
        ∙ sym (ap (λ q. q.queue) ready)
        ∙ sym (ap (λ l. l ++ r.0.stream.ready_chunks.queue) quiet);
  }

  -- A call of the queue of chunks, and its completions.
  pub Conserves-Delivers :
      (loop : ℕ) (w : Window) (c : Connection H) (new : List Chunk)
      (r : Connection H × List (Output H)) (q : AsyncQueue Chunk × List (Completion Chunk))
      → r.0.stream.loops_running ≡ true
      → lookup loop r.0.loops ≡ some w
      → r.0.stream.ready_chunks ≡ q.0
      → woken r.1 ≡ values q.1
      → Conserves c.stream.ready_chunks new q
      → Delivers loop w new c r
  Conserves-Delivers loop w c new r q running window ready told (idle, kept) = record {
    serves = record { running = running; window = window; idle = rw ready idle };
    conserved = rw (told, ready) kept;
  }
