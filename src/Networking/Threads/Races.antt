-- ===== src/Networking/Threads/Races.antt =====
-- What may go wrong where sends overlap.
use social_gaming_platform.Prelude.{◌<◌, ◌≡◌, refl, true, false, [], ◌∷◌, arith}
use social_gaming_platform.Run.{undefined}
use social_gaming_platform.Networking.BeastSocket.{
  Bytes, new_socket, do_async_write, next_write, push, claim_writing,
}
use social_gaming_platform.Networking.Threads.{
  Threads, pushes, claims, misses, starts, goes_on, comes_to_rest, Reaches, start, then_step,
}

-- The first thread's data is being written when a second one pushes its own. The end of the first write
-- starts a write of that too, and comes to rest after it; only then the second thread finds the flag up,
-- and takes it with nothing left to write.
abbrev late : Bytes → Bytes → Threads
late d e = record {
  socket = record new_socket { write_finished = false; wire = d ∷ e ∷ [] };
  pushed = 0;
  starting = 1;
  flying = 0;
  failed = 0;
  offered = d ∷ e ∷ [];
}

reaches-late : (d e : Bytes) → Reaches (late d e)
unfolding push claim_writing do_async_write next_write
reaches-late d e =
    let r1 = then_step start (pushes d refl) in
    let r2 = then_step r1 (claims false (omega arith) refl) in
    let r3 = then_step r2 (starts (omega arith) refl) in
    let r4 = then_step r3 (pushes e refl) in
    let r5 = then_step r4 (goes_on (omega arith) refl) in
    let r6 = then_step r5 (starts (omega arith) refl) in
    let r7 = then_step r6 (comes_to_rest (omega arith) refl) in
    then_step r7 (claims false (omega arith) refl)

-- A thread whose exchange fails for no reason leaves its data behind.
abbrev stranded : Bytes → Threads
stranded d = record {
  socket = record new_socket { write_queue = d ∷ [] };
  pushed = 0;
  starting = 0;
  flying = 0;
  failed = 0;
  offered = d ∷ [];
}

reaches-stranded : (d : Bytes) → Reaches (stranded d)
unfolding push claim_writing
reaches-stranded d = then_step (then_step start (pushes d refl)) (misses true (omega arith) refl)

-- Two threads that send can bring a socket to where one of them is about to write from an empty queue,
-- which is undefined. And a single send can end with its data in the queue, no write under way and nobody
-- about to start one, though the flag is up.
pub races_lem :
    (d e : Bytes)
    → ((t : Threads) × Reaches t × (0 < t.starting) × (do_async_write t.socket ≡ undefined))
      × ((t : Threads) × Reaches t
          × (t.socket.write_queue ≡ d ∷ [])
          × (t.socket.write_finished ≡ true)
          × (t.starting ≡ 0)
          × (t.flying ≡ 0)
          × (t.pushed ≡ 0))
unfolding do_async_write
races_lem d e = (
  (late d e, reaches-late d e, omega arith, refl),
  (stranded d, reaches-stranded d, refl, refl, refl, refl, refl),
)
