-- ===== src/Networking/Tests.antt =====
-- Sockets on small inputs.
use social_gaming_platform.Prelude.{
  ◌<◌, ◌≡◌, ◌⊎◌, refl, true, false, List, [], ◌∷◌, ◌++◌, codes, arith,
}
use social_gaming_platform.Run.{ok, undefined}
use social_gaming_platform.Networking.BeastSocket.{
  Socket, new_socket, on_async_read, end_of_stream, connection_reset, success, on_close, on_error,
  remote_connection_closed, do_async_write, push, claim_writing,
}
use social_gaming_platform.Networking.BeastSocket.Sequential.{
  Call, sending, written, run_calls, data_of, run_calls_lem,
}
use social_gaming_platform.Networking.Threads.{
  Threads, Reaches, start, then_step, pushes, claims, starts, Ordered, Reaches-Ordered,
}
use social_gaming_platform.Networking.Threads.Races.{races_lem}

-- Two sends and the end of the first write: the second text is being written.
sent_two :
    run_calls
      (sending false (codes "a") ∷ sending false (codes "b") ∷ written success ∷ [])
      new_socket
    ≡ ok tt (record new_socket { write_finished = false; wire = codes "a" ∷ codes "b" ∷ [] })
unfolding run_calls
sent_two = refl

-- The end of the stream is no error, a reset connection is one.
end_of_read :
    on_async_read end_of_stream [] new_socket
    ≡ ok tt (record new_socket { connected = false; events = on_close ∷ [] })
unfolding on_async_read
end_of_read = refl

reset_read :
    on_async_read connection_reset [] new_socket
    ≡ ok tt (record new_socket {
      connected = false;
      events = on_error remote_connection_closed ∷ on_close ∷ [];
    })
unfolding on_async_read
reset_read = refl

abbrev writing : Threads
writing = record {
  socket = record new_socket { write_finished = false; wire = codes "a" ∷ [] };
  pushed = 0;
  starting = 0;
  flying = 1;
  failed = 0;
  offered = codes "a" ∷ [];
}

reaches-writing : Reaches writing
unfolding push claim_writing do_async_write
reaches-writing =
    let r1 = then_step start (pushes (codes "a") refl) in
    let r2 = then_step r1 (claims false (omega arith) refl) in
    then_step r2 (starts (omega arith) refl)

Reaches-Ordered_example : Ordered writing
Reaches-Ordered_example = Reaches-Ordered reaches-writing

abbrev two_calls : List Call
two_calls = sending false (codes "a") ∷ written success ∷ []

run_calls_example :
    (s : Socket) × (run_calls two_calls new_socket ≡ ok tt s)
    × (s.wire ++ s.write_queue ≡ data_of two_calls)
    × ((s.write_finished ≡ false) ⊎ (s.write_queue ≡ []))
run_calls_example = run_calls_lem two_calls (refl, (refl, tt))

races_example :
    ((t : Threads) × Reaches t × (0 < t.starting) × (do_async_write t.socket ≡ undefined))
    × ((t : Threads) × Reaches t
        × (t.socket.write_queue ≡ codes "a" ∷ [])
        × (t.socket.write_finished ≡ true)
        × (t.starting ≡ 0)
        × (t.flying ≡ 0)
        × (t.pushed ≡ 0))
races_example = races_lem (codes "a") (codes "b")
