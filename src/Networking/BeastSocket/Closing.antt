-- ===== src/Networking/BeastSocket/Closing.antt =====
-- A socket that has been closed.
use social_gaming_platform.Prelude.{◌+◌, ◌≡◌, refl, true, false, List, [], ◌∷◌, ◌++◌}
use social_gaming_platform.Run.{ok, undefined}
use social_gaming_platform.Networking.BeastSocket.{
  Bytes, Socket, take_front, do_async_write, push, claim_writing, send, close, is_connected,
}

front_there :
    (q : List Bytes) (d : Bytes) (s : Socket)
    → s.connection ≡ false
    → s.write_queue ≡ q ++ d ∷ []
    → do_async_write s ≡ undefined
unfolding do_async_write
front_there [] d s gone e = rw (e, take_front) (rw gone refl)
front_there (x ∷ q) d s gone e = rw (e, take_front) (rw gone refl)

-- Closing an open socket on which nothing is being written: it is not connected any more, closing it again
-- does nothing, and sending to it, which no test prevents, follows a null pointer.
pub close_lem :
    (d : Bytes) (s : Socket)
    → s.connected ≡ true
    → s.connection ≡ true
    → s.write_finished ≡ true
    → (s' : Socket) × (close s ≡ ok tt s')
      × (is_connected s' ≡ false)
      × (close s' ≡ ok tt s')
      × (send false d s' ≡ undefined)
unfolding close is_connected send push claim_writing
close_lem d s c o f =
    let s' : Socket = record s {
      connected = false;
      listening = false;
      connection = false;
      closings = s.closings + 1;
    } in
    let waiting : Socket = record s' {
      write_finished = false;
      write_queue = s.write_queue ++ d ∷ [];
    } in
    (s', rw c (rw o refl), refl, refl, rw f (front_there s.write_queue d waiting refl refl))
