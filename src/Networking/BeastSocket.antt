-- ===== src/Networking/BeastSocket.antt =====
-- BeastSocket (module/networking_websocket/src/BeastSocket.cpp). What the socket asks of the library is
-- noted in its state: the data that it gave to async_write in order, and how often it started to read and
-- to close. A handler is called with the error code of its operation.
pub mod Closing
pub mod Sequential
use social_gaming_platform.Prelude.{
  ℕ, ◌+◌, Bool, true, false, not, ◌&&◌, List, [], ◌∷◌, ◌++◌, if◌then◌else◌,
}
use social_gaming_platform.Run.{Run, ok, undefined, pure, modify, ◌>>=◌, ◌>>◌}

-- Socket::Data.
abbrev pub Bytes : Type 0
Bytes = List ℕ

-- boost::beast::error_code, by the codes that the socket tells apart.
pub data ErrorCode : Type 0 where
  success connection_reset end_of_stream other_error : ErrorCode

-- NetworkException::Kind, of these errors.
pub data NetworkError : Type 0 where
  remote_connection_closed remote_connection_error : NetworkError

-- What the listeners of a socket hear.
pub data Event : Type 0 where
  on_data : Bytes → Event
  on_error : NetworkError → Event
  on_close : Event

-- `connection` is false where the pointer is null; `listening` ends with `on_data.remove_all()`.
pub record Socket : Type 0 where
  pub connected : Bool
  pub write_finished : Bool
  pub connection : Bool
  pub listening : Bool
  pub write_queue : List Bytes
  pub wire : List Bytes
  pub reads : ℕ
  pub closings : ℕ
  pub events : List Event

abbrev pub new_socket : Socket
new_socket = record {
  connected = true;
  write_finished = true;
  connection = true;
  listening = true;
  write_queue = [];
  wire = [];
  reads = 0;
  closings = 0;
  events = [];
}

abbrev pub emit : Event → Run Socket (Unit {0})
emit e = modify (λ s. record s { events = s.events ++ e ∷ [] })

abbrev pub emit_data : Bytes → Run Socket (Unit {0})
emit_data d s = if s.listening then emit (on_data d) s else ok tt s

unfoldable pub convert_error : ErrorCode → NetworkError
convert_error connection_reset = remote_connection_closed
convert_error ec = remote_connection_error

-- Following the pointer to the connection.
abbrev pub with_connection : Run Socket (Unit {0}) → Run Socket (Unit {0})
with_connection m s = if s.connection then m s else undefined

unfoldable pub do_async_read : Run Socket (Unit {0})
do_async_read = with_connection (modify (λ s. record s { reads = s.reads + 1 }))

-- `front()` and `pop()` of the queue; of an empty queue they are undefined.
abbrev pub take_front : List Bytes → Run Socket Bytes
take_front [] s = undefined
take_front (d ∷ ds) s = ok d (record s { write_queue = ds })

unfoldable pub do_async_write : Run Socket (Unit {0})
do_async_write s =
    (do
      d ← take_front s.write_queue
      with_connection (modify (λ s'. record s' { wire = s'.wire ++ d ∷ [] })))
      s

abbrev pub report : ErrorCode → Run Socket (Unit {0})
report end_of_stream = pure tt
report ec = emit (on_error (convert_error ec))

-- _handle_error.
unfoldable pub handle_error : ErrorCode → Run Socket Bool
unfolding convert_error
handle_error success = pure false
handle_error ec = do
  modify (λ s. record s { connected = false })
  report ec
  emit on_close
  pure true

unfoldable pub on_async_read : ErrorCode → Bytes → Run Socket (Unit {0})
unfolding handle_error do_async_read
on_async_read ec d = do
  failed ← handle_error ec
  if failed then pure tt else (do do_async_read; emit_data d)

abbrev pub is_empty : List Bytes → Bool
is_empty [] = true
is_empty (d ∷ ds) = false

-- The locked part of _on_async_write: whether there is another write to do.
unfoldable pub next_write : Run Socket Bool
next_write s =
    if is_empty s.write_queue then ok false (record s { write_finished = true }) else ok true s

unfoldable pub on_async_write : ErrorCode → Run Socket (Unit {0})
unfolding handle_error next_write do_async_write
on_async_write ec = do
  failed ← handle_error ec
  if failed
      then pure tt
      else (do do_write ← next_write; if do_write then do_async_write else pure tt)

unfoldable pub on_async_close : ErrorCode → Run Socket (Unit {0})
unfolding handle_error
on_async_close ec = do failed ← handle_error ec; if failed then pure tt else emit on_close

-- The locked part of `send`.
unfoldable pub push : Bytes → Run Socket (Unit {0})
push d = modify (λ s. record s { write_queue = s.write_queue ++ d ∷ [] })

-- `_write_finished.compare_exchange_weak(expected, false)` with `expected` true, which may fail for no
-- reason.
unfoldable pub claim_writing : Bool → Run Socket Bool
claim_writing spurious s =
    if s.write_finished && not spurious
    then ok true (record s { write_finished = false })
    else ok false s

unfoldable pub send : Bool → Bytes → Run Socket (Unit {0})
unfolding push claim_writing do_async_write
send spurious d = do
  push d
  claimed ← claim_writing spurious
  if claimed then do_async_write else pure tt

-- `_connected.exchange(false)`.
abbrev pub take_connected : Run Socket Bool
take_connected s = ok s.connected (record s { connected = false })

abbrev pub async_close : Run Socket (Unit {0})
async_close = do
  modify (λ s. record s { listening = false })
  with_connection (modify (λ s. record s { closings = s.closings + 1 }))
  modify (λ s. record s { connection = false })

-- Both versions of `close`: the reason goes to the library.
unfoldable pub close : Run Socket (Unit {0})
close = do was ← take_connected; if was then async_close else pure tt

unfoldable pub is_connected : Socket → Bool
is_connected s = s.connected
