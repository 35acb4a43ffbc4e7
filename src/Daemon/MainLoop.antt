-- ===== src/Daemon/MainLoop.antt =====
-- The network server's clients (module/server/src/Server.cpp) and the main loop of the daemon
-- (module/server_daemon/src/chatserver.cpp). Each handler and each tick runs as a whole; logging is left
-- out.
pub mod Disconnections
use social_gaming_platform.Prelude.{
  ℕ, ◌==◌, true, false, Option, none, some, List, [], ◌∷◌, ◌++◌, map, Text, codes, if◌then◌else◌,
}
use social_gaming_platform.Run.{Run, Outcome, ok, threw, undefined, pure, modify, ◌>>=◌, ◌>>◌}
use social_gaming_platform.Game.Controller.{Controller}
use social_gaming_platform.Chat.Room.Games
use social_gaming_platform.Chat.Room.Games.{Executor}
use social_gaming_platform.Server.{ServerManager, on, find_user, rooms, add_user_object}
use social_gaming_platform.Server.Movement.{remove_user_object}
use social_gaming_platform.Server.Registry.{look_up, emplace, erase_entry}
use social_gaming_platform.Daemon.GlobalCommands.{reply}
use social_gaming_platform.Daemon.Routing.{process_packet}

-- A client is its connection's id with the queue of its packets. `disconnected` is the list that the
-- handler of on_close fills and the main loop empties.
pub record Daemon (G : Type 0) : Type 0 where
  pub manager : ServerManager G
  pub clients : List (ℕ × List Text)
  pub disconnected : List ℕ

-- A packet that a connection hands to its queue.
abbrev pub append_packet : ℕ → Text → List (ℕ × List Text) → List (ℕ × List Text)
append_packet u t [] = []
append_packet u t ((v, ts) ∷ l) =
    if v == u then (v, ts ++ t ∷ []) ∷ l else (v, ts) ∷ append_packet u t l

module _ {G : Type 0} where
  abbrev pub to_manager :
      {A : Type 0} → Daemon G → Outcome (ServerManager G) A → Outcome (Daemon G) A
  to_manager d (ok a s) = ok a (record d { manager = s })
  to_manager d (threw e s) = threw e (record d { manager = s })
  to_manager d undefined = undefined

  -- What the main loop does with the manager.
  abbrev pub with_manager : {A : Type 0} → Run (ServerManager G) A → Run (Daemon G) A
  with_manager m d = to_manager d (m d.manager)

  -- greet_user.
  abbrev pub greet_user : ℕ → Run (ServerManager G) (Unit {0})
  greet_user u = reply u (codes "Welcome to the server. /create or /join a room to get started!")

  -- The handler of the listener's on_accept, with the two handlers of the server's on_accept.
  unfoldable pub accept : ℕ → Run (Daemon G) (Unit {0})
  unfolding emplace reply add_user_object
  accept u = do
    modify (λ d. record d { clients = emplace ◌==◌ u [] d.clients })
    with_manager (greet_user u)
    with_manager (modify (add_user_object u))

  unfoldable pub deliver : ℕ → Text → Run (Daemon G) (Unit {0})
  deliver u t = modify (λ d. record d { clients = append_packet u t d.clients })

  -- Server::find_client and Server::disconnect; the server's on_close has one handler.
  unfoldable pub find_client : ℕ → Daemon G → Option (List Text)
  unfolding look_up
  find_client u d = look_up ◌==◌ u d.clients

  abbrev pub disconnect_found : ℕ → Option (List Text) → Run (Daemon G) (Unit {0})
  disconnect_found u none = pure tt
  disconnect_found u (some ts) = modify (λ d. record d {
    disconnected = d.disconnected ++ u ∷ [];
    clients = erase_entry ◌==◌ u d.clients;
  })

  unfoldable pub disconnect : ℕ → Run (Daemon G) (Unit {0})
  unfolding look_up erase_entry
  disconnect u d = disconnect_found u (look_up ◌==◌ u d.clients) d

  -- The handler of a socket's on_close.
  abbrev pub if_client : Option (List Text) → Run (Daemon G) (Unit {0}) → Run (Daemon G) (Unit {0})
  if_client none m = pure tt
  if_client (some ts) m = m

  unfoldable pub close_socket : ℕ → Run (Daemon G) (Unit {0})
  unfolding find_client disconnect
  close_socket u d = if_client (find_client u d) (disconnect u) d

module _ {G : Type 0} (c : Controller G) where
  -- The first part of a tick.
  abbrev pub drop_found : Option ℕ → Run (ServerManager G) (Unit {0})
  drop_found none = pure tt
  drop_found (some v) = remove_user_object c v

  unfoldable pub drop_each : List ℕ → Run (ServerManager G) (Unit {0})
  unfolding find_user remove_user_object
  drop_each [] = pure tt
  drop_each (u ∷ us) = do λ s. drop_found (find_user u s) s; drop_each us

  unfoldable pub drop_disconnected : Run (Daemon G) (Unit {0})
  unfolding drop_each
  drop_disconnected d =
      (do with_manager (drop_each d.disconnected); modify (λ d'. record d' { disconnected = [] })) d

  -- The third part.
  unfoldable pub update_rooms : List ℕ → Run (ServerManager G) (Unit {0})
  unfolding Games.update_game
  update_rooms [] = pure tt
  update_rooms (h ∷ hs) = do on h (Games.update_game c); update_rooms hs

  module _ (global : List (Text × (ℕ → List Text → Run (ServerManager G) (Unit {0}))))
      (commands : List (Text × Executor G)) where
    -- The second part.
    unfoldable pub process_queue : ℕ → List Text → Run (ServerManager G) (Unit {0})
    unfolding process_packet
    process_queue u [] = pure tt
    process_queue u (t ∷ ts) = do process_packet c global commands u t; process_queue u ts

    unfoldable pub process_clients : List (ℕ × List Text) → Run (Daemon G) (Unit {0})
    unfolding process_queue
    process_clients [] = pure tt
    process_clients ((u, ts) ∷ l) = do with_manager (process_queue u ts); process_clients l

    -- A tick that no throw interrupts leaves the queues empty.
    unfoldable pub tick : Run (Daemon G) (Unit {0})
    unfolding drop_disconnected process_clients update_rooms rooms
    tick = do
      drop_disconnected
      λ d. process_clients d.clients d
      modify (λ d. record d { clients = map (λ e. (e.0, [])) d.clients })
      with_manager (λ s. update_rooms (rooms s) s)
