-- ===== src/Daemon/MainLoop/Disconnections.antt =====
-- Closing the socket of a client (module/server/src/Server.cpp).
use social_gaming_platform.Prelude.{
  ℕ, ◌==◌, ◌≡◌, inl, inr, ap, ◌∙◌, none, [], ◌∷◌, ◌++◌, Option-cases,
}
use social_gaming_platform.Run.{ok}
use social_gaming_platform.Server.Registry.{look_up, erase_entry, Once, look_up-erase_entry}
use social_gaming_platform.Daemon.MainLoop.{
  Daemon, find_client, disconnect_found, disconnect, if_client, close_socket,
}

module _ {G : Type 0} where
  -- A socket that is closed twice is handled once.
  pub close_socket_twice :
      (u : ℕ) (d : Daemon G)
      → Once d.clients
      → (d' : Daemon G) × (close_socket u d ≡ ok tt d')
        × (find_client u d' ≡ none)
        × (close_socket u d' ≡ ok tt d')
  unfolding find_client close_socket disconnect
  close_socket_twice u d o = elim (Option-cases (look_up ◌==◌ u d.clients)) [
    | inl e ↦
        (d, ap (λ q. if_client q (disconnect u) d) e, e, ap (λ q. if_client q (disconnect u) d) e)
    | inr (ts, e) ↦
        let d' : Daemon G = record d {
          disconnected = d.disconnected ++ u ∷ [];
          clients = erase_entry ◌==◌ u d.clients;
        } in
        let gone : look_up ◌==◌ u d'.clients ≡ none = look_up-erase_entry u d.clients o in
        (
          d',
          ap (λ q. if_client q (disconnect u) d) e ∙ ap (λ q. disconnect_found u q d) e,
          gone,
          ap (λ q. if_client q (disconnect u) d') gone,
        )
  ]
