-- ===== src/Communication/Tests.antt =====
-- Runs of the theorems about signals and channels (module/common_communication/include).
use social_gaming_platform.Prelude.{
  ℕ, Bool, true, Option, some, List, [], ◌∷◌, ◌++◌, map, ltb, ◌≡◌, ◌+◌, ◌%◌, refl,
}
use social_gaming_platform.Communication.Signal.{
  Signal, listen, listen_once, emit, remove, listeners_lem,
}
use social_gaming_platform.Communication.Channel.{Action, sending, receiving, run, sent_by, run_lem}

-- One listener, number 7, under the id 0.
abbrev one_listener : Signal ℕ
one_listener = record {
  next_listener_id = 1;
  listeners_once = [];
  listeners = record { listener = 7; listener_id = 0 } ∷ [];
}

listeners_lem_example :
    (let s' = (listen_once 65536 8 one_listener).1 in
      ((emit (listen 65536 8 one_listener).1).0 ≡ (emit one_listener).0 ++ 8 ∷ [])
      × ((remove (listen 65536 8 one_listener).0 (listen 65536 8 one_listener).1).0 ≡ true)
      × ((remove (listen 65536 8 one_listener).0 (listen 65536 8 one_listener).1).1
          ≡ record one_listener { next_listener_id = (one_listener.next_listener_id + 1) % 65536 })
      × ((emit s').0
          ≡ map (λ c. c.listener) one_listener.listeners_once
            ++ (8 ∷ map (λ c. c.listener) one_listener.listeners))
      × ((emit (emit s').1).0 ≡ map (λ c. c.listener) one_listener.listeners))
listeners_lem_example = listeners_lem 65536 8 one_listener refl

abbrev small : Option (ℕ → Bool)
small = some (λ n. ltb n 10)

-- Two senders and a receiver.
abbrev trace : List (Action ℕ)
trace = sending 4 ∷ sending 40 ∷ receiving ∷ sending 5 ∷ receiving ∷ receiving ∷ []

run_lem_example :
    (let r = run trace (record { queue = 1 ∷ []; accepts = small }) in
      r.0 ++ r.1.queue ≡ (1 ∷ []) ++ sent_by small trace)
run_lem_example = run_lem trace (1 ∷ []) small
