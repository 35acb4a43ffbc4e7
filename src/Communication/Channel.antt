-- ===== src/Communication/Channel.antt =====
-- The channels between threads with one queue
-- (module/common_communication/include/ChannelSingleQueue.hpp). Every method holds a lock, so threads
-- interleave whole methods: a run is a list of them.
use social_gaming_platform.Prelude.{
  append_assoc, append_nil, ℕ, Bool, true, false, Option, none, some, List, [], ◌∷◌, ◌++◌, length,
  if◌then◌else◌, ◌≡◌, ap, sym, ◌∙◌,
}

pub record ChannelSingleQueue (T : Type 0) : Type 0 where
  pub queue : List T
  pub accepts : Option (T → Bool)

module _ {T : Type 0} where
  unfoldable pub make_queue : Option (T → Bool) → ChannelSingleQueue T
  make_queue f = record { queue = []; accepts = f }

  -- `!is_rejected(message)`.
  abbrev pub accepted : Option (T → Bool) → T → Bool
  accepted none t = true
  accepted (some f) t = f t

  unfoldable pub queue_count : ChannelSingleQueue T → ℕ
  queue_count q = length q.queue

  unfoldable pub send : T → ChannelSingleQueue T → ChannelSingleQueue T
  send t q = if accepted q.accepts t then record q { queue = q.queue ++ t ∷ [] } else q

  abbrev pub front : List T → Option T
  front [] = none
  front (t ∷ ts) = some t

  abbrev pub popped : List T → List T
  popped [] = []
  popped (t ∷ ts) = ts

  unfoldable pub receive : ChannelSingleQueue T → Option T × ChannelSingleQueue T
  receive q = (front q.queue, record q { queue = popped q.queue })

-- What the threads do with one queue, in the order in which they get the lock.
pub data Action (T : Type 0) : Type 0 where
  sending : T → Action T
  receiving : Action T

module _ {T : Type 0} where
  abbrev got : Option T → List T → List T
  got none ts = ts
  got (some t) ts = t ∷ ts

  -- The messages that were received, and the queue that is left.
  unfoldable pub run : List (Action T) → ChannelSingleQueue T → List T × ChannelSingleQueue T
  unfolding send receive
  run [] q = ([], q)
  run (sending t ∷ acts) q = run acts (send t q)
  run (receiving ∷ acts) q = let rest = run acts (receive q).1 in (got (receive q).0 rest.0, rest.1)

  -- The messages that are sent and accepted.
  abbrev pub sent_by : Option (T → Bool) → List (Action T) → List T
  sent_by f [] = []
  sent_by f (sending t ∷ acts) = if accepted f t then t ∷ sent_by f acts else sent_by f acts
  sent_by f (receiving ∷ acts) = sent_by f acts

  abbrev Ordered : List (Action T) → List T → Option (T → Bool) → Type 0
  Ordered acts ts f =
      (let r = run acts (record { queue = ts; accepts = f }) in
        r.0 ++ r.1.queue ≡ ts ++ sent_by f acts)

  -- One message more, by whether it is accepted.
  sending-Ordered :
      (t : T) (acts : List (Action T)) (ts : List T) (f : Option (T → Bool)) (b : Bool)
      → ((us : List T) → Ordered acts us f)
      → (let r = run acts (
            if b
            then record { queue = ts ++ t ∷ []; accepts = f }
            else record { queue = ts; accepts = f }) in
          r.0 ++ r.1.queue ≡ ts ++ (if b then t ∷ sent_by f acts else sent_by f acts))
  sending-Ordered t acts ts f true h = h (ts ++ t ∷ []) ∙ append_assoc ts (t ∷ []) (sent_by f acts)
  sending-Ordered t acts ts f false h = h ts

  -- Whatever threads send and receive, in whatever order: the messages that were received, and then those
  -- that still wait, are those that waited at first and then those that were sent and accepted, each
  -- once and in their order.
  pub run_lem :
      (acts : List (Action T)) (ts : List T) (f : Option (T → Bool))
      → (let r = run acts (record { queue = ts; accepts = f }) in
          r.0 ++ r.1.queue ≡ ts ++ sent_by f acts)
  unfolding run send receive
  run_lem [] ts f = sym (append_nil ts)
  run_lem (sending t ∷ acts) ts f =
      sending-Ordered t acts ts f (accepted f t) (λ us. run_lem acts us f)
  run_lem (receiving ∷ acts) [] f = run_lem acts [] f
  run_lem (receiving ∷ acts) (t ∷ ts) f = ap (λ l. t ∷ l) (run_lem acts ts f)
