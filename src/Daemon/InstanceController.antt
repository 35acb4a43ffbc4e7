-- ===== src/Daemon/InstanceController.antt =====
-- GameInstanceController (module/server_daemon/src/GameInstanceController.cpp): it runs a game instance
-- and passes its messages on to the players of the room.
use social_gaming_platform.Prelude.{
  ℕ, zero, suc, Option, none, some, List, [], ◌∷◌, ◌++◌, map, Text, codes, text_eq, if◌then◌else◌,
}
use social_gaming_platform.Run.{Run, pure, fault, gets, modify, ◌>>=◌, ◌>>◌}
use social_gaming_platform.Spec.Expression.{
  Expression, ExpMap, exp_map, exp_list, exp_int, exp_bool, exp_string, find_key,
}
use social_gaming_platform.Interpreter.Library.{Library}
use social_gaming_platform.Interpreter.Instance.{Progress, finished, waiting, running, update_state}
use social_gaming_platform.Interpreter.Instance.Hosting.{
  Guest, Hosted, on_state, name_of, ControllerOutgoingMessage, ControllerInputRequest, load_players,
  load_audience, pop_outgoing_player_messages, get_input_requests,
}

-- What a view shows; a view of an entry that is gone dangles.
unfoldable pub text_of : Expression → Option Text
text_of (exp_string t) = some t
text_of (exp_map m) = none
text_of (exp_list l) = none
text_of (exp_int i) = none
text_of (exp_bool b) = none

unfoldable pub view : ℕ → List ExpMap → Option Text
unfolding find_key text_of
view i [] = none
view zero (m ∷ ms) = text_of (name_of (find_key (codes "name") m))
view (suc i) (m ∷ ms) = view i ms

-- The search of the players for the name in a view: the view is read for each player.
unfoldable pub find_recipient : List Guest → Option Text → Run Hosted (Option ℕ)
find_recipient [] to = pure none
find_recipient (g ∷ gs) none = fault
find_recipient (g ∷ gs) (some n) =
    if text_eq g.name n then pure (some g.id) else find_recipient gs (some n)

abbrev pub deliver : Text → Option ℕ → Run Hosted (Unit {0})
deliver t none = pure tt
deliver t (some i) = modify (λ w. record w { sent = w.sent ++ (i, t) ∷ [] })

-- The loops of GameInstanceController::update.
unfoldable pub send_messages : List Guest → List ControllerOutgoingMessage → Run Hosted (Unit {0})
unfolding view find_recipient
send_messages players [] = pure tt
send_messages players (m ∷ ms) = do
  to ← gets (λ w. view m.to (map (λ q. q.target_user) w.state.message_queue))
  recipient ← find_recipient players to
  deliver m.message recipient
  send_messages players ms

abbrev lines : List Text → Text
lines [] = []
lines (c ∷ cs) = (c ++ 10 ∷ []) ++ lines cs

unfoldable pub constructed_message : Text → List Text → Text
constructed_message prompt choices = (prompt ++ 10 ∷ 10 ∷ []) ++ (lines choices ++ 10 ∷ [])

unfoldable pub send_requests : List Guest → List ControllerInputRequest → Run Hosted (Unit {0})
unfolding view find_recipient constructed_message
send_requests players [] = pure tt
send_requests players (r ∷ rs) = do
  to ← gets (λ w. view r.to (map (λ q. q.target_user) w.state.input_requests))
  recipient ← find_recipient players to
  deliver (constructed_message r.prompt r.choices) recipient
  send_requests players rs

-- GameInstanceController::update, where updateState ends within the rounds of these readings; otherwise
-- it is still in updateState.
abbrev pub send_all : List Guest → Progress → Run Hosted Progress
send_all players progress = do
  player_messages ← pop_outgoing_player_messages
  requests ← get_input_requests
  send_messages players player_messages
  send_requests players requests
  pure progress

abbrev pub after_update : List Guest → Progress → Run Hosted Progress
after_update players running = pure running
after_update players finished = send_all players finished
after_update players waiting = send_all players waiting

unfoldable pub update : Library → List ℕ → List Guest → Run Hosted Progress
unfolding update_state send_messages send_requests pop_outgoing_player_messages get_input_requests
update lib readings players = do
  progress ← on_state (update_state lib readings)
  after_update players progress

-- GameInstanceController::start.
unfoldable pub start : List Guest → List Guest → Run Hosted (Unit {0})
unfolding load_players load_audience
start players spectators = do load_players players; load_audience spectators
