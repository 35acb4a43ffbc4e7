-- ===== src/Interpreter/Instance/Hosting.antt =====
-- How a game instance meets the members of its room: the loading of players and spectators, and the
-- messages to them (module/game_manager/include/GameInstance.h).
use social_gaming_platform.Prelude.{
  ℕ, suc, Bool, Option, none, some, List, [], ◌∷◌, Text, codes, text_eq, if◌then◌else◌,
}
use social_gaming_platform.Run.{
  Run, Outcome, ok, threw, undefined, pure, gets, modify, library_exception, ◌>>=◌, ◌>>◌,
}
use social_gaming_platform.Spec.Expression.{
  Expression, ExpMap, ExpList, exp_map, exp_list, exp_int, exp_bool, exp_string, empty_map, entry,
  empty_list, push_back, find_key, assign_key,
}
use social_gaming_platform.Spec.State.{GameState, GameMessage, InputRequest, variable_at}
use social_gaming_platform.Interpreter.Instance.{GameInstance}

-- A member of the room, as the instance sees one.
pub record Guest : Type 0 where
  pub name : Text
  pub id : ℕ

-- An instance with the state that it runs on, and the messages sent so far.
pub record Hosted : Type 0 where
  pub instance_data : GameInstance
  pub state : GameState
  pub sent : List (ℕ × Text)

abbrev pub host : {A : Type 0} → Hosted → Outcome GameState A → Outcome Hosted A
host w (ok a s) = ok a (record w { state = s })
host w (threw e s) = threw e (record w { state = s })
host w undefined = undefined

abbrev pub on_state : {A : Type 0} → Run GameState A → Run Hosted A
on_state m w = host w (m w.state)

-- `user.map[key] = value` for each entry.
unfoldable pub assign_all : ExpMap → ExpMap → ExpMap
unfolding assign_key
assign_all empty_map user = user
assign_all (entry k e m) user = assign_all m (assign_key k e user)

-- The loops of loadPlayers and loadAudience over the members, given the entries that each of them gets.
unfoldable pub make_users : ExpMap → List Guest → ExpList → ExpList
unfolding assign_all assign_key push_back
make_users extra [] users = users
make_users extra (g ∷ gs) users = make_users extra gs (
    push_back users
      (exp_map (assign_all extra (assign_key (codes "name") (exp_string g.name) empty_map))))

-- `map[name] = id`, for each member.
unfoldable pub assign_id : Text → ℕ → List (Text × ℕ) → List (Text × ℕ)
assign_id n i [] = (n, i) ∷ []
assign_id n i (e ∷ es) =
    let rest = assign_id n i es in if text_eq e.0 n then (n, i) ∷ es else e ∷ rest

unfoldable pub track : List Guest → List (Text × ℕ) → List (Text × ℕ)
unfolding assign_id
track [] m = m
track (g ∷ gs) m = track gs (assign_id g.name g.id m)

abbrev pub set_variable : Text → Expression → GameState → GameState
set_variable k e s = record s { variables = assign_key k e s.variables }

-- loadPlayers.
unfoldable pub load_players : List Guest → Run Hosted (Unit {0})
unfolding make_users track assign_key
load_players players = modify (λ w. record w {
  instance_data = record w.instance_data {
    player_name_to_id = track players w.instance_data.player_name_to_id;
  };
  state =
      set_variable (codes "players") (exp_list (make_users w.state.per_player players empty_list))
        w.state;
})

-- boost::get at bool and at std::string.
abbrev bad_get : {W A : Type 0} → Run W A
bad_get w = threw (library_exception (codes "boost::bad_get")) w

unfoldable pub get_bool : {W : Type 0} → Expression → Run W Bool
get_bool (exp_bool b) w = pure b w
get_bool (exp_map m) w = bad_get w
get_bool (exp_list l) w = bad_get w
get_bool (exp_int i) w = bad_get w
get_bool (exp_string t) w = bad_get w

unfoldable pub get_string : {W : Type 0} → Expression → Run W Text
get_string (exp_string t) w = pure t w
get_string (exp_map m) w = bad_get w
get_string (exp_list l) w = bad_get w
get_string (exp_int i) w = bad_get w
get_string (exp_bool b) w = bad_get w

-- loadAudience.
abbrev audience_at : Run GameState Expression
audience_at s = variable_at (codes "audience") (find_key (codes "audience") s.variables) s

unfoldable pub load_audience : List Guest → Run Hosted (Unit {0})
unfolding make_users track assign_key find_key get_bool
load_audience spectators = do
  users ← gets (λ w. make_users w.state.per_audience spectators empty_list)
  modify (λ w. record w {
    instance_data = record w.instance_data {
      spectator_name_to_id = track spectators w.instance_data.spectator_name_to_id;
    };
  })
  audience ← on_state audience_at
  awaited ← get_bool audience
  if awaited
      then modify
          (λ w. record w { state = set_variable (codes "audience") (exp_list users) w.state })
      else pure tt

-- `targetUser.map["name"]`: a user without a name gets the first alternative of the variant, an empty map.
abbrev named : ExpMap → Option Expression → ExpMap
named user none = assign_key (codes "name") (exp_map empty_map) user
named user (some e) = user

abbrev pub name_of : Option Expression → Expression
name_of none = exp_map empty_map
name_of (some e) = e

-- ControllerOutgoingMessage and ControllerInputRequest. The view `to` is the place, in the queue or among
-- the requests, of the user whose name it shows.
pub record ControllerOutgoingMessage : Type 0 where
  pub to : ℕ
  pub message : Text

pub record ControllerInputRequest : Type 0 where
  pub to : ℕ
  pub prompt : Text
  pub choices : List Text

-- The loop of popOutgoingPlayerMessages, from the message at `i` on.
unfoldable pub outgoing_from : ℕ → List GameMessage → Run Hosted (List ControllerOutgoingMessage)
unfolding find_key get_string
outgoing_from i [] = pure []
outgoing_from i (m ∷ ms) = do
  name ← get_string (name_of (find_key (codes "name") m.target_user))
  rest ← outgoing_from (suc i) ms
  pure (record { to = i; message = m.content } ∷ rest)

-- The queue, with what `map["name"]` inserts up to the first message whose name is no text.
unfoldable pub queue_read : List GameMessage → List GameMessage
unfolding find_key assign_key
queue_read [] = []
queue_read (m ∷ ms) =
    let rest = queue_read ms in
    elim (name_of (find_key (codes "name") m.target_user)) [
      | exp_string t ↦ m ∷ rest
      | _ ↦
          record m { target_user = named m.target_user (find_key (codes "name") m.target_user) }
          ∷ ms
    ]

-- popOutgoingPlayerMessages.
unfoldable pub pop_outgoing_player_messages : Run Hosted (List ControllerOutgoingMessage)
unfolding outgoing_from queue_read
pop_outgoing_player_messages w =
    (do
      modify (λ v. record v {
        state = record v.state { message_queue = queue_read v.state.message_queue };
      })
      outgoing ← outgoing_from 0 w.state.message_queue
      modify (λ v. record v { state = record v.state { message_queue = [] } })
      pure outgoing)
      w

-- getInputRequests; the insertion of `map["name"]` is left out where it comes before a throw.
unfoldable pub requests_from : ℕ → List InputRequest → Run Hosted (List ControllerInputRequest)
unfolding find_key get_string
requests_from i [] = pure []
requests_from i (r ∷ rs) = do
  name ← get_string (name_of (find_key (codes "name") r.target_user))
  rest ← requests_from (suc i) rs
  pure (record { to = i; prompt = r.prompt; choices = r.choices } ∷ rest)

unfoldable pub get_input_requests : Run Hosted (List ControllerInputRequest)
unfolding requests_from
get_input_requests w = requests_from 0 w.state.input_requests w
