-- ===== src/Interpreter/Instance/Tests.antt =====
-- A run of the theorem about messages to players (module/game_manager/include/GameInstance.h).
use social_gaming_platform.Prelude.{none, some, List, [], ◌∷◌, ◌++◌, map, codes, ◌≡◌, refl}
use social_gaming_platform.Prelude.Int.{pos}
use social_gaming_platform.Run.{ok, ◌>>◌}
use social_gaming_platform.Spec.Expression.{ExpMap, exp_int, exp_string, empty_map, entry, find_key}
use social_gaming_platform.Spec.Rule.{null}
use social_gaming_platform.Spec.State.{message_users}
use social_gaming_platform.Interpreter.Instance.{make_instance}
use social_gaming_platform.Interpreter.Instance.Hosting.{Guest, Hosted, on_state, load_players}
use social_gaming_platform.Interpreter.Instance.Announce.{
  name_key, user_of, addressed, announce_lem,
}

-- Each player has two lives.
abbrev lives : ExpMap
lives = entry (codes "lives") (exp_int (pos 2)) empty_map

abbrev hosted : Hosted
hosted = record {
  instance_data = make_instance null;
  state = record {
    constants = empty_map;
    variables = empty_map;
    per_player = lives;
    per_audience = empty_map;
    context = [];
    rule_state_stack = [];
    timer_list = [];
    input_requests = [];
    message_queue = [];
  };
  sent = [];
}

abbrev guests : List Guest
guests = record { name = codes "fox"; id = 7 } ∷ record { name = codes "sloth"; id = 4 } ∷ []

no_name : find_key name_key lives ≡ none
unfolding find_key
no_name = refl

announce_lem_example :
    (w' : Hosted) × ((load_players guests
          >> on_state (message_users (codes "Welcome") (codes "players")))
        hosted
      ≡ ok tt w')
    × (w'.state.message_queue ≡ [] ++ addressed (codes "Welcome") (map (user_of lives) guests))
    × (map (λ u. find_key name_key u) (map (user_of lives) guests)
        ≡ map (λ g. some (exp_string g.name)) guests)
announce_lem_example = announce_lem (codes "Welcome") guests hosted no_name
