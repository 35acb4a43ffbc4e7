-- ===== src/Serializer/Tests.antt =====
-- The serializer on a small document.
use social_gaming_platform.Prelude.{◌≡◌, refl, sym, ◌∙◌, true, false, [], ◌∷◌, codes}
use social_gaming_platform.Prelude.Int.{pos}
use social_gaming_platform.Run.{ok}
use social_gaming_platform.Spec.Expression.{
  Expression, exp_map, exp_string, exp_int, entry, empty_map,
}
use social_gaming_platform.Serializer.Keys.{lookup, mem}
use social_gaming_platform.Serializer.Json.{Returns}
use social_gaming_platform.Serializer.Validation.{is_valid_game_spec}
use social_gaming_platform.Serializer.Validation.Shape.{IsGameSpec, Decides}
use social_gaming_platform.Serializer.Validation.Decision.{is_valid_game_spec_lem}
use social_gaming_platform.Serializer.Expressions.{parse_expression}
use social_gaming_platform.Serializer.Expressions.Laws.{Parses, Ends, parse_expression_lem}
use social_gaming_platform.Serializer.Sample.{
  document, configuration, settings, constants, weapon, high, server, nodes, nodes-IsDocumented,
}
use social_gaming_platform.Serializer.Specification.{
  Specification, int_value, parse_game_specification,
}
use social_gaming_platform.Serializer.Specification.Describes.{Describes, Unreadable, NoObject}
use social_gaming_platform.Serializer.Specification.Laws.{
  parse_game_specification_lem, parse_game_specification_sound,
}
use social_gaming_platform.Serializer.Validation.Shape.{Member}
use social_gaming_platform.Serializer.Rules.{parse_rule}
use social_gaming_platform.Serializer.ServerConfig.{is_valid_server_config}

is_valid_document : is_valid_game_spec nodes document tt ≡ ok true tt
unfolding is_valid_game_spec mem lookup
is_valid_document = refl

is_valid_weapon : is_valid_game_spec nodes weapon tt ≡ ok false tt
unfolding is_valid_game_spec mem lookup
is_valid_weapon = refl

parse_weapon :
    parse_expression nodes weapon tt
    ≡ ok
        (exp_map (
          entry
            (codes "beats")
            (exp_string (codes "Rock"))
            (entry (codes "power") (exp_int (pos 4)) empty_map)))
        tt
unfolding parse_expression
parse_weapon = refl

is_valid_game_spec_example : Decides (is_valid_game_spec nodes document) (IsGameSpec nodes document)
is_valid_game_spec_example = is_valid_game_spec_lem nodes nodes-IsDocumented document

parse_expression_example : Parses nodes (parse_expression nodes) constants
parse_expression_example = parse_expression_lem nodes nodes-IsDocumented constants

abbrev rock : Expression
rock = exp_map (
    entry (codes "beats") (exp_string (codes "Rock"))
      (entry (codes "power") (exp_int (pos 4)) empty_map))

abbrev parsed : Specification
parsed = record {
  configuration = record {
    name = codes "Rock";
    count = record { min = pos 2; max = pos 4 };
    allow_audience = true;
    setup = (codes "0", int_value (pos 4)) ∷ [];
  };
  game_state = record {
    constants = entry (codes "0") rock empty_map;
    variables = empty_map;
    per_player = empty_map;
    per_audience = empty_map;
    context = [];
    rule_state_stack = [];
    timer_list = [];
    input_requests = [];
    message_queue = [];
  };
  rules = [];
}

parse_document : parse_game_specification nodes document tt ≡ ok parsed tt
unfolding parse_game_specification mem lookup
parse_document = refl

document-IsGameSpec : IsGameSpec nodes document
document-IsGameSpec =
    let (b, run, (sound, complete)) = is_valid_game_spec_lem nodes nodes-IsDocumented document in
    let valid : b ≡ true = cc (sym (run tt) ∙ is_valid_document) in sound valid

configuration-Member : Member nodes (codes "configuration") document configuration
unfolding lookup
configuration-Member = refl

settings-Member : Member nodes (codes "setup") configuration settings
unfolding lookup
settings-Member = refl

settings-NoObject : NoObject nodes (nodes.items settings)
settings-NoObject = (λ e. cc e, tt)

parse_game_specification_example :
    Ends
      (parse_game_specification nodes document)
      (Describes nodes document)
      (Unreadable nodes document)
parse_game_specification_example =
    parse_game_specification_lem nodes nodes-IsDocumented document configuration settings
      document-IsGameSpec configuration-Member settings-Member settings-NoObject

server-Returns : Returns (is_valid_server_config nodes server) true
unfolding is_valid_server_config
server-Returns w = refl

port-Member : Member nodes (codes "port") server high
unfolding lookup
port-Member = refl

parse_no_rules : parse_rule nodes document tt ≡ ok [] tt
unfolding parse_rule lookup
parse_no_rules = refl

parse_game_specification_sound_example : IsGameSpec nodes document
parse_game_specification_sound_example =
    parse_game_specification_sound nodes nodes-IsDocumented document tt parse_document
