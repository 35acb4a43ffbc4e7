-- ===== src/Serializer/Specification.antt =====
-- Game specifications from JSON (parseGameSpecification and what it calls but for the expressions,
-- jsonSerializer.cpp), with their type (module/game_spec/include/GameSpecification.h).
pub mod Describes
pub mod Parts
pub mod Stops
pub mod Laws
use social_gaming_platform.Prelude.{
  Bool, true, false, Option, none, some, List, [], ◌∷◌, Text, codes,
}
use social_gaming_platform.Prelude.Int.{pos, ℤ}
use social_gaming_platform.Run.{pure, fault, ◌>>=◌}
use social_gaming_platform.Spec.Expression.{ExpMap}
use social_gaming_platform.Spec.Rule.{Rule}
use social_gaming_platform.Spec.State.{GameState}
use social_gaming_platform.Serializer.Keys.{lookup, assign}
use social_gaming_platform.Serializer.Json.{
  ValueType, object, array, string, boolean, number_integer, unnamed, Parse, JsonLibrary,
}
use social_gaming_platform.Serializer.Expressions.{parse_environment}
use social_gaming_platform.Serializer.Validation.{is_valid_game_spec}

pub data DataKind : Type 0 where
  integer_kind string_kind boolean_kind question_answer multiple_choice : DataKind

pub record CustomSetup : Type 0 where
  pub kind : DataKind
  pub prompt : Text

-- boost::variant, in the order of its alternatives.
pub data SetupValue : Type 0 where
  custom : CustomSetup → SetupValue
  text_value : Text → SetupValue
  int_value : ℤ → SetupValue
  bool_value : Bool → SetupValue

abbrev pub Setup : Type 0
Setup = List (Text × SetupValue)

pub record PlayerCount : Type 0 where
  pub min : ℤ
  pub max : ℤ

pub record Configuration : Type 0 where
  pub name : Text
  pub count : PlayerCount
  pub allow_audience : Bool
  pub setup : Setup

pub record Specification : Type 0 where
  pub configuration : Configuration
  pub game_state : GameState
  pub rules : List Rule

-- strToKind.
abbrev pub str_to_kind : List (Text × DataKind)
str_to_kind =
    (codes "integer", integer_kind)
    ∷ (codes "string", string_kind)
    ∷ (codes "boolean", boolean_kind)
    ∷ (codes "question-answer", question_answer)
    ∷ (codes "multiple-choice", multiple_choice)
    ∷ []

-- `if (it != strToKind.end()) { assert(false); } return it->second;`: without the assert, which the
-- default build, a release, leaves out, this returns what was found; past the end there is nothing to read.
abbrev pub kind_at : Option DataKind → Parse DataKind
kind_at (some k) = pure k
kind_at none = fault

module _ {J : Type 0} (lib : JsonLibrary J) where
  unfoldable pub parse_data_kind : J → Parse DataKind
  unfolding lookup
  parse_data_kind j = do str ← lib.get_string j; kind_at (lookup str str_to_kind)

  unfoldable pub parse_custom_setup : J → Parse CustomSetup
  unfolding parse_data_kind
  parse_custom_setup j = do
    k ← lib.at (codes "kind") j
    kind ← parse_data_kind k
    p ← lib.at (codes "prompt") j
    prompt ← lib.get_string p
    pure (record { kind = kind; prompt = prompt })

  -- The switch of parseSetupValue. The assert of its default arm is left out by the default build.
  unfoldable pub setup_value_of : ValueType → J → Parse SetupValue
  unfolding parse_custom_setup
  setup_value_of string j = do t ← lib.get_string j; pure (text_value t)
  setup_value_of number_integer j = do i ← lib.get_int j; pure (int_value i)
  setup_value_of boolean j = do b ← lib.get_bool j; pure (bool_value b)
  setup_value_of object j = do c ← parse_custom_setup j; pure (custom c)
  setup_value_of array j = pure (int_value (pos 0))
  setup_value_of unnamed j = pure (int_value (pos 0))

  unfoldable pub parse_setup_value : J → Parse SetupValue
  unfolding setup_value_of
  parse_setup_value j = setup_value_of (lib.type_of j) j

  -- The loop of parseSetup.
  unfoldable pub parse_settings : List (Text × J) → Setup → Parse Setup
  unfolding parse_setup_value assign
  parse_settings [] s = pure s
  parse_settings ((k, v) ∷ l) s = do x ← parse_setup_value v; parse_settings l (assign k x s)

  unfoldable pub parse_setup : J → Parse Setup
  unfolding parse_settings
  parse_setup j = do setup ← lib.at (codes "setup") j; parse_settings (lib.items setup) []

  unfoldable pub parse_config : J → Parse Configuration
  unfolding parse_setup
  parse_config j = do
    n ← lib.index (codes "name") j
    name ← lib.get_string n
    count ← lib.index (codes "player count") j
    m ← lib.index (codes "min") count
    min ← lib.get_int m
    count' ← lib.index (codes "player count") j
    m' ← lib.index (codes "max") count'
    max ← lib.get_int m'
    a ← lib.index (codes "audience") j
    allow_audience ← lib.get_bool a
    setup ← parse_setup j
    pure (record {
      name = name;
      count = record { min = min; max = max };
      allow_audience = allow_audience;
      setup = setup;
    })

  -- `parseEnvironment(j["…"])`.
  unfoldable pub parse_section : Text → J → Parse ExpMap
  unfolding parse_environment
  parse_section k j = do v ← lib.index k j; parse_environment lib v

  unfoldable pub parse_game_state : J → Parse GameState
  unfolding parse_section
  parse_game_state j = do
    constants ← parse_section (codes "constants") j
    variables ← parse_section (codes "variables") j
    per_player ← parse_section (codes "per-player") j
    per_audience ← parse_section (codes "per-audience") j
    pure (record {
      constants = constants;
      variables = variables;
      per_player = per_player;
      per_audience = per_audience;
      context = [];
      rule_state_stack = [];
      timer_list = [];
      input_requests = [];
      message_queue = [];
    })

  -- The right of the validation. `throw;` where no exception is being handled ends the process.
  unfoldable pub parse_valid : Bool → J → Parse Specification
  unfolding parse_config parse_game_state
  parse_valid false j = fault
  parse_valid true j = do
    c ← lib.index (codes "configuration") j
    configuration ← parse_config c
    game_state ← parse_game_state j
    pure (record { configuration = configuration; game_state = game_state; rules = [] })

  unfoldable pub parse_game_specification : J → Parse Specification
  unfolding parse_valid is_valid_game_spec
  parse_game_specification j = do valid ← is_valid_game_spec lib j; parse_valid valid j
