-- ===== src/Serializer/Specification/Describes.antt =====
-- When a specification says what a JSON value does, and which values say too little.
use social_gaming_platform.Prelude.{◌≡◌, ◌≢◌, Bool, List, [], ◌∷◌, Text, codes}
use social_gaming_platform.Prelude.Int.{ℤ, pos}
use social_gaming_platform.Spec.Expression.{Expression, ExpMap, exp_int, exp_bool, exp_string}
use social_gaming_platform.Spec.State.{GameState}
use social_gaming_platform.Serializer.Json.{object, array, unnamed, JsonLibrary}
use social_gaming_platform.Serializer.Validation.Shape.{Member}
use social_gaming_platform.Serializer.Expressions.Denotes.{Denotes, Entries, SomeUnnamed}
use social_gaming_platform.Serializer.Specification.{
  SetupValue, text_value, int_value, bool_value, Setup, Configuration, Specification,
}

module _ {J : Type 0} (lib : JsonLibrary J) where
  -- The member under a key denotes an expression.
  abbrev pub Holds : Text → J → Expression → Type 0
  Holds k j e = (v : J) × Member lib k j v × Denotes lib v e

  pub data Setting : J → SetupValue → Type 0 where
    a_text : {v : J} {t : Text} → Denotes lib v (exp_string t) → Setting v (text_value t)
    a_number : {v : J} {i : ℤ} → Denotes lib v (exp_int i) → Setting v (int_value i)
    a_flag : {v : J} {b : Bool} → Denotes lib v (exp_bool b) → Setting v (bool_value b)
    zero_for_array : {v : J} → lib.type_of v ≡ array → Setting v (int_value (pos 0))
    zero_for_unnamed : {v : J} → lib.type_of v ≡ unnamed → Setting v (int_value (pos 0))

  pub data Settings : List (Text × J) → Setup → Type 0 where
    no_setting : Settings [] []
    one_setting :
        {k : Text} {v : J} {l : List (Text × J)} {x : SetupValue} {s : Setup}
        → Setting v x
        → Settings l s
        → Settings ((k, v) ∷ l) ((k, x) ∷ s)

  pub record DescribesConfig (c : J) (configuration : Configuration) : Type 0 where
    pub name : Holds (codes "name") c (exp_string configuration.name)
    pub counts : J
    pub count_member : Member lib (codes "player count") c counts
    pub min : Holds (codes "min") counts (exp_int configuration.count.min)
    pub max : Holds (codes "max") counts (exp_int configuration.count.max)
    pub audience : Holds (codes "audience") c (exp_bool configuration.allow_audience)
    pub settings : J
    pub setup_member : Member lib (codes "setup") c settings
    pub setup : Settings (lib.items settings) configuration.setup

  abbrev pub Section : Text → J → ExpMap → Type 0
  Section k j m = (v : J) × Member lib k j v × Entries lib (lib.items v) m

  -- Nothing is queued, stacked or running yet.
  pub record DescribesState (j : J) (s : GameState) : Type 0 where
    pub constants : Section (codes "constants") j s.constants
    pub variables : Section (codes "variables") j s.variables
    pub per_player : Section (codes "per-player") j s.per_player
    pub per_audience : Section (codes "per-audience") j s.per_audience
    pub no_context : s.context ≡ []
    pub no_rule : s.rule_state_stack ≡ []
    pub no_timer : s.timer_list ≡ []
    pub no_request : s.input_requests ≡ []
    pub no_message : s.message_queue ≡ []

  -- Whatever rules the value has, the specification has none.
  pub record Describes (j : J) (s : Specification) : Type 0 where
    pub config : J
    pub config_member : Member lib (codes "configuration") j config
    pub configuration : DescribesConfig config s.configuration
    pub game_state : DescribesState j s.game_state
    pub no_rules : s.rules ≡ []

  pub data Unreadable : J → Type 0 where
    in_section :
        (k : Text) {j v : J} → Member lib k j v → SomeUnnamed lib (lib.items v) → Unreadable j

  -- A setup with no custom question in it.
  abbrev pub NoObject : List (Text × J) → Type 0
  NoObject [] = Unit {0}
  NoObject ((k, v) ∷ l) = (lib.type_of v ≢ object) × NoObject l
