-- ===== src/Serializer/Rules.antt =====
-- Rules from JSON (parseRule, ruleSelector and the functions it chooses from, jsonSerializer.cpp). Each
-- of these functions has its body commented out: it is to return a pointer and ends without a `return`.
use social_gaming_platform.Prelude.{◌≡◌, refl, Option, none, some, List, [], ◌∷◌, ◌++◌, Text, codes}
use social_gaming_platform.Run.{ok, pure, fault, ◌>>=◌}
use social_gaming_platform.Spec.Rule.{Rule}
use social_gaming_platform.Serializer.Keys.{lookup}
use social_gaming_platform.Serializer.Json.{Parse, JsonLibrary}
use social_gaming_platform.Serializer.Specification.Stops.{
  continue-eq-ok, Stops, Stops-bind, Stops-rest,
}

-- The functions parseRuleForEach to parseRuleSwitch.
pub data RuleParser : Type 0 where
  foreach parallelfor global_message input_choice discard reverse inparallel extend : RuleParser
  add shuffle message sort deal scores input_text input_vote loop timer when switch : RuleParser

-- The body of such a function.
unfoldable pub parse_with : {J : Type 0} → RuleParser → J → Parse Rule
parse_with f j = fault

abbrev pub rule_parsers : List (Text × RuleParser)
rule_parsers =
    (codes "foreach", foreach)
    ∷ (codes "parallelfor", parallelfor)
    ∷ (codes "global-message", global_message)
    ∷ (codes "input-choice", input_choice)
    ∷ (codes "discard", discard)
    ∷ (codes "reverse", reverse)
    ∷ (codes "inparallel", inparallel)
    ∷ (codes "extend", extend)
    ∷ (codes "add", add)
    ∷ (codes "shuffle", shuffle)
    ∷ (codes "message", message)
    ∷ (codes "sort", sort)
    ∷ (codes "deal", deal)
    ∷ (codes "scores", scores)
    ∷ (codes "input-text", input_text)
    ∷ (codes "input-vote", input_vote)
    ∷ (codes "loop", loop)
    ∷ (codes "timer", timer)
    ∷ (codes "when", when)
    ∷ (codes "switch", switch)
    ∷ []

-- Another name has no `return` either.
abbrev pub selected : {J : Type 0} → Option RuleParser → J → Parse Rule
selected none j = fault
selected (some f) j = parse_with f j

unfoldable pub rule_selector : {J : Type 0} → J → Text → Parse Rule
unfolding lookup parse_with
rule_selector j name = selected (lookup name rule_parsers) j

module _ {J : Type 0} (lib : JsonLibrary J) where
  -- The loop of parseRule.
  unfoldable pub parse_rules : List J → List Rule → Parse (List Rule)
  unfolding rule_selector
  parse_rules [] parsed_rules = pure parsed_rules
  parse_rules (r ∷ rs) parsed_rules = do
    n ← lib.index_or_insert (codes "rule") r
    name ← lib.get_string n
    x ← rule_selector r name
    parse_rules rs (parsed_rules ++ x ∷ [])

  unfoldable pub parse_rule : J → Parse (List Rule)
  unfolding parse_rules
  parse_rule j = do
    v ← lib.index (codes "rules") j
    json_rules ← lib.get_vector v
    parse_rules json_rules []

  selected-Stops : (o : Option RuleParser) (j : J) → Stops (selected o j)
  unfolding parse_with
  selected-Stops none j w r w' e = cc e
  selected-Stops (some f) j w r w' e = cc e

  parse_rules-empty :
      (l : List J) (parsed : List Rule) (w : Unit {0}) {rs : List Rule} {w' : Unit {0}}
      → parse_rules l parsed w ≡ ok rs w'
      → (l ≡ []) × (rs ≡ parsed)
  unfolding parse_rules rule_selector
  parse_rules-empty [] parsed w h = (refl, cc)
  parse_rules-empty (r ∷ l) parsed w {rs} {w'} h = absurd (
      Stops-rest (lib.index_or_insert (codes "rule") r) _
        (λ n. Stops-rest (lib.get_string n) _ (λ name.
          Stops-bind (rule_selector r name) _ (selected-Stops (lookup name rule_parsers) r)))
        w rs w' h)

  -- parseRule returns only where the array of rules is empty, and then it returns no rule.
  pub parse_rule-empty :
      (j : J) (w : Unit {0}) {rs : List Rule} {w' : Unit {0}}
      → parse_rule j w ≡ ok rs w'
      → (v : J) × (u : Unit {0}) × (u' : Unit {0}) × (lib.get_vector v u ≡ ok [] u') × (rs ≡ [])
  unfolding parse_rule
  parse_rule-empty j w h =
      let (v, u, ran, rest) = continue-eq-ok (lib.index (codes "rules") j w) _ h in
      let (l, u', got, rest') = continue-eq-ok (lib.get_vector v u) (λ l. parse_rules l []) rest in
      let (empty, none_parsed) = parse_rules-empty l [] u' rest' in
      (v, u, u', rw empty at got, none_parsed)
