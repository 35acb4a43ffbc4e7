-- ===== src/Serializer/Expressions.antt =====
-- Expressions from JSON (parseExpression, parseExpMap, parseExpList and parseEnvironment,
-- jsonSerializer.cpp). The recursion goes down the value: it takes the value's depth for fuel.
pub mod Denotes
pub mod Laws
use social_gaming_platform.Prelude.{ℕ, zero, suc, List, [], ◌∷◌, Text}
use social_gaming_platform.Run.{pure, fault, ◌>>=◌}
use social_gaming_platform.Spec.Expression.{
  Expression, ExpMap, ExpList, exp_map, exp_list, exp_int, exp_bool, exp_string, empty_map,
  empty_list, assign_key, push_back,
}
use social_gaming_platform.Serializer.Json.{
  ValueType, object, array, string, boolean, number_integer, unnamed, Parse, JsonLibrary,
}

module _ {J : Type 0} where
  -- The loops of parseExpMap and parseEnvironment, and of parseExpList, by what they make of an element.
  unfoldable pub parse_entries : (J → Parse Expression) → List (Text × J) → ExpMap → Parse ExpMap
  unfolding assign_key
  parse_entries parse [] m = pure m
  parse_entries parse ((k, v) ∷ l) m = do e ← parse v; parse_entries parse l (assign_key k e m)

  unfoldable pub parse_elements : (J → Parse Expression) → List (Text × J) → ExpList → Parse ExpList
  unfolding push_back
  parse_elements parse [] es = pure es
  parse_elements parse ((k, v) ∷ l) es = do e ← parse v; parse_elements parse l (push_back es e)

module _ {J : Type 0} (lib : JsonLibrary J) where
  unfoldable pub parse_exp_map : (J → Parse Expression) → J → Parse Expression
  unfolding parse_entries
  parse_exp_map parse j = do m ← parse_entries parse (lib.items j) empty_map; pure (exp_map m)

  unfoldable pub parse_exp_list : (J → Parse Expression) → J → Parse Expression
  unfolding parse_elements
  parse_exp_list parse j = do es ← parse_elements parse (lib.items j) empty_list; pure (exp_list es)

  -- The switch of parseExpression.
  unfoldable pub parse_typed : (J → Parse Expression) → ValueType → J → Parse Expression
  unfolding parse_exp_map parse_exp_list
  parse_typed parse string j = do t ← lib.get_string j; pure (exp_string t)
  parse_typed parse number_integer j = do i ← lib.get_int j; pure (exp_int i)
  parse_typed parse boolean j = do b ← lib.get_bool j; pure (exp_bool b)
  parse_typed parse object j = parse_exp_map parse j
  parse_typed parse array j = parse_exp_list parse j
  parse_typed parse unnamed j = fault

  unfoldable pub parse_within : ℕ → J → Parse Expression
  unfolding parse_typed
  parse_within zero j = fault
  parse_within (suc n) j = parse_typed (parse_within n) (lib.type_of j) j

  unfoldable pub parse_expression : J → Parse Expression
  unfolding parse_within
  parse_expression j = parse_within (suc (lib.depth j)) j

  unfoldable pub parse_environment : J → Parse ExpMap
  unfolding parse_entries parse_expression
  parse_environment j = parse_entries parse_expression (lib.items j) empty_map
