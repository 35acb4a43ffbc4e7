-- ===== src/Spec/Pointer/Laws.antt =====
-- What a write through a pointer does to the reads (module/game_spec/src/ExpressionPtr.cpp).
use social_gaming_platform.Prelude.{
  Bool, true, false, Option, none, some, List, [], ◌∷◌, Text, text_eq, text_eq_iff, if◌then◌else◌,
  ◌≡◌, refl, arith, ap, sym, ◌∙◌, inl, inr, Bool-cases,
}
use social_gaming_platform.Run.{ok}
use social_gaming_platform.Spec.Expression.{
  Expression, ExpMap, exp_map, empty_map, entry, find_key, assign_key,
}
use social_gaming_platform.Spec.Pointer.{
  cast_to_map, nested, follow, get_ptr, within, put_under, put_found, put, store_at, store,
}

pub find_key-assign_key :
    (j k : Text) (x : Expression) (m : ExpMap)
    → find_key j (assign_key k x m) ≡ (if text_eq k j then some x else find_key j m)
unfolding find_key assign_key
find_key-assign_key j k x empty_map = refl
find_key-assign_key j k x (entry n e m) =
    ground (arith, find_key-assign_key j k x m, text_eq_iff n k, text_eq_iff n j, text_eq_iff k j)

pub text_eq_refl : (t : Text) → text_eq t t ≡ true
text_eq_refl t = (text_eq_iff t t).1 refl

cast_map_lem : (m : ExpMap) → cast_to_map (exp_map m) ≡ some m
unfolding cast_to_map
cast_map_lem m = refl

-- Two paths part at some index, so that neither leads through the other's end.
abbrev pub part : List Text → List Text → Bool
part [] q = false
part (i ∷ is) [] = false
part (i ∷ is) (j ∷ js) = if text_eq i j then part is js else true

get_under :
    (is : List Text) (x e d : Expression) (o : Option ExpMap)
    → ((m : ExpMap) (d : Expression) → get_ptr is m ≡ some d → get_ptr is (put is x m) ≡ some x)
    → nested (get_ptr is) o ≡ some d
    → nested (get_ptr is) (cast_to_map (within (put is x) e o)) ≡ some x
unfolding cast_to_map
get_under is x e d none h f = cc
get_under is x e d (some m) h f = h m d f

get_found :
    (is : List Text) (x e d : Expression)
    → ((m : ExpMap) (c : Expression) → get_ptr is m ≡ some c → get_ptr is (put is x m) ≡ some x)
    → follow is (get_ptr is) (some e) ≡ some d
    → follow is (get_ptr is) (some (put_under is x (put is x) e)) ≡ some x
get_found [] x e d ih h = refl
get_found (j ∷ js) x e d ih h = get_under (j ∷ js) x e d (cast_to_map e) ih h

get_put_found :
    (i : Text) (is : List Text) (x d : Expression) (m : ExpMap) (o : Option Expression)
    → ((n : ExpMap) (c : Expression) → get_ptr is n ≡ some c → get_ptr is (put is x n) ≡ some x)
    → follow is (get_ptr is) o ≡ some d
    → follow is (get_ptr is) (find_key i (put_found i (put_under is x (put is x)) m o)) ≡ some x
get_put_found i is x d m none ih h = cc
get_put_found i is x d m (some e) ih h =
    ap (follow is (get_ptr is)) (
      find_key-assign_key i i (put_under is x (put is x) e) m
      ∙ ap (λ b. if b then some (put_under is x (put is x) e) else find_key i m) (text_eq_refl i))
    ∙ get_found is x e d ih h

pub get_put :
    (p : List Text) (x : Expression) (m : ExpMap) (d : Expression)
    → get_ptr p m ≡ some d
    → get_ptr p (put p x m) ≡ some x
unfolding get_ptr put
get_put [] x m d h = cc
get_put (i ∷ is) x m d h = get_put_found i is x d m (find_key i m) (λ n c. get_put is x n c) h

apart_under :
    (is js : List Text) (x e : Expression) (o : Option ExpMap)
    → ((m : ExpMap) → get_ptr js (put is x m) ≡ get_ptr js m)
    → cast_to_map e ≡ o
    → nested (get_ptr js) (cast_to_map (within (put is x) e o)) ≡ nested (get_ptr js) o
unfolding cast_to_map
apart_under is js x e none h c = ap (nested (get_ptr js)) c
apart_under is js x e (some m) h c = h m

apart_found :
    (is js : List Text) (x e : Expression)
    → part is js ≡ true
    → ((m : ExpMap) → get_ptr js (put is x m) ≡ get_ptr js m)
    → follow js (get_ptr js) (some (put_under is x (put is x) e)) ≡ follow js (get_ptr js) (some e)
apart_found [] js x e a ih = cc
apart_found (i ∷ is) [] x e a ih = cc
apart_found (i ∷ is) (j ∷ js) x e a ih = apart_under (i ∷ is) (j ∷ js) x e (cast_to_map e) ih refl

apart_put_found :
    (i j : Text) (is js : List Text) (x : Expression) (m : ExpMap) (o : Option Expression)
    → find_key i m ≡ o
    → (if text_eq i j then part is js else true) ≡ true
    → (part is js ≡ true → (n : ExpMap) → get_ptr js (put is x n) ≡ get_ptr js n)
    → follow js (get_ptr js) (find_key j (put_found i (put_under is x (put is x)) m o))
      ≡ follow js (get_ptr js) (find_key j m)
apart_put_found i j is js x m none f a ih = refl
apart_put_found i j is js x m (some e) f a ih = elim (Bool-cases (text_eq i j)) [
  | inl same ↦
      let inner : part is js ≡ true = ground (arith, same, a) in
      let here : find_key j m ≡ some e =
        ap (λ k. find_key k m) (sym ((text_eq_iff i j).0 same)) ∙ f in
      ap (follow js (get_ptr js)) (
        find_key-assign_key j i (put_under is x (put is x) e) m
        ∙ ap (λ b. if b then some (put_under is x (put is x) e) else find_key j m) same)
      ∙ apart_found is js x e inner (ih inner)
      ∙ ap (follow js (get_ptr js)) (sym here)
  | inr other ↦ ap (follow js (get_ptr js)) (
      find_key-assign_key j i (put_under is x (put is x) e) m
      ∙ ap (λ b. if b then some (put_under is x (put is x) e) else find_key j m) other)
]

apart_put :
    (p q : List Text) (x : Expression) (m : ExpMap)
    → part p q ≡ true
    → get_ptr q (put p x m) ≡ get_ptr q m
unfolding get_ptr put
apart_put [] q x m a = cc
apart_put (i ∷ is) [] x m a = refl
apart_put (i ∷ is) (j ∷ js) x m a =
    apart_put_found i j is js x m (find_key i m) refl a (λ b n. apart_put is js x n b)

pub store_ok :
    {W : Type 0} (p : List Text) (x d : Expression) (m : ExpMap) (w : W)
    → get_ptr p m ≡ some d
    → store p x m w ≡ ok (put p x m) w
unfolding store get_ptr
store_ok [] x d m w h = cc
store_ok (i ∷ is) x d m w h = ap (λ o. store_at (i ∷ is) x m o w) h

-- Storing at a path that leads to an expression succeeds: the path then leads to the expression that was
-- stored, and a path that parts from it leads where it led.
pub store_lem :
    {W : Type 0} (p q : List Text) (x d : Expression) (m : ExpMap) (w : W)
    → get_ptr p m ≡ some d
    → part p q ≡ true
    → (m' : ExpMap) × (store p x m w ≡ ok m' w)
      × (get_ptr p m' ≡ some x)
      × (get_ptr q m' ≡ get_ptr q m)
store_lem p q x d m w h a =
    (put p x m, store_ok p x d m w h, get_put p x m d h, apart_put p q x m a)
