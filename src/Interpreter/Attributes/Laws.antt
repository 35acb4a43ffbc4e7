-- ===== src/Interpreter/Attributes/Laws.antt =====
-- The lists of numbers that `upfrom` makes (module/game_manager/src/DSLInterpreter.cpp).
use social_gaming_platform.Prelude.{
  ℕ, zero, suc, ◌-◌, ◌^◌, ltb, Bool, true, false, ◌&&◌, none, some, Text, if◌then◌else◌, ◌≡◌, arith,
  ap, ◌∙◌, inl, inr, Bool-cases,
}
use social_gaming_platform.Prelude.Int.{ℤ, pos, ◌+ℤ◌, leb_ℤ, ltb_ℤ, eq_ℤ}
use social_gaming_platform.Run.{ok, pure, fault, continue, ◌>>=◌}
use social_gaming_platform.Spec.Expression.{ExpList, exp_list, exp_int, exp_bool, element_at}
use social_gaming_platform.Interpreter.Library.{Library}
use social_gaming_platform.Interpreter.Tokens.{is_all_digits}
use social_gaming_platform.Interpreter.Attributes.{
  inside_parenthesis, numbers_from, rounds, any_int, any_string, lexical, apply_upfrom_attribute,
  apply_contains_attribute,
}

within_rounds :
    (i : ℕ) (lower upper : ℤ) → ltb i (rounds lower upper) ≡ leb_ℤ (lower +ℤ pos i) upper
unfolding rounds ◌+ℤ◌
within_rounds i lower upper = ground arith

+ℤ_suc : (a : ℤ) (n : ℕ) → a +ℤ pos 1 +ℤ pos n ≡ a +ℤ pos (suc n)
unfolding ◌+ℤ◌
+ℤ_suc a n = ground arith

+ℤ_zero : (a : ℤ) → a +ℤ pos 0 ≡ a
unfolding ◌+ℤ◌
+ℤ_zero a = ground arith

element_of_numbers :
    (n : ℕ) (i : ℕ) (lower : ℤ)
    → element_at i (numbers_from lower n)
      ≡ (if ltb i n then some (exp_int (lower +ℤ pos i)) else none)
unfolding numbers_from element_at
element_of_numbers zero i lower = ground arith
element_of_numbers (suc n) zero lower = ground (arith, +ℤ_zero lower)
element_of_numbers (suc n) (suc i) lower =
    ground (arith, element_of_numbers n i (lower +ℤ pos 1), +ℤ_suc lower i)

in_range_never : (k lower : ℤ) → false ≡ (leb_ℤ lower k && ltb_ℤ k (lower +ℤ pos 0))
unfolding ◌+ℤ◌
in_range_never k lower = ground arith

in_range_here :
    (k lower : ℤ) (n : ℕ)
    → eq_ℤ lower k ≡ true
    → true ≡ (leb_ℤ lower k && ltb_ℤ k (lower +ℤ pos (suc n)))
unfolding ◌+ℤ◌
in_range_here k lower n h = ground (arith, h)

in_range_next :
    (k lower : ℤ) (n : ℕ)
    → eq_ℤ lower k ≡ false
    → (leb_ℤ (lower +ℤ pos 1) k && ltb_ℤ k (lower +ℤ pos 1 +ℤ pos n))
      ≡ (leb_ℤ lower k && ltb_ℤ k (lower +ℤ pos (suc n)))
unfolding ◌+ℤ◌
in_range_next k lower n h = ground (arith, h)

any_of_numbers :
    {W : Type 0} (k : ℤ) (n : ℕ) (lower : ℤ) (w : W)
    → any_int k (numbers_from lower n) w ≡ ok (leb_ℤ lower k && ltb_ℤ k (lower +ℤ pos n)) w
unfolding numbers_from any_int
any_of_numbers k zero lower w = ap (λ b. ok b w) (in_range_never k lower)
any_of_numbers k (suc n) lower w = elim (Bool-cases (eq_ℤ lower k)) [
  | inl e ↦ rw e (ap (λ b. ok b w) (in_range_here k lower n e))
  | inr e ↦
      rw e (any_of_numbers k n (lower +ℤ pos 1) w ∙ ap (λ b. ok b w) (in_range_next k lower n e))
]

-- All that is at or below the bound is below the last number and one.
range_end :
    (lower upper k : ℤ)
    → (leb_ℤ lower k && ltb_ℤ k (lower +ℤ pos (rounds lower upper)))
      ≡ (leb_ℤ lower k && leb_ℤ k upper)
unfolding ◌+ℤ◌ rounds
range_end lower upper k = ground arith

upfrom_list :
    {W : Type 0} (lib : Library) (attr : Text) (lower upper : ℤ) (w : W)
    → lib.lexical_cast (inside_parenthesis attr) ≡ some lower
    → eq_ℤ upper (pos (2 ^ 31 - 1)) ≡ false
    → apply_upfrom_attribute lib (exp_int upper) attr w
      ≡ ok (exp_list (numbers_from lower (rounds lower upper))) w
unfolding apply_upfrom_attribute
upfrom_list lib attr lower upper w c f =
    ap
      (λ o.
        (lexical lib o >>= λ n.
        if eq_ℤ upper (pos (2 ^ 31 - 1))
        then fault
        else pure (exp_list (numbers_from n (rounds n upper))))
          w)
      c
    ∙ ap (λ b. (if b then fault else pure (exp_list (numbers_from lower (rounds lower upper)))) w) f

contains_number :
    {W : Type 0} (lib : Library) (attr : Text) (l : ExpList) (k : ℤ) (b : Bool) (w : W)
    → is_all_digits (inside_parenthesis attr) ≡ true
    → lib.lexical_cast (inside_parenthesis attr) ≡ some k
    → any_int k l w ≡ ok b w
    → apply_contains_attribute lib (exp_list l) attr w ≡ ok (exp_bool b) w
unfolding apply_contains_attribute
contains_number lib attr l k b w d c a =
    ap
      (λ t.
        continue
          ((if t
              then (lexical lib (lib.lexical_cast (inside_parenthesis attr)) >>= λ i. any_int i l)
              else any_string (inside_parenthesis attr) l)
            w)
          (λ found. pure (exp_bool found)))
      d
    ∙ ap (λ o. continue ((lexical lib o >>= λ i. any_int i l) w) (λ found. pure (exp_bool found))) c
    ∙ ap (λ o. continue o (λ found. pure (exp_bool found))) a

-- For an int below the largest one, `upfrom(lower)` gives the list of the numbers lower, lower + 1, ... up
-- to the int: its element `i` is lower + i as long as that is not above the int. On that list,
-- `contains(k)` is true exactly for a number k from lower up to the int.
pub upfrom_lem :
    {W : Type 0} (lib : Library) (attr contained : Text) (lower upper k : ℤ) (i : ℕ) (w : W)
    → lib.lexical_cast (inside_parenthesis attr) ≡ some lower
    → eq_ℤ upper (pos (2 ^ 31 - 1)) ≡ false
    → is_all_digits (inside_parenthesis contained) ≡ true
    → lib.lexical_cast (inside_parenthesis contained) ≡ some k
    → (l : ExpList) × (apply_upfrom_attribute lib (exp_int upper) attr w ≡ ok (exp_list l) w)
      × (element_at i l
          ≡ (if leb_ℤ (lower +ℤ pos i) upper then some (exp_int (lower +ℤ pos i)) else none))
      × (apply_contains_attribute lib (exp_list l) contained w
          ≡ ok (exp_bool (leb_ℤ lower k && leb_ℤ k upper)) w)
upfrom_lem lib attr contained lower upper k i w c f d e = (
  numbers_from lower (rounds lower upper),
  upfrom_list lib attr lower upper w c f,
  element_of_numbers (rounds lower upper) i lower
      ∙ ap (λ b. if b then some (exp_int (lower +ℤ pos i)) else none) (within_rounds i lower upper),
  contains_number lib contained (numbers_from lower (rounds lower upper)) k
      (leb_ℤ lower k && leb_ℤ k upper) w d e
      (any_of_numbers k (rounds lower upper) lower w ∙ ap (λ b. ok b w) (range_end lower upper k)),
)
