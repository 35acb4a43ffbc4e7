-- ===== src/Server/Registry.antt =====
-- std::unordered_map as ServerManager uses it (module/server/include/ServerManager.hpp): entries, each key
-- once, in the order in which the map is iterated.
use social_gaming_platform.Prelude.{
  ℕ, Bool, false, Option, none, some, List, [], ◌∷◌, ◌==◌, ==_iff, if◌then◌else◌, ◌≡◌, refl, arith,
  ap, sym, ◌∙◌, inl, inr, Bool-cases,
}

module _ {K V : Type 0} (eq : K → K → Bool) where
  -- find, and arepa::find_in_map.
  unfoldable pub look_up : K → List (K × V) → Option V
  look_up k [] = none
  look_up k (e ∷ es) = if eq e.0 k then some e.1 else look_up k es

  -- emplace and insert keep an entry that is there.
  unfoldable pub emplace : K → V → List (K × V) → List (K × V)
  emplace k v [] = (k, v) ∷ []
  emplace k v (e ∷ es) = if eq e.0 k then e ∷ es else e ∷ emplace k v es

  -- erase.
  unfoldable pub erase_entry : K → List (K × V) → List (K × V)
  erase_entry k [] = []
  erase_entry k (e ∷ es) = if eq e.0 k then es else e ∷ erase_entry k es

-- No key has two entries.
abbrev pub Once : {V : Type 0} → List (ℕ × V) → Type 0
Once [] = Unit {0}
Once (e ∷ es) = (look_up ◌==◌ e.0 es ≡ none) × Once es

module _ {V : Type 0} where
  pub look_up-erase_other :
      (j k : ℕ) (es : List (ℕ × V))
      → look_up ◌==◌ j es ≡ none
      → look_up ◌==◌ j (erase_entry ◌==◌ k es) ≡ none
  unfolding look_up erase_entry
  look_up-erase_other j k [] h = refl
  look_up-erase_other j k (e ∷ es) h = ground (arith, look_up-erase_other j k es)

  pub look_up-erase_entry :
      (k : ℕ) (es : List (ℕ × V)) → Once es → look_up ◌==◌ k (erase_entry ◌==◌ k es) ≡ none
  unfolding look_up erase_entry
  look_up-erase_entry k [] o = refl
  look_up-erase_entry k (e ∷ es) o = elim (Bool-cases (e.0 == k)) [
    | inl h ↦ rw h (ap (λ j. look_up ◌==◌ j es) (sym ((==_iff e.0 k).0 h)) ∙ o.0)
    | inr h ↦ rw h (
        ap (λ b. if b then some e.1 else look_up ◌==◌ k (erase_entry ◌==◌ k es)) h
        ∙ look_up-erase_entry k es o.1)
  ]

  pub erase_entry-Once : (k : ℕ) (es : List (ℕ × V)) → Once es → Once (erase_entry ◌==◌ k es)
  unfolding erase_entry
  erase_entry-Once k [] o = tt
  erase_entry-Once k (e ∷ es) o = elim (Bool-cases (e.0 == k)) [
    | inl h ↦ rw h o.1
    | inr h ↦ rw h (look_up-erase_other e.0 k es o.0, erase_entry-Once k es o.1)
  ]

  pub look_up-emplace :
      (k : ℕ) (v : V) (es : List (ℕ × V))
      → look_up ◌==◌ k es ≡ none
      → look_up ◌==◌ k (emplace ◌==◌ k v es) ≡ some v
  unfolding look_up emplace
  look_up-emplace k v [] h = ground (arith, ==_iff k k)
  look_up-emplace k v (e ∷ es) h = ground (arith, look_up-emplace k v es)

  look_up-emplace_other :
      (j k : ℕ) (v : V) (es : List (ℕ × V))
      → (j == k) ≡ false
      → look_up ◌==◌ j es ≡ none
      → look_up ◌==◌ j (emplace ◌==◌ k v es) ≡ none
  unfolding look_up emplace
  look_up-emplace_other j k v [] d h = ground (arith, d)
  look_up-emplace_other j k v (e ∷ es) d h = ground (arith, look_up-emplace_other j k v es d)

  pub emplace-Once : (k : ℕ) (v : V) (es : List (ℕ × V)) → Once es → Once (emplace ◌==◌ k v es)
  unfolding emplace look_up
  emplace-Once k v [] o = (refl, tt)
  emplace-Once k v (e ∷ es) o = elim (Bool-cases (e.0 == k)) [
    | inl h ↦ rw h o
    | inr h ↦ rw h (look_up-emplace_other e.0 k v es h o.0, emplace-Once k v es o.1)
  ]
