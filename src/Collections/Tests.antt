-- ===== src/Collections/Tests.antt =====
-- Weak vectors on small inputs.
use social_gaming_platform.Prelude.{◌≡◌, refl, true, some, List, [], ◌∷◌, map, length}
use social_gaming_platform.Collections.WeakVector.{
  empty_vector, elements, size, release, remove_all,
}
use social_gaming_platform.Collections.WeakVector.Elements.{mem}
use social_gaming_platform.Collections.WeakVector.Laws.{
  Use, emplacing, releasing, use_all, in_use, use_all_lem, has_null, remove_all_lem,
}

-- Three objects, of which the second is dropped.
abbrev uses : List Use
uses = emplacing ∷ emplacing ∷ emplacing ∷ releasing 1 ∷ []

left_two : elements (use_all uses empty_vector) ≡ some 0 ∷ some 2 ∷ []
unfolding use_all elements
left_two = refl

use_all_example :
    (elements (use_all uses empty_vector) ≡ map some (in_use uses 0 []))
    × (size (use_all uses empty_vector) ≡ length (in_use uses 0 []))
use_all_example = use_all_lem uses

two-mem : mem 2 (use_all uses empty_vector).collection ≡ true
unfolding use_all mem
two-mem = refl

remove_all_example :
    (elements (remove_all (use_all uses empty_vector)) ≡ elements (use_all uses empty_vector))
    × (has_null (elements (release 2 (remove_all (use_all uses empty_vector)))) ≡ true)
    × (size (release 2 (remove_all (use_all uses empty_vector))) ≡ size (use_all uses empty_vector))
remove_all_example = remove_all_lem (use_all uses empty_vector) 2 two-mem
