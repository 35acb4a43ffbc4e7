-- ===== src/Communication/Signal.antt =====
-- Signal (module/common_communication/include/Signal.hpp). A listener is any value; to emit is to say
-- which listeners are called, and in which order.
use social_gaming_platform.Prelude.{
  append_assoc, ℕ, ◌+◌, ◌%◌, Bool, true, false, ◌||◌, List, [], ◌∷◌, ◌++◌, map, length, ◌==◌,
  if◌then◌else◌, ◌≡◌, refl, arith, ap, sym, ◌∙◌, ==_iff,
}

-- Signal::Container.
pub record Container (L : Type 0) : Type 0 where
  pub listener : L
  pub listener_id : ℕ

pub record Signal (L : Type 0) : Type 0 where
  pub next_listener_id : ℕ
  pub listeners_once : List (Container L)
  pub listeners : List (Container L)

-- `id_mod` is the number of values of a uint_fast16_t, which depends on the platform.
module _ {L : Type 0} (id_mod : ℕ) where
  -- The id of a listener, with the signal that has it.
  unfoldable pub listen : L → Signal L → ℕ × Signal L
  listen l s = (
    s.next_listener_id,
    record s {
      next_listener_id = (s.next_listener_id + 1) % id_mod;
      listeners = s.listeners ++ record { listener = l; listener_id = s.next_listener_id } ∷ [];
    },
  )

  unfoldable pub listen_once : L → Signal L → ℕ × Signal L
  listen_once l s = (
    s.next_listener_id,
    record s {
      next_listener_id = (s.next_listener_id + 1) % id_mod;
      listeners_once =
          s.listeners_once ++ record { listener = l; listener_id = s.next_listener_id } ∷ [];
    },
  )

module _ {L : Type 0} where
  unfoldable pub listener_count : Signal L → ℕ
  listener_count s = length s.listeners

  abbrev pub has_listener : ℕ → List (Container L) → Bool
  has_listener id [] = false
  has_listener id (c ∷ cs) = c.listener_id == id || has_listener id cs

  -- std::remove and erase: every container with the id goes.
  abbrev pub without : ℕ → List (Container L) → List (Container L)
  without id [] = []
  without id (c ∷ cs) = if c.listener_id == id then without id cs else c ∷ without id cs

  unfoldable pub remove : ℕ → Signal L → Bool × Signal L
  remove id s =
      if has_listener id s.listeners
      then (true, record s { listeners = without id s.listeners })
      else if has_listener id s.listeners_once
      then (true, record s { listeners_once = without id s.listeners_once })
      else (false, s)

  unfoldable pub remove_all : Signal L → ℕ × Signal L
  remove_all s = (
    length s.listeners_once + length s.listeners,
    record s { listeners_once = []; listeners = [] },
  )

  -- The listeners that are called, the once-listeners first.
  unfoldable pub emit : Signal L → List L × Signal L
  emit s = (
    map (λ c. c.listener) s.listeners_once ++ map (λ c. c.listener) s.listeners,
    record s { listeners_once = [] },
  )

  without-last :
      (id : ℕ) (cs : List (Container L)) (l : L)
      → has_listener id cs ≡ false
      → without id (cs ++ record { listener = l; listener_id = id } ∷ []) ≡ cs
  without-last id [] l h = ground (arith, ==_iff id id)
  without-last id (c ∷ cs) l h = ground (arith, without-last id cs l)

  has-last :
      (id : ℕ) (cs : List (Container L)) (l : L)
      → has_listener id (cs ++ record { listener = l; listener_id = id } ∷ []) ≡ true
  has-last id [] l = ground (arith, ==_iff id id)
  has-last id (c ∷ cs) l = ground (arith, has-last id cs l)

  map-append :
      {B : Type 0} (f : Container L → B) (xs ys : List (Container L))
      → map f (xs ++ ys) ≡ map f xs ++ map f ys
  map-append f [] ys = refl
  map-append f (x ∷ xs) ys = ap (λ zs. f x ∷ zs) (map-append f xs ys)

  listen_lem :
      (id_mod : ℕ) (l : L) (s : Signal L)
      → has_listener s.next_listener_id s.listeners ≡ false
      → ((emit (listen id_mod l s).1).0 ≡ (emit s).0 ++ l ∷ [])
        × ((remove (listen id_mod l s).0 (listen id_mod l s).1).0 ≡ true)
        × ((remove (listen id_mod l s).0 (listen id_mod l s).1).1
            ≡ record s { next_listener_id = (s.next_listener_id + 1) % id_mod })
  unfolding listen emit remove
  listen_lem id_mod l s fresh = (
    ap (λ ls. map (λ c. c.listener) s.listeners_once ++ ls)
          (map-append (λ c. c.listener) s.listeners _)
        ∙ sym (
            append_assoc (map (λ c. c.listener) s.listeners_once)
              (map (λ c. c.listener) s.listeners) (l ∷ [])),
    rw (has-last s.next_listener_id s.listeners l) refl,
    rw (has-last s.next_listener_id s.listeners l) (
        ap (λ ls. record s { next_listener_id = (s.next_listener_id + 1) % id_mod; listeners = ls })
          (without-last s.next_listener_id s.listeners l fresh)),
  )

  listen_once_lem :
      (id_mod : ℕ) (l : L) (s : Signal L)
      → (let s' = (listen_once id_mod l s).1 in
          ((emit s').0
            ≡ map (λ c. c.listener) s.listeners_once ++ (l ∷ map (λ c. c.listener) s.listeners))
          × ((emit (emit s').1).0 ≡ map (λ c. c.listener) s.listeners))
  unfolding listen_once emit
  listen_once_lem id_mod l s = (
    ap (λ ls. ls ++ map (λ c. c.listener) s.listeners)
          (map-append (λ c. c.listener) s.listeners_once _)
        ∙ append_assoc (map (λ c. c.listener) s.listeners_once) (l ∷ [])
            (map (λ c. c.listener) s.listeners),
    refl,
  )

  -- A listener that is added, under an id that no listener of the signal has, is called last by the next
  -- emission, and removing it by its id leaves the signal as it was, but for the next id. A listener that is added for one emission
  -- is called by the next emission, before every listener that stays, and by none after it.
  pub listeners_lem :
      (id_mod : ℕ) (l : L) (s : Signal L)
      → has_listener s.next_listener_id s.listeners ≡ false
      → (let s' = (listen_once id_mod l s).1 in
          ((emit (listen id_mod l s).1).0 ≡ (emit s).0 ++ l ∷ [])
          × ((remove (listen id_mod l s).0 (listen id_mod l s).1).0 ≡ true)
          × ((remove (listen id_mod l s).0 (listen id_mod l s).1).1
              ≡ record s { next_listener_id = (s.next_listener_id + 1) % id_mod })
          × ((emit s').0
              ≡ map (λ c. c.listener) s.listeners_once ++ (l ∷ map (λ c. c.listener) s.listeners))
          × ((emit (emit s').1).0 ≡ map (λ c. c.listener) s.listeners))
  listeners_lem id_mod l s fresh =
      let kept = listen_lem id_mod l s fresh in
      let once = listen_once_lem id_mod l s in (kept.0, kept.1, kept.2, once.0, once.1)
