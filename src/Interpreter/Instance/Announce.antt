-- ===== src/Interpreter/Instance/Announce.antt =====
-- Messages to the players that were loaded into a game (GameInstance::loadPlayers of
-- module/game_manager/include/GameInstance.h, GameState::enqueueGlobalMessage of
-- module/game_spec/include/GameState.h).
use social_gaming_platform.Prelude.{
  none, some, List, [], ◌∷◌, ◌++◌, map, Text, codes, text_eq, if◌then◌else◌, append_assoc,
  append_nil, ◌≡◌, refl, ap, sym, ◌∙◌, inl, inr, Bool-cases,
}
use social_gaming_platform.Run.{ok, modify, ◌>>=◌, ◌>>◌}
use social_gaming_platform.Spec.Expression.{
  Expression, ExpMap, ExpList, exp_map, exp_list, exp_string, empty_map, entry, empty_list, element,
  push_back, find_key, assign_key, cast_map, cast_list,
}
use social_gaming_platform.Spec.Pointer.Laws.{find_key-assign_key, text_eq_refl}
use social_gaming_platform.Spec.State.{
  GameState, GameMessage, check_named, send_to_users, variable_at, message_users, enqueue_message,
}
use social_gaming_platform.Interpreter.Instance.Hosting.{
  Guest, Hosted, on_state, host, set_variable, assign_all, make_users, track, load_players,
}

abbrev pub name_key : Text
name_key = codes "name"

-- The map of a player.
abbrev pub user_of : ExpMap → Guest → ExpMap
user_of extra g = assign_all extra (assign_key name_key (exp_string g.name) empty_map)

keeps_name :
    (extra u : ExpMap) (e : Expression)
    → find_key name_key extra ≡ none
    → find_key name_key u ≡ some e
    → find_key name_key (assign_all extra u) ≡ some e
unfolding assign_all find_key
keeps_name empty_map u e a h = h
keeps_name (entry k x m) u e a h = elim (Bool-cases (text_eq k name_key)) [
  | inl same ↦ cc (sym (ap (λ b. if b then some x else find_key name_key m) same) ∙ a)
  | inr other ↦
      keeps_name m (assign_key k x u) e
        (sym (ap (λ b. if b then some x else find_key name_key m) other) ∙ a)
        (find_key-assign_key name_key k x u
          ∙ ap (λ b. if b then some x else find_key name_key u) other
          ∙ h)
]

user_named :
    (extra : ExpMap) (g : Guest)
    → find_key name_key extra ≡ none
    → find_key name_key (user_of extra g) ≡ some (exp_string g.name)
user_named extra g a = keeps_name extra _ (exp_string g.name) a (
    find_key-assign_key name_key name_key (exp_string g.name) empty_map
    ∙ ap (λ b. if b then some (exp_string g.name) else find_key name_key empty_map)
        (text_eq_refl name_key))

-- The messages of one text to users.
abbrev pub addressed : Text → List ExpMap → List GameMessage
addressed t us = map (λ u. record { target_user = u; content = t }) us

abbrev queued : GameState → List GameMessage → GameState
queued s ms = record s { message_queue = s.message_queue ++ ms }

abbrev list_of : List ExpMap → ExpList
list_of [] = empty_list
list_of (u ∷ us) = element (exp_map u) (list_of us)

push_back-list_of :
    (us : List ExpMap) (u : ExpMap) → push_back (list_of us) (exp_map u) ≡ list_of (us ++ u ∷ [])
unfolding push_back
push_back-list_of [] u = refl
push_back-list_of (v ∷ us) u = ap (λ l. element (exp_map v) l) (push_back-list_of us u)

make_users_lem :
    (extra : ExpMap) (gs : List Guest) (us : List ExpMap)
    → make_users extra gs (list_of us) ≡ list_of (us ++ map (user_of extra) gs)
unfolding make_users
make_users_lem extra [] us = ap list_of (sym (append_nil us))
make_users_lem extra (g ∷ gs) us =
    ap (make_users extra gs) (push_back-list_of us (user_of extra g))
    ∙ make_users_lem extra gs (us ++ user_of extra g ∷ [])
    ∙ ap list_of (append_assoc us (user_of extra g ∷ []) (map (user_of extra) gs))

send_users :
    (t : Text) (extra : ExpMap) (gs : List Guest) (s : GameState)
    → find_key name_key extra ≡ none
    → send_to_users t (list_of (map (user_of extra) gs)) s
      ≡ ok tt (queued s (addressed t (map (user_of extra) gs)))
unfolding send_to_users cast_map enqueue_message
send_users t extra [] s a =
    ap (λ q. ok tt (record s { message_queue = q })) (sym (append_nil s.message_queue))
send_users t extra (g ∷ gs) s a =
    ap
      (λ o.
        (check_named o
            >> (modify (enqueue_message (user_of extra g) t)
                >> send_to_users t (list_of (map (user_of extra) gs))))
          s)
      (user_named extra g a)
    ∙ send_users t extra gs (enqueue_message (user_of extra g) t s) a
    ∙ ap (λ q. ok tt (record s { message_queue = q }))
        (append_assoc s.message_queue (record { target_user = user_of extra g; content = t } ∷ [])
          (addressed t (map (user_of extra) gs)))

names_of_users :
    (extra : ExpMap) (gs : List Guest)
    → find_key name_key extra ≡ none
    → map (λ u. find_key name_key u) (map (user_of extra) gs)
      ≡ map (λ g. some (exp_string g.name)) gs
names_of_users extra [] a = refl
names_of_users extra (g ∷ gs) a = cc (user_named extra g a, names_of_users extra gs a)

-- The text reaches the list of users that the variable `players` holds.
message_list :
    (t : Text) (l : ExpList) (s s' : GameState)
    → find_key (codes "players") s.variables ≡ some (exp_list l)
    → send_to_users t l s ≡ ok tt s'
    → message_users t (codes "players") s ≡ ok tt s'
unfolding message_users cast_list
message_list t l s s' f h =
    ap
      (λ o.
        (variable_at (codes "players") o >>= λ e. cast_list e >>= λ users. send_to_users t users) s)
      f
    ∙ h

-- When the players have been loaded into a game whose variables for each player have none called `name`,
-- a text to the players enqueues one message for each of them, in the order of the loading, and each goes
-- to a user with the name of that player.
pub announce_lem :
    (t : Text) (gs : List Guest) (w : Hosted)
    → find_key name_key w.state.per_player ≡ none
    → (w' : Hosted) × ((load_players gs >> on_state (message_users t (codes "players"))) w
        ≡ ok tt w')
      × (w'.state.message_queue
          ≡ w.state.message_queue ++ addressed t (map (user_of w.state.per_player) gs))
      × (map (λ u. find_key name_key u) (map (user_of w.state.per_player) gs)
          ≡ map (λ g. some (exp_string g.name)) gs)
unfolding load_players
announce_lem t gs w a =
    let us : List ExpMap = map (user_of w.state.per_player) gs in
    let s : GameState =
      set_variable (codes "players") (exp_list (make_users w.state.per_player gs empty_list))
        w.state in
    let loaded : find_key (codes "players") s.variables ≡ some (exp_list (list_of us)) =
      find_key-assign_key (codes "players") (codes "players")
        (exp_list (make_users w.state.per_player gs empty_list)) w.state.variables
      ∙ ap
          (λ b.
            if b
            then some (exp_list (make_users w.state.per_player gs empty_list))
            else find_key (codes "players") w.state.variables)
          (text_eq_refl (codes "players"))
      ∙ ap (λ l. some (exp_list l)) (make_users_lem w.state.per_player gs []) in
    let v : Hosted = record w {
      instance_data = record w.instance_data {
        player_name_to_id = track gs w.instance_data.player_name_to_id;
      };
      state = s;
    } in
    (
      record v { state = queued s (addressed t us) },
      ap (host v) (
          message_list t (list_of us) s (queued s (addressed t us)) loaded
            (send_users t w.state.per_player gs s a)),
      refl,
      names_of_users w.state.per_player gs a,
    )
