-- ===== src/Serializer/ServerConfig.antt =====
-- The server's configuration from JSON (parseServerConfig and isValidServerConfig, jsonSerializer.cpp),
-- with its type (module/server_config/include/Config.h).
use social_gaming_platform.Prelude.{
  ◌≡◌, ◌⊎◌, inl, inr, ap, ◌∙◌, Bool, true, false, none, List, [], ◌∷◌, Text, codes, if◌then◌else◌,
  Option-cases,
}
use social_gaming_platform.Prelude.Int.{ℤ}
use social_gaming_platform.Run.{threw, pure, fault, continue, library_exception, ◌>>=◌}
use social_gaming_platform.Serializer.Keys.{lookup}
use social_gaming_platform.Serializer.Json.{object, Parse, JsonLibrary, IsDocumented, Returns}
use social_gaming_platform.Serializer.Validation.Shape.{Member}

-- serverConfig::Configuration.
pub record ServerConfiguration : Type 0 where
  pub port : ℤ
  pub html_path : Text
  pub err : Bool

-- The values of enum_to_str, of which each is a pointer into the flattened value.
abbrev pub required_pointers : List Text
required_pointers = codes "/port" ∷ codes "/htmlpath" ∷ codes "/games" ∷ []

module _ {J : Type 0} (lib : JsonLibrary J) where
  -- The loop of isValidServerConfig. What `temp[…]` inserts for one key is no other key's value.
  unfoldable pub has_pointers : List Text → J → Parse Bool
  has_pointers [] temp = pure true
  has_pointers (k ∷ ks) temp = do
    v ← lib.index_or_insert k temp
    if lib.equals_null v then pure false else has_pointers ks temp

  unfoldable pub is_valid_server_config : J → Parse Bool
  unfolding has_pointers
  is_valid_server_config j = has_pointers required_pointers (lib.flatten j)

  -- What follows the validation; `throw;` ends the process.
  unfoldable pub read_server_config : Bool → J → Parse ServerConfiguration
  read_server_config false j = fault
  read_server_config true j = do
    p ← lib.at (codes "port") j
    port ← lib.get_int p
    h ← lib.at (codes "html") j
    html_path ← lib.get_string h
    pure (record { port = port; html_path = html_path; err = true })

  unfoldable pub parse_server_config : J → Parse ServerConfiguration
  unfolding is_valid_server_config read_server_config
  parse_server_config j = do valid ← is_valid_server_config j; read_server_config valid j

bind-Returns :
    {A B : Type 0} (m : Parse A) (a : A) (k : A → Parse B)
    → Returns m a
    → (w : Unit {0}) → (m >>= k) w ≡ k a w
bind-Returns m a k run w = ap (λ o. continue o k) (run w)

abbrev after_html : {J : Type 0} → JsonLibrary J → ℤ → J → Parse ServerConfiguration
after_html lib i h = lib.get_string h >>= λ t. pure (record { port = i; html_path = t; err = true })

module _ {J : Type 0} (lib : JsonLibrary J) (doc : IsDocumented lib) where
  after_port :
      (j p : J) {i : ℤ}
      → Returns (is_valid_server_config lib j) true
      → lib.type_of j ≡ object
      → Member lib (codes "port") j p
      → Returns (lib.get_int p) i
      → (w : Unit {0})
      → parse_server_config lib j w ≡ continue (lib.at (codes "html") j w) (after_html lib i)
  unfolding parse_server_config read_server_config
  after_port j p {i} valid o m run w =
      bind-Returns (is_valid_server_config lib j) true (λ b. read_server_config lib b j) valid w
      ∙ bind-Returns (lib.at (codes "port") j) p _ (doc.at_lem (codes "port") j p o m) w
      ∙ bind-Returns (lib.get_int p) i _ run w

  -- An object that passes the validation and has an integer for its port is not thereby read: without a
  -- member "html", of which the validation says nothing, an exception is thrown. With one, its text is the
  -- path, the port is that integer, and the error flag is left set.
  pub parse_server_config_lem :
      (j p : J) {i : ℤ}
      → Returns (is_valid_server_config lib j) true
      → lib.type_of j ≡ object
      → Member lib (codes "port") j p
      → Returns (lib.get_int p) i
      → (w : Unit {0})
      → ((lookup (codes "html") (lib.items j) ≡ none)
          × (parse_server_config lib j w ≡ threw (library_exception (codes "out_of_range")) w))
        ⊎ ((h : J) × Member lib (codes "html") j h
            × (parse_server_config lib j w
                ≡ continue
                    (lib.get_string h w)
                    (λ t. pure (record { port = i; html_path = t; err = true }))))
  parse_server_config_lem j p {i} valid o m run w =
      elim (Option-cases (lookup (codes "html") (lib.items j))) [
        | inl e ↦ inl (
          e,
          after_port j p valid o m run w
              ∙ ap (λ r. continue r (after_html lib i)) (doc.at_missing (codes "html") j o e w),
        )
        | inr (h, e) ↦ inr (
          h,
          e,
          after_port j p valid o m run w
              ∙ ap (λ r. continue r (after_html lib i)) (doc.at_lem (codes "html") j h o e w),
        )
      ]
