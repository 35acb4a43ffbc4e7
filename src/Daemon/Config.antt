-- ===== src/Daemon/Config.antt =====
-- Loading the server's configuration (module/server_daemon/src/config.cpp).
use social_gaming_platform.Prelude.{◌≡◌, sym, ap, false, ◌++◌, Text, codes}
use social_gaming_platform.Run.{ok, pure, ◌>>=◌}
use social_gaming_platform.Result.{Result, success, make_ok, make_error, from_ok, from_error}
use social_gaming_platform.Serializer.Json.{Parse, JsonLibrary}
use social_gaming_platform.Serializer.ServerConfig.{ServerConfiguration, parse_server_config}
use social_gaming_platform.Serializer.Specification.Stops.{continue-eq-ok}

-- What the file gives: the text of the system's error if it cannot be opened, that of the library's if it
-- is no JSON, or a value.
pub data Document (J : Type 0) : Type 0 where
  no_file : Text → Document J
  no_json : Text → Document J
  a_value : J → Document J

module _ {J : Type 0} (lib : JsonLibrary J) where
  unfoldable pub load_config_from_json : Document J → Parse (Result ServerConfiguration Text)
  unfolding parse_server_config from_ok from_error
  load_config_from_json (no_file t) = pure (from_error (make_error t))
  load_config_from_json (no_json t) = pure (from_error (make_error (codes "Invalid JSON: " ++ t)))
  load_config_from_json (a_value j) = do
    config ← parse_server_config lib j
    pure (from_ok (make_ok (record config { err = false })))

  -- A configuration that is loaded is marked as one without an error.
  pub load_config_from_json-err :
      (d : Document J) (w : Unit {0}) {config : ServerConfiguration} {w' : Unit {0}}
      → load_config_from_json d w ≡ ok (success config) w'
      → config.err ≡ false
  unfolding load_config_from_json from_ok from_error
  load_config_from_json-err (no_file t) w h = absurd (cc h)
  load_config_from_json-err (no_json t) w h = absurd (cc h)
  load_config_from_json-err (a_value j) w {config} h =
      let (parsed, w1, ran, rest) = continue-eq-ok (parse_server_config lib j w) _ h in
      let same : record parsed { err = false } ≡ config = cc rest in
      sym (ap (λ (x : ServerConfiguration). x.err) same)
