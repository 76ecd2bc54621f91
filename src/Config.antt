-- ===== src/Config.antt =====
-- internal/config/config.go: the configuration from the environment. A variable that is not set
-- reads as the empty text.
use sync_bridge.Base.{String, Option, none, some, [], if◌then◌else◌}
use sync_bridge.Base.Int.{ℤ, pos}
use sync_bridge.Text.{Bytes, str, eqb}
use sync_bridge.Text.Number.{parse_int}

pub record Config : Type 0 where
  pub port : ℤ
  pub auth_token : Bytes
  pub database_url : Bytes

abbrev or_default : Bytes → String → Bytes
or_default value d = if eqb value [] then str d else value

abbrev port_or : Option ℤ → ℤ
port_or none = pos 3000
port_or (some port) = port

-- `getenv` is `os.Getenv` after the .env file has been loaded; `strconv.Atoi` of 64 bits accepts
-- what `ParseInt` in base 10 does
unfoldable load_config : (Bytes → Bytes) → Config
load_config getenv = record {
  port = port_or (parse_int (or_default (getenv (str "APP_PORT")) "3000"));
  auth_token = or_default (getenv (str "AUTHORIZATION_KEY")) "your-secret-auth-key";
  database_url = or_default (getenv (str "DATABASE_URL")) "sqlite::memory:?cache=shared";
}
