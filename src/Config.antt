-- ===== src/Config.antt =====
-- apps/api/src/config/app.config.ts: mustGet, getInt and loadConfig, the answer of
-- apps/api/src/config/config.controller.ts, and getPositiveInt of apps/api/src/app.module.ts.
pub mod Loading
pub mod Limits
use shopback_cashback_ledger.Prelude.{
  String, Bool, true, false, Option, none, some, ◌==◌, ◌||◌, ◌&&◌, text_comparable, if◌then◌else◌,
}
use shopback_cashback_ledger.Platform.{Platform}

-- `process.env`
abbrev pub Environment : Type 0
Environment = String → Option String

-- What a function that throws these two errors returns.
pub data Loaded (A : Type 0) : Type 0 where
  loaded : A → Loaded A
  missing_env : String → Loaded A
  invalid_int_env : String → String → Loaded A

module _ {A B : Type 0} where
  infixl 5 ◌>>=◌
  unfoldable pub ◌>>=◌ : Loaded A → (A → Loaded B) → Loaded B
  loaded a >>= f = f a
  missing_env name >>= f = missing_env name
  invalid_int_env name raw >>= f = invalid_int_env name raw

pub record Postgres (P : Platform) : Type 0 where
  pub host : String
  pub port : P.Number
  pub db : String
  pub user : String
  pub password : String

pub record Redis (P : Platform) : Type 0 where
  pub host : String
  pub port : P.Number

pub record AppConfig (P : Platform) : Type 0 where
  pub port : P.Number
  pub service_name : String
  pub postgres : Postgres P
  pub redis : Redis P
  pub broker : String

-- What `GET /config` shows of the database: all but the password.
pub record ShownPostgres (P : Platform) : Type 0 where
  pub host : String
  pub port : P.Number
  pub db : String
  pub user : String

pub record ShownConfig (P : Platform) : Type 0 where
  pub port : P.Number
  pub service_name : String
  pub postgres : ShownPostgres P
  pub redis : Redis P
  pub broker : String

-- `value ?? ''`
abbrev pub text_or_empty : Option String → String
text_or_empty none = ""
text_or_empty (some v) = v

module _ (P : Platform) where
  -- `!v || v.trim() === ''`
  abbrev pub is_blank : String → Bool
  is_blank v = v == "" || P.trim v == ""

  unfoldable pub require_text : String → Option String → Loaded String
  require_text name none = missing_env name
  require_text name (some v) = if is_blank v then missing_env name else loaded (P.trim v)

  abbrev pub or_missing : String → Option P.Number → Loaded P.Number
  or_missing name none = missing_env name
  or_missing name (some fallback) = loaded fallback

  abbrev pub finite_number : String → String → P.Number → Loaded P.Number
  finite_number name raw n = if P.is_finite n then loaded n else invalid_int_env name raw

  unfoldable pub read_int : String → Option P.Number → Option String → Loaded P.Number
  read_int name fallback none = or_missing name fallback
  read_int name fallback (some raw) =
      if is_blank raw
      then or_missing name fallback
      else finite_number name raw (P.number_of_text raw)

  -- `process.env.SERVICE_NAME?.trim() || 'sb-ledger-api'`
  abbrev pub service_name_of : Option String → String
  service_name_of none = "sb-ledger-api"
  service_name_of (some v) = if P.trim v == "" then "sb-ledger-api" else P.trim v

  abbrev pub at_least_one : P.Number → P.Number → P.Number
  at_least_one fallback parsed =
      if P.is_finite parsed && P.is_positive parsed then P.floor parsed else fallback

  -- `getPositiveInt`
  unfoldable pub get_positive_int : Option String → P.Number → P.Number
  get_positive_int value fallback = at_least_one fallback (P.number_of_text (text_or_empty value))

  -- `throttleTtlSeconds` and `throttleLimit`
  abbrev pub throttle_ttl_seconds : Environment → P.Number
  throttle_ttl_seconds env = get_positive_int (env "THROTTLE_TTL") (P.number_of_nat 60)

  abbrev pub throttle_limit : Environment → P.Number
  throttle_limit env = get_positive_int (env "THROTTLE_LIMIT") (P.number_of_nat 600)

  module _ (env : Environment) where
    unfoldable pub must_get : String → Loaded String
    unfolding require_text
    must_get name = require_text name (env name)

    unfoldable pub get_int : String → Option P.Number → Loaded P.Number
    unfolding read_int
    get_int name fallback = read_int name fallback (env name)

    unfoldable pub load_config : Loaded (AppConfig P)
    unfolding must_get get_int ◌>>=◌
    load_config = do
      port ← get_int "PORT" (some (P.number_of_nat 3000))
      host ← must_get "POSTGRES_HOST"
      postgres_port ← get_int "POSTGRES_PORT" (some (P.number_of_nat 5432))
      db ← must_get "POSTGRES_DB"
      user ← must_get "POSTGRES_USER"
      password ← must_get "POSTGRES_PASSWORD"
      redis_host ← must_get "REDIS_HOST"
      redis_port ← get_int "REDIS_PORT" (some (P.number_of_nat 6379))
      broker ← must_get "KAFKA_BROKER"
      loaded (record {
        port = port;
        service_name = service_name_of (env "SERVICE_NAME");
        postgres = record {
          host = host;
          port = postgres_port;
          db = db;
          user = user;
          password = password;
        };
        redis = record { host = redis_host; port = redis_port };
        broker = broker;
      })

    -- `getConfig`
    abbrev pub shown : AppConfig P → ShownConfig P
    shown cfg = record {
      port = cfg.port;
      service_name = cfg.service_name;
      postgres = record {
        host = cfg.postgres.host;
        port = cfg.postgres.port;
        db = cfg.postgres.db;
        user = cfg.postgres.user;
      };
      redis = cfg.redis;
      broker = cfg.broker;
    }

    unfoldable pub get_config : Loaded (ShownConfig P)
    unfolding load_config ◌>>=◌
    get_config = do cfg ← load_config; loaded (shown cfg)
