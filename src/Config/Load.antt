-- ===== src/Config/Load.antt =====
-- Load of internal/config/config.go. viper is a parameter: `setting` is what the environment or the file .env sets
-- for a key, and the getters cast a value to the type that is asked for.
use order_processing_system.Base.{
  zero, suc, ◌≡◌, Bool, true, false, Option, none, some, List, [], ◌∷◌, if◌then◌else◌, codes,
}
use order_processing_system.Base.Int.{ℤ, pos, negsuc}
use order_processing_system.Models.{Text, text_eq, Float64, Error, driver, Result, ok, err}
use order_processing_system.Config.{WorkerConfig}

pub record ServerConfig : Type 0 where
  pub host : Text
  pub port : ℤ

pub record DatabaseConfig : Type 0 where
  pub host : Text
  pub port : ℤ
  pub user : Text
  pub password : Text
  pub name : Text
  pub ssl_mode : Text

pub record RedisConfig : Type 0 where
  pub host : Text
  pub port : ℤ
  pub password : Text
  pub db : ℤ

pub record LoggerConfig : Type 0 where
  pub level : Text
  pub format : Text

pub record JwtConfig : Type 0 where
  pub secret : Text
  pub ttl : ℤ

pub record Config : Type 0 where
  pub server : ServerConfig
  pub database : DatabaseConfig
  pub redis : RedisConfig
  pub logger : LoggerConfig
  pub jwt : JwtConfig
  pub worker : WorkerConfig

-- What SetDefault is given; a float64 is its bit pattern.
pub data Value : Type 0 where
  text : Text → Value
  int : ℤ → Value
  float : Float64 → Value

-- The casts of the getters, with what viper documents of a value of the type that is asked for.
pub record Viper : Type 0 where
  pub setting : Text → Option Text
  pub to_string : Value → Text
  pub to_int : Value → ℤ
  pub to_duration : Value → ℤ
  pub to_float64 : Value → Float64
  pub to_string_text : (s : Text) → to_string (text s) ≡ s
  pub to_int_int : (n : ℤ) → to_int (int n) ≡ n

abbrev pub default_value : Text → Value → Text × Value
default_value key value = (key, value)

abbrev pub defaults : List (Text × Value)
defaults =
    default_value (codes "SERVER_HOST") (text (codes "0.0.0.0"))
    ∷ default_value (codes "SERVER_PORT") (int (pos 8080))
    ∷ default_value (codes "DB_HOST") (text (codes "localhost"))
    ∷ default_value (codes "DB_PORT") (int (pos 5432))
    ∷ default_value (codes "DB_USER") (text (codes "postgres"))
    ∷ default_value (codes "DB_PASSWORD") (text (codes "password"))
    ∷ default_value (codes "DB_NAME") (text (codes "order_processing"))
    ∷ default_value (codes "DB_SSLMODE") (text (codes "disable"))
    ∷ default_value (codes "REDIS_HOST") (text (codes "localhost"))
    ∷ default_value (codes "REDIS_PORT") (int (pos 6379))
    ∷ default_value (codes "REDIS_PASSWORD") (text [])
    ∷ default_value (codes "REDIS_DB") (int (pos 0))
    ∷ default_value (codes "LOG_LEVEL") (text (codes "info"))
    ∷ default_value (codes "LOG_FORMAT") (text (codes "json"))
    ∷ default_value (codes "JWT_SECRET") (text (codes "dev-insecure-secret-change-me"))
    ∷ default_value (codes "JWT_TTL") (text (codes "24h"))
    ∷ default_value (codes "WORKER_COUNT") (int (pos 5))
    ∷ default_value (codes "WORKER_QUEUE_SIZE") (int (pos 256))
    ∷ default_value (codes "WORKER_MAX_RETRIES") (int (pos 3))
    ∷ default_value (codes "WORKER_BASE_BACKOFF") (text (codes "200ms"))
    ∷ default_value (codes "WORKER_MAX_BACKOFF") (text (codes "5s"))
    ∷ default_value (codes "WORKER_ATTEMPT_TIMEOUT") (text (codes "5s"))
    ∷ default_value (codes "WORKER_SWEEP_INTERVAL") (text (codes "30s"))
    ∷ default_value (codes "WORKER_STALE_AFTER") (text (codes "1m"))
    ∷ default_value (codes "WORKER_SWEEP_BATCH_SIZE") (int (pos 100))
    ∷ default_value (codes "WORKER_GATEWAY_FAILURE_RATE") (float 4596373779694328218)
    ∷ default_value (codes "SHUTDOWN_TIMEOUT") (text (codes "10s"))
    ∷ []

unfoldable pub lookup : Text → List (Text × Value) → Value
lookup key [] = text []
lookup key ((k, v) ∷ rest) = let other = lookup key rest in if text_eq k key then v else other

-- SERVER_PORT must be set
abbrev pub port_missing : Error
port_missing = driver 4

abbrev pub is_zero : ℤ → Bool
is_zero (pos zero) = true
is_zero (pos (suc n)) = false
is_zero (negsuc n) = false

module _ (viper : Viper) where
  -- A setting takes precedence over the default.
  unfoldable pub get : Text → Value
  unfolding lookup
  get key = elim (viper.setting key) [ none ↦ lookup key defaults | some s ↦ text s ]

  abbrev get_string : Text → Text
  get_string key = viper.to_string (get key)

  abbrev get_int : Text → ℤ
  get_int key = viper.to_int (get key)

  abbrev get_duration : Text → ℤ
  get_duration key = viper.to_duration (get key)

  abbrev pub config : Config
  config = record {
    server = record {
      host = get_string (codes "SERVER_HOST");
      port = get_int (codes "SERVER_PORT");
    };
    database = record {
      host = get_string (codes "DB_HOST");
      port = get_int (codes "DB_PORT");
      user = get_string (codes "DB_USER");
      password = get_string (codes "DB_PASSWORD");
      name = get_string (codes "DB_NAME");
      ssl_mode = get_string (codes "DB_SSLMODE");
    };
    redis = record {
      host = get_string (codes "REDIS_HOST");
      port = get_int (codes "REDIS_PORT");
      password = get_string (codes "REDIS_PASSWORD");
      db = get_int (codes "REDIS_DB");
    };
    logger = record {
      level = get_string (codes "LOG_LEVEL");
      format = get_string (codes "LOG_FORMAT");
    };
    jwt = record { secret = get_string (codes "JWT_SECRET"); ttl = get_duration (codes "JWT_TTL") };
    worker = record {
      count = get_int (codes "WORKER_COUNT");
      queue_size = get_int (codes "WORKER_QUEUE_SIZE");
      max_retries = get_int (codes "WORKER_MAX_RETRIES");
      base_backoff = get_duration (codes "WORKER_BASE_BACKOFF");
      max_backoff = get_duration (codes "WORKER_MAX_BACKOFF");
      attempt_timeout = get_duration (codes "WORKER_ATTEMPT_TIMEOUT");
      sweep_interval = get_duration (codes "WORKER_SWEEP_INTERVAL");
      stale_after = get_duration (codes "WORKER_STALE_AFTER");
      sweep_batch_size = get_int (codes "WORKER_SWEEP_BATCH_SIZE");
      gateway_failure_rate = viper.to_float64 (get (codes "WORKER_GATEWAY_FAILURE_RATE"));
      shutdown_timeout = get_duration (codes "SHUTDOWN_TIMEOUT");
    };
  }

  unfoldable pub load : Result Config
  load = if is_zero config.server.port then err port_missing else ok config
