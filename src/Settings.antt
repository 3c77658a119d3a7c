-- ===== src/Settings.antt =====
-- pricestream/settings.py: what the start of the program makes of its environment. `decouple.config` is
-- a library's: a variable that is set is cast, and one that is not set has its default.
pub mod Loading
pub mod Modes
mod Tests
use pricestream.Base.{
  Bool, true, false, Option, none, some, List, [], ◌∷◌, ◌++◌, ◌&&◌, ◌||◌, not, if◌then◌else◌,
}
use pricestream.Base.Int.{ℤ, pos}
use pricestream.Base.Text.{Text, text, text_eq}
use pricestream.Base.Result.{Result, ok, raise, ◌>>=◌}

-- `DATABASES["default"]`
pub data Database : Type 0 where
  sqlite3 : Text → Database
  postgresql : (name user password host port : Text) (conn_max_age : ℤ) → Database

-- `CACHES["default"]` and `CHANNEL_LAYERS["default"]`, with their locations
pub data Cache : Type 0 where
  loc_mem : Cache
  redis_cache : Text → Cache

pub data ChannelLayer : Type 0 where
  in_memory : ChannelLayer
  redis_layer : List Text → ChannelLayer

-- The settings that only a production run has.
pub record Security : Type 0 where
  pub secure_proxy_ssl_header : Text × Text
  pub secure_ssl_redirect : Bool
  pub session_cookie_secure : Bool
  pub csrf_cookie_secure : Bool
  pub secure_hsts_seconds : ℤ
  pub secure_hsts_include_subdomains : Bool
  pub secure_hsts_preload : Bool
  pub secure_content_type_nosniff : Bool
  pub secure_referrer_policy : Text
  pub x_frame_options : Text

-- The arguments of `sentry_sdk.init`
pub record Sentry (F : Type 0) : Type 0 where
  pub dsn : Text
  pub environment : Text
  pub release : Option Text
  pub traces_sample_rate : F
  pub send_default_pii : Bool

-- What the module reads, with the floats F.
pub record Process (F : Type 0) : Type 0 where
  -- `sys.modules` and `sys.argv`
  pub modules : List Text
  pub argv : List Text
  -- the process's environment, and behind it the file `.env`
  pub lookup : Text → Option Text
  -- the casts `bool`, `int`, `float` and `Csv()`
  pub to_bool : Text → Result Bool
  pub to_int : Text → Result ℤ
  pub to_float : Text → Result F
  pub to_csv : Text → Result (List Text)
  -- `float(n)`, and a float that is written out
  pub float_of : ℤ → Result F
  pub float_literal : Text → F
  -- the imports of `sentry_sdk` and the call `sentry_sdk.init`, which raises on a malformed DSN
  pub sentry_init : Sentry F → Result (Unit {0})

pub record Core : Type 0 where
  pub secret_key : Text
  pub debug : Bool
  pub allowed_hosts : List Text

pub record Pricing (F : Type 0) : Type 0 where
  pub celery_broker_url : Text
  pub celery_result_backend : Text
  pub fetch_interval_seconds : ℤ
  -- the schedule of the task `fetch_quotes`
  pub schedule : F
  pub kafka_bootstrap_servers : Text
  pub kafka_quotes_topic : Text
  pub instruments : List Text
  pub max_quote_age_seconds : ℤ

pub record Settings (F : Type 0) : Type 0 where
  pub core : Core
  pub database : Database
  pub redis_url : Text
  pub cache : Cache
  pub channel_layer : ChannelLayer
  pub pricing : Pricing F
  pub cors_allow_all_origins : Bool
  pub cors_allowed_origins : List Text
  pub security : Option Security
  pub sentry_dsn : Text
  -- what the SDK was started with, if it was
  pub sentry : Option (Sentry F)

abbrev is_in : Text → List Text → Bool
is_in s [] = false
is_in s (t ∷ ts) = text_eq s t || is_in s ts

-- `if s:`
abbrev pub is_set : Text → Bool
is_set [] = false
is_set (c ∷ s) = true

module _ {F : Type 0} (P : Process F) where
  -- `TESTING`
  unfoldable pub testing : Bool
  testing = is_in (text "pytest") P.modules || is_in (text "test") P.argv

  -- `config(name, default=…)`
  unfoldable pub config : Text → Text → Text
  config name default = elim (P.lookup name) [ none ↦ default | some v ↦ v ]

  -- `config(name, default=…, cast=…)`
  unfoldable pub config_as {ℓ} : {A : Type ℓ} → (Text → Result A) → Text → A → Result A
  config_as cast name default = elim (P.lookup name) [ none ↦ ok default | some v ↦ cast v ]

  -- The same with `cast=Csv()`, which is run on the default too.
  unfoldable pub config_csv : Text → Text → Result (List Text)
  config_csv name default = P.to_csv (config name default)

  unfoldable pub load_core : Result Core
  load_core = do
    debug ← config_as P.to_bool (text "DJANGO_DEBUG") true
    allowed_hosts ← config_csv (text "DJANGO_ALLOWED_HOSTS") (text "localhost,127.0.0.1,web")
    ok (record {
      secret_key = config (text "DJANGO_SECRET_KEY") (text "dev-insecure-secret-key");
      debug = debug;
      allowed_hosts = allowed_hosts;
    })

  unfoldable pub load_database : Database
  load_database =
      if testing
      then sqlite3 (text ":memory:")
      else postgresql (config (text "POSTGRES_DB") (text "pricestream"))
          (config (text "POSTGRES_USER") (text "pricestream"))
          (config (text "POSTGRES_PASSWORD") (text "pricestream"))
          (config (text "POSTGRES_HOST") (text "db")) (config (text "POSTGRES_PORT") (text "5432"))
          (pos 60)

  unfoldable pub load_redis_url : Text
  load_redis_url = config (text "REDIS_URL") (text "redis://redis:6379/0")

  unfoldable pub load_cache : Cache
  load_cache = if testing then loc_mem else redis_cache load_redis_url

  unfoldable pub load_channel_layer : ChannelLayer
  load_channel_layer = if testing then in_memory else redis_layer (load_redis_url ∷ [])

  unfoldable pub load_pricing : Result (Pricing F)
  load_pricing = do
    fetch_interval_seconds ← config_as P.to_int (text "FETCH_INTERVAL_SECONDS") (pos 5)
    schedule ← P.float_of fetch_interval_seconds
    instruments ← config_csv (text "INSTRUMENTS") (text "BTC-USD,ETH-USD,SOL-USD")
    max_quote_age_seconds ← config_as P.to_int (text "MAX_QUOTE_AGE_SECONDS") (pos 30)
    ok (record {
      celery_broker_url = config (text "CELERY_BROKER_URL") (text "redis://redis:6379/1");
      celery_result_backend = config (text "CELERY_RESULT_BACKEND") (text "redis://redis:6379/2");
      fetch_interval_seconds = fetch_interval_seconds;
      schedule = schedule;
      kafka_bootstrap_servers = config (text "KAFKA_BOOTSTRAP_SERVERS") (text "kafka:9092");
      kafka_quotes_topic = config (text "KAFKA_QUOTES_TOPIC") (text "quotes");
      instruments = instruments;
      max_quote_age_seconds = max_quote_age_seconds;
    })

  abbrev pub hardened : Bool → Security
  hardened redirect = record {
    secure_proxy_ssl_header = (text "HTTP_X_FORWARDED_PROTO", text "https");
    secure_ssl_redirect = redirect;
    session_cookie_secure = true;
    csrf_cookie_secure = true;
    secure_hsts_seconds = pos 31536000;
    secure_hsts_include_subdomains = true;
    secure_hsts_preload = true;
    secure_content_type_nosniff = true;
    secure_referrer_policy = text "same-origin";
    x_frame_options = text "DENY";
  }

  -- `if not DEBUG and not TESTING`
  unfoldable pub load_security : Bool → Result (Option Security)
  load_security debug =
      if not debug && not testing
      then (do
        redirect ← config_as P.to_bool (text "SECURE_SSL_REDIRECT") true
        ok (some (hardened redirect)))
      else ok none

  unfoldable pub load_sentry_dsn : Text
  load_sentry_dsn = config (text "SENTRY_DSN") []

  -- The arguments of the call, where `config("SENTRY_RELEASE", default=None)` is what the lookup gives.
  abbrev pub sentry_options : F → Sentry F
  sentry_options rate = record {
    dsn = load_sentry_dsn;
    environment = config (text "SENTRY_ENVIRONMENT") (text "production");
    release = P.lookup (text "SENTRY_RELEASE");
    traces_sample_rate = rate;
    send_default_pii = false;
  }

  -- The rate, as it is configured.
  abbrev pub sentry_rate : Result F
  sentry_rate =
      config_as P.to_float (text "SENTRY_TRACES_SAMPLE_RATE") (P.float_literal (text "0.05"))

  unfoldable pub load_sentry : Result (Option (Sentry F))
  load_sentry =
      if is_set load_sentry_dsn && not testing
      then (do
        rate ← sentry_rate
        _ ← P.sentry_init (sentry_options rate)
        ok (some (sentry_options rate)))
      else ok none

  -- The module, from its top to its end.
  unfoldable pub load : Result (Settings F)
  load = do
    core ← load_core
    pricing ← load_pricing
    cors ← config_csv (text "CORS_ALLOWED_ORIGINS") []
    security ← load_security core.debug
    sentry ← load_sentry
    ok (record {
      core = core;
      database = load_database;
      redis_url = load_redis_url;
      cache = load_cache;
      channel_layer = load_channel_layer;
      pricing = pricing;
      cors_allow_all_origins = core.debug;
      cors_allowed_origins = cors;
      security = security;
      sentry_dsn = load_sentry_dsn;
      sentry = sentry;
    })
