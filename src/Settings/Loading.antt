-- ===== src/Settings/Loading.antt =====
-- Which environments the settings can be loaded from, and what they are then.
use pricestream.Base.{◌≡◌, true, false, some, []}
use pricestream.Base.Int.{ℤ, pos}
use pricestream.Base.Text.{Text, text}
use pricestream.Base.Result.{Result, ok}
use pricestream.Settings.{
  Process, Core, is_set, testing, config, config_as, load_sentry_dsn, sentry_rate, sentry_options,
}

abbrev pub Returns {ℓ} : {A : Type ℓ} → Result A → Type ℓ
Returns {A} r = (a : A) × (r ≡ ok a)

module _ {F : Type 0} (P : Process F) where
  -- What the variable is set to, if it is set, can be cast.
  abbrev pub Fits {ℓ} : {A : Type ℓ} → (Text → Result A) → Text → Type ℓ
  Fits cast name = (v : Text) → P.lookup name ≡ some v → Returns (cast v)

  -- The value or the default is a list.
  abbrev pub FitsCsv : Text → Text → Type 0
  FitsCsv name default = Returns (P.to_csv (config P name default))

  pub record IsLoadable : Type 0 where
    pub debug : Fits P.to_bool (text "DJANGO_DEBUG")
    pub hosts : FitsCsv (text "DJANGO_ALLOWED_HOSTS") (text "localhost,127.0.0.1,web")
    pub interval : Fits P.to_int (text "FETCH_INTERVAL_SECONDS")
    pub schedule :
        (n : ℤ)
        → config_as P P.to_int (text "FETCH_INTERVAL_SECONDS") (pos 5) ≡ ok n
        → Returns (P.float_of n)
    pub instruments : FitsCsv (text "INSTRUMENTS") (text "BTC-USD,ETH-USD,SOL-USD")
    pub max_age : Fits P.to_int (text "MAX_QUOTE_AGE_SECONDS")
    pub cors : FitsCsv (text "CORS_ALLOWED_ORIGINS") []
    -- read in a production run only
    pub redirect :
        config_as P P.to_bool (text "DJANGO_DEBUG") true ≡ ok false
        → testing P ≡ false
        → Fits P.to_bool (text "SECURE_SSL_REDIRECT")
    -- read with a DSN only
    pub rate :
        is_set (config P (text "SENTRY_DSN") []) ≡ true
        → testing P ≡ false
        → Fits P.to_float (text "SENTRY_TRACES_SAMPLE_RATE")
    pub sentry :
        is_set (config P (text "SENTRY_DSN") []) ≡ true
        → testing P ≡ false
        → (rate : F) → sentry_rate P ≡ ok rate
        → Returns (P.sentry_init (sentry_options P rate))

  abbrev CanStart : Type 0
  CanStart =
      is_set (load_sentry_dsn P) ≡ true
      → testing P ≡ false
      → Fits P.to_float (text "SENTRY_TRACES_SAMPLE_RATE")
        × ((rate : F) → sentry_rate P ≡ ok rate → Returns (P.sentry_init (sentry_options P rate)))
