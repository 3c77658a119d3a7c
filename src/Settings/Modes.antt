-- ===== src/Settings/Modes.antt =====
-- The three signals that the settings switch on: a test run, DEBUG, and the DSN of Sentry.
use mathlib.Core.Path.{subst}
use pricestream.Base.{
  ◌≡◌, ◌↔◌, ◌⊎◌, refl, Bool, true, false, Option, none, some, [], ◌∷◌, Bool-cases, inl, inr, sym,
  ◌∙◌, not_both,
}
use pricestream.Base.Text.{Text, text}
use pricestream.Base.Int.{pos}
use pricestream.Base.Result.{ok, bind-ok, ok-injective}
use pricestream.Settings.{
  Process, sqlite3, postgresql, loc_mem, redis_cache, in_memory, redis_layer, Security, Sentry,
  Settings, is_set, testing, config, config_as, config_csv, load_core, load_database, load_cache,
  load_channel_layer, load_pricing, hardened, load_security, load_sentry_dsn, load_sentry, load,
  sentry_rate, sentry_options,
}

module _ {F : Type 0} (P : Process F) where
  pub record HasMode (s : Settings F) : Type 0 where
    -- A test run keeps its rows, its cache and its channel layer in memory; any other run uses Postgres,
    -- and one and the same Redis for the cache and the channel layer.
    pub services :
        ((testing P ≡ true)
          × (s.database ≡ sqlite3 (text ":memory:"))
          × (s.cache ≡ loc_mem)
          × (s.channel_layer ≡ in_memory))
        ⊎ ((testing P ≡ false)
            × ((name : Text) × (user : Text) × (password : Text) × (host : Text) × (port : Text)
                × (s.database ≡ postgresql name user password host port (pos 60)))
            × (s.cache ≡ redis_cache s.redis_url)
            × (s.channel_layer ≡ redis_layer (s.redis_url ∷ [])))
    -- The production block is there exactly without DEBUG and outside of tests.
    pub production :
        ((redirect : Bool) × (s.security ≡ some (hardened P redirect)))
        ↔ ((s.core.debug ≡ false) × (testing P ≡ false))
    -- Every origin is allowed exactly with DEBUG.
    pub origins : s.cors_allow_all_origins ≡ s.core.debug
    -- Sentry is started exactly with a DSN and outside of tests, with this DSN and without what
    -- identifies a user.
    pub reporting :
        ((sentry : Sentry F) × (s.sentry ≡ some sentry)
          × (sentry.dsn ≡ s.sentry_dsn)
          × (sentry.send_default_pii ≡ false))
        ↔ ((is_set s.sentry_dsn ≡ true) × (testing P ≡ false))

  no_some {ℓ} : {A : Type ℓ} (a : A) → none ≡ some a → ⊥
  no_some a h = cc

  load_security-production :
      (debug : Bool) (security : Option Security)
      → load_security P debug ≡ ok security
      → ((redirect : Bool) × (security ≡ some (hardened P redirect)))
        ↔ ((debug ≡ false) × (testing P ≡ false))
  unfolding load_security
  load_security-production true security run =
      let off = ok-injective none security run in
      (
        (λ (redirect, on). absurd (no_some (hardened P redirect) (off ∙ on))),
        (λ (wrong, _). absurd (not_both refl wrong)),
      )
  load_security-production false security run = elim (Bool-cases (testing P)) [
    | inl test ↦
        let off = ok-injective none security (rw (load_security, test) at run) in
        (
          (λ (redirect, on). absurd (no_some (hardened P redirect) (off ∙ on))),
          (λ (_, wrong). absurd (not_both test wrong)),
        )
    | inr live ↦
        let (redirect, _, on) =
          bind-ok (config_as P P.to_bool (text "SECURE_SSL_REDIRECT") true) _
            (rw (load_security, live) at run) in
        ((λ _. (refl, live)), (λ _. (redirect, sym (ok-injective _ security on))))
  ]

  load_sentry-reporting :
      (sentry : Option (Sentry F))
      → load_sentry P ≡ ok sentry
      → ((t : Sentry F) × (sentry ≡ some t)
          × (t.dsn ≡ load_sentry_dsn P)
          × (t.send_default_pii ≡ false))
        ↔ ((is_set (load_sentry_dsn P) ≡ true) × (testing P ≡ false))
  unfolding load_sentry
  load_sentry-reporting sentry run = elim (Bool-cases (is_set (load_sentry_dsn P))) [
    | inl dsn ↦ elim (Bool-cases (testing P)) [
      | inl test ↦
          let off = ok-injective none sentry (rw (load_sentry, dsn, test) at run) in
          (
            (λ (t, on, _, _). absurd (no_some t (off ∙ on))),
            (λ (_, wrong). absurd (not_both test wrong)),
          )
      | inr live ↦
          let (rate, _, next) = bind-ok (sentry_rate P) _ (rw (load_sentry, dsn, live) at run) in
          let (_, _, on) = bind-ok (P.sentry_init (sentry_options P rate)) _ next in
          ((λ _. (dsn, live)), (λ _. (_, sym (ok-injective _ sentry on), refl, refl)))
    ]
    | inr unset ↦
        let off = ok-injective none sentry (rw (load_sentry, unset) at run) in
        (
          (λ (t, on, _, _). absurd (no_some t (off ∙ on))),
          (λ (wrong, _). absurd (not_both wrong unset)),
        )
  ]

  -- Where the settings can be loaded, a test run keeps rows, cache and channel layer in memory, and any
  -- other run uses Postgres and one Redis for both; the production block is there exactly without DEBUG
  -- and outside of tests; every origin is allowed exactly with DEBUG; and Sentry is started exactly with
  -- a DSN and outside of tests.
  pub load-HasMode : (s : Settings F) → load P ≡ ok s → HasMode s
  unfolding load load_database load_cache load_channel_layer
  load-HasMode s run =
      let (core, core_run, run) = bind-ok (load_core P) _ run in
      let (p, p_run, run) = bind-ok (load_pricing P) _ run in
      let (cors, cors_run, run) = bind-ok (config_csv P (text "CORS_ALLOWED_ORIGINS") []) _ run in
      let (security, security_run, run) = bind-ok (load_security P core.debug) _ run in
      let (sentry, sentry_run, run) = bind-ok (load_sentry P) _ run in
      subst HasMode (ok-injective _ s run) (record {
        services = elim (Bool-cases (testing P)) [
          | inl test ↦ inl (
            test,
            rw (load_database, test) refl,
            rw (load_cache, test) refl,
            rw (load_channel_layer, test) refl,
          )
          | inr live ↦ inr (
            live,
            (
              config P (text "POSTGRES_DB") (text "pricestream"),
              config P (text "POSTGRES_USER") (text "pricestream"),
              config P (text "POSTGRES_PASSWORD") (text "pricestream"),
              config P (text "POSTGRES_HOST") (text "db"),
              config P (text "POSTGRES_PORT") (text "5432"),
              rw (load_database, live) refl,
            ),
            rw (load_cache, live) refl,
            rw (load_channel_layer, live) refl,
          )
        ];
        production = load_security-production core.debug security security_run;
        origins = refl;
        reporting = load_sentry-reporting sentry sentry_run;
      })
