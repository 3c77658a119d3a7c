-- ===== src/Settings/Tests.antt =====
-- A production run with a DSN, a test run, and a run with a number that cannot be read.
use pricestream.Base.{
  ◌≡◌, refl, Bool, true, false, Option, none, some, List, [], ◌∷◌, if◌then◌else◌,
}
use pricestream.Base.Int.{pos}
use pricestream.Base.Text.{Text, text, text_eq}
use pricestream.Base.Result.{Result, ok, raise, value_error}
use pricestream.Settings.{
  Process, is_set, testing, config, config_as, config_csv, load_core, load_pricing, load_security,
  load_sentry_dsn, load_sentry, load,
}
use pricestream.Settings.Loading.{Returns}
use pricestream.Settings.Modes.{HasMode, load-HasMode}

abbrev flag : Text → Result Bool
flag v =
    if text_eq v (text "1")
    then ok true
    else if text_eq v (text "0")
    then ok false
    else raise value_error

-- The numbers and lists are left alone: a number is 5, a list has one entry.
abbrev started : List Text → (Text → Option Text) → Process Text
started argv lookup = record {
  modules = [];
  argv = argv;
  lookup = lookup;
  to_bool = flag;
  to_int = λ v. if is_set v then ok (pos 5) else raise value_error;
  to_float = λ v. ok v;
  to_csv = λ v. ok (v ∷ []);
  float_of = λ n. ok (text "5.0");
  float_literal = λ v. v;
  sentry_init =
      λ s. if text_eq s.dsn (text "https://key@sentry/1") then ok tt else raise value_error;
}

abbrev live_variables : Text → Option Text
live_variables name =
    if text_eq name (text "DJANGO_DEBUG")
    then some (text "0")
    else if text_eq name (text "SENTRY_DSN")
    then some (text "https://key@sentry/1")
    else none

abbrev live_process : Process Text
live_process = started [] live_variables

-- The settings of the production run can be loaded.
live_runs : Returns (load live_process)
unfolding load load_core load_pricing load_security load_sentry testing config config_as config_csv
    text_eq load_sentry_dsn
live_runs = (_, refl)

-- A number that cannot be read ends the start, also in a test run.
broken_raises :
    load (
      started
        (text "test" ∷ [])
        (λ name. if text_eq name (text "MAX_QUOTE_AGE_SECONDS") then some [] else none))
    ≡ raise value_error
unfolding load load_core load_pricing config config_as config_csv text_eq
broken_raises = refl

load-HasMode_example : HasMode live_process live_runs.0
load-HasMode_example = load-HasMode live_process live_runs.0 live_runs.1
