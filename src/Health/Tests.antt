-- ===== src/Health/Tests.antt =====
-- The health check with Kafka unconfigured, and with Redis down.
use pricestream.Base.{ℕ, ◌≡◌, ◌↔◌, ◌⊎◌, refl, none, some, []}
use pricestream.Base.Text.{Text, text, partition}
use pricestream.Base.Result.{Result, ok, raise, not_found, value_error}
use pricestream.Health.{
  check_kafka, check_database, check_redis, healthcheck, up, down, unknown, no_servers, degraded,
}
use pricestream.Health.Verdict.{Failed, verdict, verdict_lem}

unconfigured : check_kafka (λ s. raise value_error) (λ h p. ok tt) [] ≡ (unknown, some no_servers)
unfolding check_kafka partition
unconfigured = refl

default_port : check_kafka (λ s. raise value_error) (λ h p. ok tt) (text "kafka") ≡ (up, none)
unfolding check_kafka partition
default_port = refl

redis_down :
    (verdict (λ s. ok 9093) (λ h p. ok tt) (text "kafka:9093") (ok tt) (raise not_found)).overall
    ≡ degraded
unfolding healthcheck check_database check_redis
redis_down = refl

abbrev answered : Result (Unit {0})
answered = ok tt

abbrev lost : Result (Unit {0})
lost = raise not_found

abbrev reach : Text → ℕ → Result (Unit {0})
reach = λ h p. ok tt

verdict_lem_example :
    let r = verdict (λ s. ok 9093) reach (text "kafka:9093") answered lost in
    ((r.code ≡ 503) ↔ Failed answered)
    × ((r.code ≡ 200) ↔ (answered ≡ ok tt))
    × ((r.overall ≡ degraded)
        ↔ (answered ≡ ok tt)
          × (Failed lost ⊎ ((check_kafka (λ s. ok 9093) reach (text "kafka:9093")).0 ≡ down)))
verdict_lem_example = verdict_lem (λ s. ok 9093) reach (text "kafka:9093") answered lost
