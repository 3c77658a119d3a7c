-- ===== src/Health/Verdict.antt =====
-- The verdict of `healthcheck` for all outcomes of the probes.
use pricestream.Base.{ℕ, ◌≡◌, refl, ◌↔◌, ◌⊎◌, inl, inr, Option, arith}
use pricestream.Base.Text.{Text}
use pricestream.Base.Result.{Exn, Result, ok, raise}
use pricestream.Health.{
  Status, up, down, unknown, Fault, degraded, Response, check_database, check_redis, check_kafka,
  healthcheck,
}

-- The call raised.
abbrev pub Failed : Result (Unit {0}) → Type 0
Failed r = (x : Exn) × (r ≡ raise x)

abbrev pub verdict :
    (Text → Result ℕ)
    → (Text → ℕ → Result (Unit {0}))
    → Text
    → Result (Unit {0})
    → Result (Unit {0})
    → Response
verdict to_int connect servers db redis =
    healthcheck (check_database db) (check_redis redis) (check_kafka to_int connect servers)

-- Neither Redis failed, nor is Kafka down.
not_down {ℓ} : {A : Type ℓ} (s : Status) → Failed (ok tt) ⊎ (s ≡ down) → ¬ (s ≡ down) → A
not_down s (inl (x, h)) off = cc
not_down s (inr h) off = absurd (off h)

-- The same for any outcome of the third probe.
any_kafka :
    (db redis : Result (Unit {0})) (kafka : Status × Option Fault)
    → let r = healthcheck (check_database db) (check_redis redis) kafka in
      ((r.code ≡ 503) ↔ Failed db)
      × ((r.code ≡ 200) ↔ (db ≡ ok tt))
      × ((r.overall ≡ degraded) ↔ (db ≡ ok tt) × (Failed redis ⊎ (kafka.0 ≡ down)))
unfolding healthcheck check_database check_redis
any_kafka (raise x) redis kafka = (
  ((λ h. (x, refl)), (λ h. refl)),
  ((λ h. absurd (omega (arith, h))), (λ h. cc)),
  ((λ h. cc), (λ h. cc)),
)
any_kafka (ok _) (raise x) kafka = (
  ((λ h. absurd (omega (arith, h))), (λ (y, h). cc)),
  ((λ h. refl), (λ h. refl)),
  ((λ h. (refl, inl (x, refl))), (λ h. refl)),
)
any_kafka (ok _) (ok _) (down, f) = (
  ((λ h. absurd (omega (arith, h))), (λ (y, h). cc)),
  ((λ h. refl), (λ h. refl)),
  ((λ h. (refl, inr refl)), (λ h. refl)),
)
any_kafka (ok _) (ok _) (up, f) = (
  ((λ h. absurd (omega (arith, h))), (λ (y, h). cc)),
  ((λ h. refl), (λ h. refl)),
  ((λ h. cc), (λ (h, k). not_down up k (λ e. cc))),
)
any_kafka (ok _) (ok _) (unknown, f) = (
  ((λ h. absurd (omega (arith, h))), (λ (y, h). cc)),
  ((λ h. refl), (λ h. refl)),
  ((λ h. cc), (λ (h, k). not_down unknown k (λ e. cc))),
)

-- Whatever the port parser and the connection do, the response has code 503 exactly if the database
-- failed, and is else 200; it is degraded exactly if the database answered and Redis or Kafka is down.
-- A server list with no host never makes it degraded by itself.
pub verdict_lem :
    (to_int : Text → Result ℕ) (connect : Text → ℕ → Result (Unit {0})) (servers : Text)
    → (db redis : Result (Unit {0}))
    → let r = verdict to_int connect servers db redis in
      ((r.code ≡ 503) ↔ Failed db)
      × ((r.code ≡ 200) ↔ (db ≡ ok tt))
      × ((r.overall ≡ degraded)
          ↔ (db ≡ ok tt) × (Failed redis ⊎ ((check_kafka to_int connect servers).0 ≡ down)))
verdict_lem to_int connect servers db redis =
    any_kafka db redis (check_kafka to_int connect servers)
