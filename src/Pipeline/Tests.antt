-- ===== src/Pipeline/Tests.antt =====
-- The round of the crossed book with a Kafka that takes every message, and a run of the consumer on the
-- two messages.
use pricestream.Base.{refl}
use pricestream.Base.Result.{ok}
use pricestream.Tasks.{Counts, fetch_quotes}
use pricestream.Base.{List, [], ◌∷◌, false, refl}
use pricestream.Base.Int.{pos}
use pricestream.Base.Text.{Text}
use pricestream.Models.{Quote}
use pricestream.Ohlc.Bucket.{at}
use pricestream.Consumer.{Round, message}
use pricestream.Producer.{payload_of}
use pricestream.Samples.Wire.{str, isoformat}
use pricestream.Tasks.Environment.{World, Services}
use pricestream.Tasks.Samples.{services, empty}

abbrev taking : Services
taking = record services { publish = λ t s q. ok tt }

abbrev after_round : World
after_round = (fetch_quotes taking 11 1074 empty).1

abbrev round_counts : Counts
round_counts = record { quotes = 2; consolidated = 1; arbitrages = 1 }

-- One round of the consumer for a message.
abbrev bring : Text × Quote → Round
bring (symbol, q) = record {
  stopped_before = false;
  stopped_after = false;
  poll = message (ok (payload_of str isoformat symbol q));
  now = at 0 (pos 0);
}

abbrev bring_all : List (Text × Quote) → List Round
bring_all [] = []
bring_all (m ∷ ms) = bring m ∷ bring_all ms
