-- ===== src/Lib.antt =====
-- pricestream: quotes of several exchanges are polled, consolidated, broadcast, and rolled up into
-- bars. This library models the code below apps/pricing, and pricestream/settings.py.
--
-- Numbers (Rounding.antt, Decimal.antt, Clock.antt). `decimal.Decimal` rounds to 28 significant digits,
-- half to even; a Python float to 53 bits. Both are whole numbers of units here, 10 ^ -e and 2 ^ -g, and
-- the definitions take e and g: Python's own are e = 1000026 and g = 1074. The theorems hold for every
-- e and g, or for all above a small bound, which a statement shows as e = k + 11 or g + 20. The tests
-- run with e = 11 or e = 30, and g = 1074. An operation that raises returns a `Result` (Base/Result.antt). Not
-- modelled: NaN and the infinities, overflow at 10 ^ 1000000, and the digits that only `str` shows.
--
-- Models (Models.antt): the rows of apps/pricing/models.py as records, a foreign key being the
-- primary key of its row, a text the list of its code points.
--
-- Aggregator (Aggregator.antt, apps/pricing/aggregator.py): `consolidate` is the gate (`candidates`)
-- followed by `price_of`; `detect_arbitrage` is the filter `tradable` and the two loops `scan_buys`
-- and `scan_sells` with the turn `consider`. The clock is a sequence of readings, one for each call of
-- `timezone.now`.
--
-- Bars (Ohlc.antt, apps/pricing/kafka_consumer.py): `_bucket_start` and `_update_bar`. What a
-- `DecimalField` keeps of a value belongs to Django and the database, and is the parameter `column`,
-- of which the theorems suppose that it keeps the order and is stable (Ohlc/Summary.antt, `IsColumn`).
-- Not modelled: the bound of the column of `tick_count`, 2147483647 in Postgres.
--
-- Consumer (Consumer.antt, with Json.antt for the payloads; apps/pricing/kafka_consumer.py):
-- `read_event` is the part of `handle_event` before its loop, `update_bars` that loop, and `loop` the
-- body of `run_consumer`, over a sequence of rounds that says what each poll returned, what the clock
-- showed, and whether a signal came. The Kafka client, `json.loads`, `Decimal` of a payload's value
-- and `datetime.fromisoformat` are not code of the repository: the first two give the rounds, the
-- others are the fields of `Platform`. Not modelled: the connection, the log, and symbols that the
-- driver of the database refuses, those with a NUL or a lone surrogate.
--
-- Exchanges (Exchanges.antt, apps/pricing/exchanges.py): the symbols and the three `fetch` methods on
-- an answer, which is what `r.json()` returned or what the request raised. `str.upper` is that of ASCII.
--
-- Tasks (Tasks.antt, apps/pricing/tasks.py): `fetch_quotes` acts on a `World` (Tasks/Environment.antt)
-- of the tables, the counters of apps/pricing/metrics.py, the cache and the messages; a step that
-- raises ends the round and what was written stays. The settings, the exchanges' answers, the clock,
-- the database's columns, `publish_quote`, the cache and the channel layer are the fields of
-- `Services`, and so is the insert of `bulk_create`, one statement that may raise. Tasks/Reports.antt says with no state what a round is to write. Not modelled: the floats
-- that the gauges show, the duration of a round, labels that only repeat a setting, and the log.
--
-- Health (Health.antt, apps/pricing/health.py): the probes by what their calls did, and `healthcheck`.
-- The text of an error is the exception it comes from.
--
-- Stats (Stats.antt, apps/pricing/stats.py): `compute_rolling_stats` over the table of consolidated
-- prices. The database's order of rows and `statistics.pstdev` are the parameters `order_by` and
-- `stdev`. The window is any integer; Python raises OverflowError where its start is no time.
--
-- Producer (Producer.antt, apps/pricing/kafka_producer.py): `_get_producer` as the steps of threads
-- (`Move`, `Step`) on the module's variable and its lock, with Producer/Safety.antt and
-- Producer/Progress.antt for what its threads keep to and come to; `publish_quote` and `flush` on the messages
-- that a producer took. `confluent_kafka.Producer`, `json.dumps` and `str.encode` are not code of the
-- repository: a construction returns or raises, and the calls are the fields of `Kafka`.
--
-- Sockets (Sockets.antt, apps/pricing/consumers.py): the connections are a `Hub` on a channel layer,
-- which is a library's and a parameter (Sockets/Layer.antt, with the laws that the theorems suppose);
-- `broadcast` is what `_broadcast_ws` of apps/pricing/tasks.py has the layer do. `serve` runs a
-- sequence of connections, disconnections and broadcasts. Not modelled: the queue between the layer
-- and a connection, its delay, and its capacity, beyond which a layer drops messages.
--
-- Commands (Commands.antt, apps/pricing/management/commands/bootstrap_instruments.py): `handle` with
-- the rows of the instruments; what a new row gets from the database and the clock, and whether the
-- database takes it, are parameters.
--
-- Rest (Rest.antt and Rest/Serializers.antt, apps/pricing/views.py and serializers.py): the views that
-- have code of their own, on tables of rows with their related instrument. A parameter `Fields` says
-- how the framework shows numbers and times, `order_by` how the database orders rows, and `to_int` is
-- `int`. Not modelled: permissions, pages and the framework's own filters, urls.py, admin.py, the
-- metrics view and the dashboard, which only hand over to libraries.
--
-- Pipeline (Pipeline.antt): a round of `fetch_quotes`, the messages that Kafka took of it, and
-- `run_consumer` on these messages. That Kafka brings them in their order, and once, is a hypothesis.
--
-- Settings (Settings.antt, pricestream/settings.py): `load` makes the settings of a process that depend
-- on its environment, on `TESTING` or on `DEBUG`. The environment behind `decouple.config`, the casts,
-- `float` and `sentry_sdk.init` are the fields of `Process`. The constants that only the libraries read, such as the lists
-- of apps and middleware, the REST framework's and the log's, are not modelled.
--
-- Schema (Schema.antt): the tables with their fields, choices and options, as apps/pricing/models.py
-- declares them (Schema/Declared.antt) and as the operations of apps/pricing/migrations create them
-- (Schema/Created.antt, Schema/Migrations.antt). The names of indexes, the SQL and the way in which the
-- framework runs a migration are not modelled.
--
-- Samples.antt holds values that the tests of several modules share.
pub mod Base
pub mod Rounding
pub mod Decimal
pub mod Clock
pub mod Models
pub mod Aggregator
pub mod Exchanges
pub mod Ohlc
pub mod Json
pub mod Consumer
pub mod Samples
pub mod Tasks
pub mod Health
pub mod Stats
pub mod Producer
pub mod Sockets
pub mod Commands
pub mod Rest
pub mod Settings
pub mod Schema
pub mod Pipeline
