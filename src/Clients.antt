-- ===== src/Clients.antt =====
-- The clients and the environment: getRedis of apps/api/src/cache/redis.client.ts and of
-- apps/worker/src/cache/redis.client.ts, and what apps/worker/src/index.ts, consumer.ts,
-- inbox-retry.ts, metrics-refresh.ts and metrics-server.ts read of `process.env`; the answers of
-- apps/api/src/health/health.controller.ts and apps/api/src/app.service.ts.
use shopback_cashback_ledger.Prelude.{
  String, Option, none, some, text_comparable, ◌≡◌, ◌≢◌, refl, sym,
}
use shopback_cashback_ledger.Config.{Environment}
use shopback_cashback_ledger.Platform.{Platform}

-- `value ?? other`
abbrev pub value_or : Option String → String → String
value_or none other = other
value_or (some value) other = value

module _ (env : Environment) where
  abbrev pub broker : String
  broker = value_or (env "KAFKA_BROKER") "localhost:9092"

  abbrev pub client_id : String
  client_id = value_or (env "SERVICE_NAME") "sb-ledger-worker"

  -- The topic that events are published to, and the one that the consumer subscribes to.
  abbrev pub outbox_topic : String
  outbox_topic = value_or (env "OUTBOX_TOPIC") "order.events"

  abbrev pub event_topic : String
  event_topic = value_or (env "EVENT_TOPIC") "order.events"

  abbrev pub group_id : String
  group_id = value_or (env "CONSUMER_GROUP") "sb-ledger-consumer"

  abbrev pub dlq_topic : String
  dlq_topic = value_or (env "DLQ_TOPIC") "order.events.dlq"

  -- What `GET /health` says of the version.
  abbrev pub version : String
  version = value_or (env "VERSION") "dev"

abbrev pub hello : String
hello = "Hello World!"

module _ (P : Platform) (env : Environment) where
  -- `Number(process.env.X ?? '...')`
  abbrev pub number_or : String → String → P.Number
  number_or name other = P.number_of_text (value_or (env name) other)

  abbrev pub poll_interval_ms : P.Number
  poll_interval_ms = number_or "POLL_INTERVAL_MS" "1000"

  abbrev pub batch_size : P.Number
  batch_size = number_or "BATCH_SIZE" "50"

  abbrev pub max_attempts : P.Number
  max_attempts = number_or "MAX_ATTEMPTS" "5"

  abbrev pub retry_batch_size : P.Number
  retry_batch_size = number_or "RETRY_BATCH_SIZE" "50"

  abbrev pub refresh_interval_ms : P.Number
  refresh_interval_ms = number_or "METRICS_REFRESH_MS" "2000"

  abbrev pub metrics_port : P.Number
  metrics_port = number_or "METRICS_PORT" "9100"

-- `new Redis({ host, port, ... })`
pub record RedisOptions (P : Platform) : Type 0 where
  pub host : String
  pub port : P.Number

module _ (P : Platform) where
  abbrev pub redis_options : Environment → RedisOptions P
  redis_options env = record {
    host = value_or (env "REDIS_HOST") "localhost";
    port = number_or P env "REDIS_PORT" "6379";
  }

  module _ {Redis : Type 0} (connect : RedisOptions P → Redis) where
    -- `getRedis`, by the client that `globalThis` holds
    unfoldable pub get_redis : Environment → Option Redis → Redis × Option Redis
    get_redis env none = let redis = connect (redis_options env) in (redis, some redis)
    get_redis env (some redis) = (redis, some redis)

    -- Once there is a client, every call of `getRedis` gives that one, whatever the environment says
    -- by then.
    get_redis_lem :
        (env env' : Environment) (held : Option Redis)
        → let (redis, held') = get_redis env held in get_redis env' held' ≡ (redis, held')
    unfolding get_redis
    get_redis_lem env env' none = refl
    get_redis_lem env env' (some redis) = refl

-- The publisher and the consumer use two variables for the topic: if only `EVENT_TOPIC` is set, to
-- another topic than the default, then events are published to a topic that is not consumed.
topics-ne :
    (env : Environment) {topic : String}
    → env "OUTBOX_TOPIC" ≡ none
    → env "EVENT_TOPIC" ≡ some topic
    → topic ≢ "order.events"
    → outbox_topic env ≢ event_topic env
topics-ne env unset set other = rw (unset, set) (λ e. other (sym e))
