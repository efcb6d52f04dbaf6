-- ===== src/World.antt =====
-- The state that the program shares: the database, Redis, the messages that went to Kafka, the
-- metrics, and the number of external calls made so far, by which the environment's answers are
-- found. A step of the program is an effect on this state that may throw.
use shopback_cashback_ledger.Prelude.{ℕ, String, Bool, List}
use shopback_cashback_ledger.Json.{Json}
use shopback_cashback_ledger.Effect.{Effect}
use shopback_cashback_ledger.Services.{Services}

pub record Db (S : Services) : Type 0 where
  pub orders : S.orders.Rows
  pub rules : S.rules.Rows
  pub ledger : S.ledger.Rows
  pub keys : S.keys.Rows
  pub outbox : S.outbox.Rows
  pub inbox : S.inbox.Rows

-- A Kafka message: its key, and the value that `JSON.stringify` was given.
pub record Message (S : Services) : Type 0 where
  pub key : String
  pub value : Json S.Number

-- The counters and gauges of apps/worker/src/metrics.ts; of the histogram, how many times it was
-- observed with each label.
pub record Metrics : Type 0 where
  pub inbox_pending : ℕ
  pub inbox_failed : ℕ
  pub outbox_pending : ℕ
  pub dlq_produced : ℕ
  pub inbox_retries : ℕ
  pub cache_hits : ℕ
  pub cache_misses : ℕ
  pub handler_success : ℕ
  pub handler_error : ℕ

pub record World (S : Services) : Type 0 where
  pub db : Db S
  pub cache : S.cache.Rows
  pub events : List (Message S)
  pub dead_letters : List (Message S)
  pub metrics : Metrics
  pub calls : ℕ
  -- a statement of the open transaction has failed
  pub aborted : Bool

abbrev pub Io : Services → Type 0 → Type 0
Io S A = Effect (World S) A
