-- ===== src/Tests/Loops.antt =====
-- The theorems about the loops of the worker, its messages, the merchants' rules and replays, at concrete inputs.
use shopback_cashback_ledger.Prelude.{
  text_comparable, true, ℕ, zero, suc, String, none, some, [], ◌∷◌, ◌≡◌, ◌≢◌, refl, arith,
}
use shopback_cashback_ledger.Json.{null, str, obj, field, end}
use shopback_cashback_ledger.Schema.{created, confirmed, pending, sent, InboxEvent, InboxStatus}
use shopback_cashback_ledger.Errors.{Outcome, success, lost, other_fault, invalid_argument}
use shopback_cashback_ledger.Effect.{ok}
use shopback_cashback_ledger.Services.{Services}
use shopback_cashback_ledger.World.{World}
use shopback_cashback_ledger.Calls.{cached}
use shopback_cashback_ledger.RuleCache.{cache_key}
use shopback_cashback_ledger.Merchants.{upsert_rule, rule_json, new_rule}
use shopback_cashback_ledger.Merchants.Rules.{upsert_rule-fresh}
use shopback_cashback_ledger.Orders.{OutboxRow, confirmed_event, confirmed_payload}
use shopback_cashback_ledger.Outbox.{publish_event}
use shopback_cashback_ledger.Outbox.Marked.{publish_event-sent, publish_event-unsent}
use shopback_cashback_ledger.Consumer.{new_inbox}
use shopback_cashback_ledger.Retry.{retry_failed, retry_event}
use shopback_cashback_ledger.Retry.Settled.{Settled, retry_failed-Settled}
use shopback_cashback_ledger.Retry.Rounds.{Retried, start, retry, Reached, Retried-ends}
use shopback_cashback_ledger.Replay.{InboxArgs, replay_inbox}
use shopback_cashback_ledger.Replay.Handled.{IsHandled, replay_inbox-IsHandled}
use shopback_cashback_ledger.Tests.Toy.{
  toy, toy_with, calm, parse_event, world_of, world_with, order_with, settings, unary, rule_dto_of,
}

abbrev event : OutboxRow toy
event = confirmed_event toy "e1" 0 (order_with confirmed)

abbrev world_with_event : World toy
world_with_event = record (world_with confirmed) {
  db = record (world_with confirmed).db { outbox = event ∷ [] };
}

publish_event-sent_example :
    let (r, w') = publish_event toy settings event world_with_event in
    (r ≡ ok tt)
    × (w' ≡ record world_with_event {
      db = record world_with_event.db { outbox = w'.db.outbox };
      events =
          record {
            key = "o1";
            value = obj (
                field "id" (str "e1") (
                  field "type" (str "OrderConfirmed") (
                    field "aggregateId" (str "o1") (
                      field "payload"
                        (confirmed_payload toy (order_with confirmed) 0)
                        (field "createdAt" (str (unary 0)) end)))));
          }
          ∷ [];
      calls = 3;
    })
    × (toy.outbox.find "e1" w'.db.outbox
        ≡ some (record event { status = sent; attempts = 1; sent_at = some 2000 }))
    × ((k : String)
        → k ≢ "e1"
        → toy.outbox.find k w'.db.outbox ≡ toy.outbox.find k world_with_event.db.outbox)
publish_event-sent_example =
    publish_event-sent toy settings event world_with_event refl refl refl refl refl

-- The second call is lost.
abbrev second_lost : ℕ → Outcome
second_lost (suc zero) = lost (other_fault "broker down")
second_lost _ = success

abbrev brokerless : Services
brokerless = toy_with second_lost parse_event

abbrev brokerless_world : World brokerless
brokerless_world = record (world_of second_lost parse_event confirmed) {
  db = record (world_of second_lost parse_event confirmed).db { outbox = event ∷ [] };
}

publish_event-unsent_example :
    let (r, w') = publish_event brokerless settings event brokerless_world in
    (r ≡ ok tt)
    × (w' ≡ record brokerless_world {
      db = record brokerless_world.db { outbox = w'.db.outbox };
      calls = 4;
    })
    × (brokerless.outbox.find "e1" w'.db.outbox
        ≡ some (record event { status = pending; attempts = 1; available_at = 5000 }))
    × ((k : String)
        → k ≢ "e1"
        → brokerless.outbox.find k w'.db.outbox
          ≡ brokerless.outbox.find k brokerless_world.db.outbox)
publish_event-unsent_example =
    publish_event-unsent brokerless settings event brokerless_world refl refl refl refl refl refl

-- An inbox row with four attempts behind it.
abbrev inbox_row : InboxEvent ℕ
inbox_row = record (new_inbox toy "i1" 0 "e1" null) { attempts = 4 }

abbrev world_with_inbox : World toy
world_with_inbox = record (world_with confirmed) {
  db = record (world_with confirmed).db { inbox = inbox_row ∷ [] };
}

retry_failed-Settled_example :
    Settled toy settings inbox_row inbox_row
      (toy.error_text invalid_argument)
      world_with_inbox
      (retry_failed toy settings inbox_row invalid_argument world_with_inbox)
retry_failed-Settled_example =
    retry_failed-Settled toy settings inbox_row invalid_argument world_with_inbox refl refl refl
      refl

upsert_rule-fresh_example :
    let (r, w') = upsert_rule toy "m1" (rule_dto_of calm parse_event) (world_with created) in
    (r ≡ ok (rule_json toy (new_rule toy "m1" 50 (some 40))))
    × (toy.rules.find "m1" w'.db.rules ≡ some (new_rule toy "m1" 50 (some 40)))
    × (cached toy (cache_key "m1") w' ≡ none)
upsert_rule-fresh_example =
    upsert_rule-fresh toy "m1" (rule_dto_of calm parse_event) (world_with created) refl refl refl

-- The payload of the row names no order; its fifth attempt is its last.
Retried-once :
    Retried toy settings "i1" world_with_inbox 1
      (retry_event toy settings inbox_row world_with_inbox).1
Retried-once = retry 0 world_with_inbox inbox_row 0 _ start refl refl refl

Retried-ends_example :
    Reached toy
      (λ n. refl)
      settings
      "i1"
      4
      1
      (retry_event toy settings inbox_row world_with_inbox).1
Retried-ends_example =
    Retried-ends toy (λ n. refl) settings "i1" {w = world_with_inbox} {row = inbox_row} refl refl
      refl (omega arith) {n = 1} {v = (retry_event toy settings inbox_row world_with_inbox).1}
      Retried-once

-- One inbox row has failed and another one is processed; the failed ones are replayed.
abbrev failed_row : InboxEvent ℕ
failed_row = record inbox_row { status = InboxStatus.failed; last_error = some "error" }

abbrev processed_row : InboxEvent ℕ
processed_row = record inbox_row {
  id = "i2";
  source_event_id = "e2";
  status = InboxStatus.processed;
}

abbrev world_with_failed : World toy
world_with_failed = record (world_with confirmed) {
  db = record (world_with confirmed).db { inbox = processed_row ∷ failed_row ∷ [] };
}

abbrev replay_args : InboxArgs
replay_args = record { source_event_id = none; status = none; limit = none; reset_attempts = true }

replay_inbox-IsHandled_example :
    let (r, w') = replay_inbox toy replay_args world_with_failed in
    (r ≡ ok tt) × IsHandled toy failed_row replay_args (toy.inbox.find "i1" w'.db.inbox)
replay_inbox-IsHandled_example =
    replay_inbox-IsHandled toy failed_row (λ n. refl) replay_args world_with_failed refl
      (omega arith)
