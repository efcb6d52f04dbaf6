-- ===== src/Tests/Runs.antt =====
-- A run of the whole program at the toy services.
use shopback_cashback_ledger.Prelude.{ℕ, String, List, [], ◌∷◌, ◌≡◌, refl}
use shopback_cashback_ledger.Schema.{created, LedgerEntry}
use shopback_cashback_ledger.Effect
use shopback_cashback_ledger.Calls
use shopback_cashback_ledger.Cashback
use shopback_cashback_ledger.Domain
use shopback_cashback_ledger.RuleCache
use shopback_cashback_ledger.RuleService
use shopback_cashback_ledger.Handler
use shopback_cashback_ledger.Idempotency
use shopback_cashback_ledger.Orders
use shopback_cashback_ledger.Outbox
use shopback_cashback_ledger.Consumer
use shopback_cashback_ledger.Retry
use shopback_cashback_ledger.Merchants
use shopback_cashback_ledger.Replay
use shopback_cashback_ledger.System.{run, step}
use shopback_cashback_ledger.Tests.Toy.{toy, world_with, life}

abbrev entries : List (LedgerEntry ℕ) → List (String × ℕ)
entries [] = []
entries (e ∷ es) = (e.order_id, e.amount) ∷ entries es

-- The order is credited once, 10 percent of 200 cut to the cap of 15.
life_ledger : entries (run toy life (world_with created)).db.ledger ≡ ("o1", 15) ∷ []
unfolding run step Merchants.upsert_rule Replay.replay_inbox_event Replay.replay_inbox_all
    Replay.replay_inbox Effect.pure Effect.raise Effect.handle Effect.catch Effect.continue
    Effect.◌>>=◌ Effect.or_else Effect.after_final Effect.conclude Effect.finally Calls.deliver
    Calls.perform Calls.call Calls.note_failure Calls.unless_aborted Calls.statement Calls.commit
    Calls.finish Calls.transaction Calls.now Calls.new_id Calls.send_event Calls.send_dead_letter
    Calls.count Calls.redis_get Calls.redis_set Calls.redis_set_nx Calls.redis_del Calls.wait
    Cashback.cashback Cashback.confirmed_order Cashback.already_credited Cashback.insert_credit
    Cashback.credit_order Domain.process_order_confirmed RuleCache.read_decimal
    RuleCache.decimal_cap RuleCache.to_decimal_rule RuleCache.parse_cached RuleCache.read_cache
    RuleCache.write_cache RuleCache.acquire_lock RuleCache.release_lock RuleCache.release_if
    RuleCache.read_again RuleCache.hit RuleCache.load_rule RuleCache.fill
    RuleCache.get_cashback_rule RuleService.invalidate Handler.credit_cached
    Handler.process_order_confirmed Handler.process_payload Idempotency.hash_request
    Idempotency.get_cached_response Idempotency.save_response Orders.create_order
    Orders.replay_response Orders.or_saved Orders.once Orders.create_response Orders.create_with_key
    Orders.create Orders.confirm_created Orders.confirm_by_status Orders.confirm_found
    Orders.confirm_and_outbox Orders.confirm_with_key Orders.confirm Outbox.backoff_ms
    Outbox.is_retryable_code Outbox.is_retryable_db_error Outbox.claim Outbox.mark_sent
    Outbox.send_claimed Outbox.fail_or_retry Outbox.publish_failed Outbox.attempt_event
    Outbox.publish_event Outbox.publish_all Outbox.due_events Outbox.publish_once
    Outbox.publish_round Consumer.receive Consumer.mark_processed Consumer.consume_event
    Consumer.consume_json Consumer.each_message Retry.backoff_ms Retry.attempt_event
    Retry.bury_event Retry.postpone Retry.retry_failed Retry.retry_event Retry.retry_all
    Retry.due_events Retry.retry_once
life_ledger = refl
