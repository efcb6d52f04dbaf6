-- ===== src/History/Worker.antt =====
-- The worker, the domain package and the merchants' cache change the tables by steps of the book.
use shopback_cashback_ledger.Prelude.{
  ℕ, zero, suc, String, none, some, inl, inr, List, [], ◌∷◌, Option,
}
use shopback_cashback_ledger.Json.{Json, str}
use shopback_cashback_ledger.Effect.{Result, ok, err}
use shopback_cashback_ledger.Services.{Services}
use shopback_cashback_ledger.World.{Db}
use shopback_cashback_ledger.Calls.Respects.{Respects, Respects-bind, respects_rules}
use shopback_cashback_ledger.Cashback.{Credit}
use shopback_cashback_ledger.Domain
use shopback_cashback_ledger.Domain.Credits
use shopback_cashback_ledger.Handler
use shopback_cashback_ledger.Handler.{process_payload}
use shopback_cashback_ledger.Handler.Credits as HandlerCredits
use shopback_cashback_ledger.Outbox
use shopback_cashback_ledger.Outbox.{Settings}
use shopback_cashback_ledger.Orders.{OutboxRow}
use shopback_cashback_ledger.Consumer
use shopback_cashback_ledger.Consumer.{Delivery, InboxRow, each_message, mark_processed}
use shopback_cashback_ledger.Retry
use shopback_cashback_ledger.History.{view, Follows}
use shopback_cashback_ledger.History.Actions.{on_inbox-follows, Changed-follows}
use shopback_cashback_ledger.History.Outbox.{outbox_rules}
use shopback_cashback_ledger.Spec.{Steps, here}

module _ (S : Services) where
  domain_step :
      (d : Db S) (order_id : String) (r : Result (Credit S)) (d' : Db S)
      → Domain.Credits.Processed S d order_id r d'
      → Steps S (view S d) (view S d')
  domain_step d order_id (ok c) d' (order, h, k) =
      Changed-follows d d' order_id order _ _ h k.changed
  domain_step d order_id (err e) d' (inl same) = rw same here
  domain_step d order_id (err e) d' (inr (order, h, k)) =
      Changed-follows d d' order_id order _ _ h k

  pub domain-follows :
      (order_id : String) → Respects (Follows S) (Domain.process_order_confirmed S order_id)
  domain-follows order_id = record {
    at = λ w.
        let (r, w') = Domain.process_order_confirmed S order_id w in
        domain_step w.db order_id r w'.db
          (Domain.Credits.process_order_confirmed-Processed S order_id w);
  }

  handler_step :
      (d : Db S) (order_id : String) (r : Result (Credit S)) (d' : Db S)
      → HandlerCredits.ProcessedByRule S d order_id r d'
      → Steps S (view S d) (view S d')
  handler_step d order_id (ok c) d' (order, rule, h, k) =
      Changed-follows d d' order_id order _ _ h k.changed
  handler_step d order_id (err e) d' (inl same) = rw same here
  handler_step d order_id (err e) d' (inr (order, rule, h, k)) =
      Changed-follows d d' order_id order _ _ h k

  pub handler-follows :
      (order_id : String) → Respects (Follows S) (Handler.process_order_confirmed S order_id)
  handler-follows order_id = record {
    at = λ w.
        let (r, w') = Handler.process_order_confirmed S order_id w in
        handler_step w.db order_id r w'.db
          (HandlerCredits.process_order_confirmed-ProcessedByRule S order_id w);
  }

  payload-follows : (p : Option (Json S.Number)) → Respects (Follows S) (process_payload S p)
  unfolding process_payload
  payload-follows (some (str order_id)) = handler-follows order_id
  payload-follows none = search respects_rules
  payload-follows _ = search respects_rules

  pub mark_processed-follows : (e : InboxRow S) → Respects (Follows S) (mark_processed S e)
  unfolding mark_processed
  mark_processed-follows e = search (respects_rules, on_inbox-follows)

ruleset worker_rules =
    (respects_rules, outbox_rules, on_inbox-follows, payload-follows, mark_processed-follows)

module _ (S : Services) where
  send_claimed-follows :
      (e : OutboxRow S) (n : ℕ) → Respects (Follows S) (Outbox.send_claimed S e n)
  unfolding Outbox.send_claimed
  send_claimed-follows e zero = search worker_rules
  send_claimed-follows e (suc n) = search worker_rules

  event-follows :
      (settings : Settings) (e : OutboxRow S)
      → Respects (Follows S) (Outbox.publish_event S settings e)
  unfolding Outbox.publish_event
  event-follows settings e = search (worker_rules, send_claimed-follows) depth 8

  publish_all-follows :
      (settings : Settings) (es : List (OutboxRow S))
      → Respects (Follows S) (Outbox.publish_all S settings es)
  unfolding Outbox.publish_all
  publish_all-follows settings [] = search worker_rules
  publish_all-follows settings (e ∷ es) =
      Respects-bind _ _ (event-follows settings e) (λ done. publish_all-follows settings es)

  pub publish_round-follows :
      (settings : Settings) → Respects (Follows S) (Outbox.publish_round S settings)
  unfolding Outbox.publish_round
  publish_round-follows settings = search (worker_rules, publish_all-follows)

  consume-follows :
      (source : String) (payload : Json S.Number)
      → Respects (Follows S) (Consumer.consume_event S source payload)
  unfolding Consumer.consume_event
  consume-follows source payload = search worker_rules

  consume_json-follows :
      (key : String) (event : Option (Json S.Number))
      → Respects (Follows S) (Consumer.consume_json S key event)
  unfolding Consumer.consume_json
  consume_json-follows key none = search worker_rules
  consume_json-follows key (some event) = search (worker_rules, consume-follows)

  pub each_message-follows : (message : Delivery) → Respects (Follows S) (each_message S message)
  unfolding each_message
  each_message-follows message = search (worker_rules, consume_json-follows)

  attempt-follows : (e : InboxRow S) → Respects (Follows S) (Retry.attempt_event S e)
  unfolding Retry.attempt_event
  attempt-follows e = search worker_rules

  retry_event-follows :
      (settings : Settings) (e : InboxRow S) → Respects (Follows S) (Retry.retry_event S settings e)
  unfolding Retry.retry_event
  retry_event-follows settings e = search (worker_rules, attempt-follows) depth 8

  retry_all-follows :
      (settings : Settings) (es : List (InboxRow S))
      → Respects (Follows S) (Retry.retry_all S settings es)
  unfolding Retry.retry_all
  retry_all-follows settings [] = search worker_rules
  retry_all-follows settings (e ∷ es) =
      Respects-bind _ _ (retry_event-follows settings e) (λ done. retry_all-follows settings es)

  pub retry_once-follows :
      (settings : Settings) → Respects (Follows S) (Retry.retry_once S settings)
  unfolding Retry.retry_once
  retry_once-follows settings = search (worker_rules, retry_all-follows)
