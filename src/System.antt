-- ===== src/System.antt =====
-- The program as a whole: the API's requests, the worker's loops, the messages that it consumes and
-- the replay command, in any order. Each operation is one step; what calls fail inside it the environment decides.
pub mod Delivered
pub mod Paid
pub mod Refinement
pub mod Safety
use shopback_cashback_ledger.Prelude.{String, Option, List, [], ◌∷◌}
use shopback_cashback_ledger.Services.{Services}
use shopback_cashback_ledger.World.{World}
use shopback_cashback_ledger.Domain
use shopback_cashback_ledger.Orders
use shopback_cashback_ledger.Orders.{CreateOrderDto}
use shopback_cashback_ledger.Merchants.{UpsertCashbackRuleDto, upsert_rule}
use shopback_cashback_ledger.Replay
use shopback_cashback_ledger.Replay.{InboxArgs, OutboxArgs}
use shopback_cashback_ledger.Outbox.{Settings, publish_round}
use shopback_cashback_ledger.Consumer.{Delivery, each_message}
use shopback_cashback_ledger.Retry.{retry_once}

pub data Operation (S : Services) : Type 0 where
  -- `POST /orders` and `POST /orders/:id/confirm`, with their idempotency keys
  create_order : Option String → CreateOrderDto S → Operation S
  confirm_order : Option String → String → Operation S
  -- a message of the topic of order events, new or delivered again
  deliver : Delivery → Operation S
  -- a round of the publisher, and one of the retry loop
  publish : Settings → Operation S
  retry : Settings → Operation S
  -- `POST /merchants/:id/cashback-rule`
  set_rule : String → UpsertCashbackRuleDto S → Operation S
  -- the command that replays events of the inbox or of the outbox
  replay_inbox : InboxArgs → Operation S
  replay_outbox : OutboxArgs → Operation S
  -- a direct call of packages/domain
  process : String → Operation S

module _ (S : Services) where
  unfoldable pub step : Operation S → World S → World S
  step (create_order key dto) w = (Orders.create S key dto w).1
  step (confirm_order key id) w = (Orders.confirm S key id w).1
  step (deliver message) w = (each_message S message w).1
  step (publish settings) w = (publish_round S settings w).1
  step (retry settings) w = (retry_once S settings w).1
  step (set_rule merchant_id dto) w = (upsert_rule S merchant_id dto w).1
  step (replay_inbox args) w = (Replay.replay_inbox S args w).1
  step (replay_outbox args) w = (Replay.replay_outbox S args w).1
  step (process order_id) w = (Domain.process_order_confirmed S order_id w).1

  unfoldable pub run : List (Operation S) → World S → World S
  run [] w = w
  run (op ∷ ops) w = run ops (step op w)
