-- ===== src/System/Refinement.antt =====
-- The program implements the book: each operation is a sequence of steps of it.
use shopback_cashback_ledger.Prelude.{List, [], ◌∷◌}
use shopback_cashback_ledger.Services.{Services}
use shopback_cashback_ledger.World.{World}
use shopback_cashback_ledger.Spec.{Steps, here, Steps-trans}
use shopback_cashback_ledger.History.{view}
use shopback_cashback_ledger.History.Api.{create-follows, confirm-follows}
use shopback_cashback_ledger.History.Worker.{
  domain-follows, publish_round-follows, each_message-follows, retry_once-follows,
}
use shopback_cashback_ledger.History.Upkeep.{
  upsert_rule-follows, replay_inbox-follows, replay_outbox-follows,
}
use shopback_cashback_ledger.System.{
  Operation, create_order, confirm_order, deliver, publish, retry, process, set_rule, replay_inbox,
  replay_outbox, step, run,
}

module _ (S : Services) where
  step-Steps : (op : Operation S) (w : World S) → Steps S (view S w.db) (view S (step S op w).db)
  unfolding step
  step-Steps (create_order key dto) w = (create-follows S key dto).at w
  step-Steps (confirm_order key id) w = (confirm-follows S key id).at w
  step-Steps (deliver message) w = (each_message-follows S message).at w
  step-Steps (publish settings) w = (publish_round-follows S settings).at w
  step-Steps (retry settings) w = (retry_once-follows S settings).at w
  step-Steps (set_rule merchant_id dto) w = (upsert_rule-follows S merchant_id dto).at w
  step-Steps (replay_inbox args) w = (replay_inbox-follows S args).at w
  step-Steps (replay_outbox args) w = (replay_outbox-follows S args).at w
  step-Steps (process order_id) w = (domain-follows S order_id).at w

  -- Any operations, in any order and with any of their calls failing, change orders, credits and
  -- events only by steps of the book: they place orders, confirm orders in `CREATED` together with
  -- one new event, give confirmed orders without a credit their cashback under some rule, and move
  -- events on.
  pub run-Steps :
      (ops : List (Operation S)) (w : World S) → Steps S (view S w.db) (view S (run S ops w).db)
  unfolding run
  run-Steps [] w = here
  run-Steps (op ∷ ops) w = Steps-trans S (step-Steps op w) (run-Steps ops (step S op w))
