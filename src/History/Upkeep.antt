-- ===== src/History/Upkeep.antt =====
-- The setting of rules and the replay of events change the tables by steps of the book.
use shopback_cashback_ledger.Prelude.{String, Bool, Option, none, some, List, [], ◌∷◌}
use shopback_cashback_ledger.Services.{Services}
use shopback_cashback_ledger.Calls.Respects.{Respects, respects_rules, Respects-bind}
use shopback_cashback_ledger.Orders.{OutboxRow}
use shopback_cashback_ledger.Consumer.{InboxRow}
use shopback_cashback_ledger.RuleService.{invalidate}
use shopback_cashback_ledger.Merchants.{UpsertCashbackRuleDto, require_cap, upsert_rule}
use shopback_cashback_ledger.Replay.{
  InboxArgs, OutboxArgs, replay_inbox_event, replay_outbox_event, replay_inbox_all,
  replay_outbox_all, replay_inbox, replay_outbox,
}
use shopback_cashback_ledger.History.{Follows}
use shopback_cashback_ledger.History.Actions.{on_rules-follows, on_inbox-follows}
use shopback_cashback_ledger.History.Outbox.{outbox_rules}

ruleset upkeep_rules = (respects_rules, on_rules-follows, on_inbox-follows, outbox_rules)

module _ (S : Services) where
  require_cap-follows : (o : Option (Option S.Decimal)) → Respects (Follows S) (require_cap S o)
  require_cap-follows none = search upkeep_rules
  require_cap-follows (some limit) = search upkeep_rules

  pub upsert_rule-follows :
      (merchant_id : String) (dto : UpsertCashbackRuleDto S)
      → Respects (Follows S) (upsert_rule S merchant_id dto)
  unfolding upsert_rule invalidate
  upsert_rule-follows merchant_id dto = search (upkeep_rules, require_cap-follows) depth 8

  inbox_event-follows :
      (reset : Bool) (r : InboxRow S) → Respects (Follows S) (replay_inbox_event S reset r)
  unfolding replay_inbox_event
  inbox_event-follows reset r = search upkeep_rules depth 8

  outbox_event-follows :
      (reset : Bool) (r : OutboxRow S) → Respects (Follows S) (replay_outbox_event S reset r)
  unfolding replay_outbox_event
  outbox_event-follows reset r = search upkeep_rules depth 8

  inbox_all-follows :
      (reset : Bool) (rs : List (InboxRow S)) → Respects (Follows S) (replay_inbox_all S reset rs)
  unfolding replay_inbox_all
  inbox_all-follows reset [] = search upkeep_rules
  inbox_all-follows reset (r ∷ rs) =
      Respects-bind _ _ (inbox_event-follows reset r) (λ done. inbox_all-follows reset rs)

  outbox_all-follows :
      (reset : Bool) (rs : List (OutboxRow S)) → Respects (Follows S) (replay_outbox_all S reset rs)
  unfolding replay_outbox_all
  outbox_all-follows reset [] = search upkeep_rules
  outbox_all-follows reset (r ∷ rs) =
      Respects-bind _ _ (outbox_event-follows reset r) (λ done. outbox_all-follows reset rs)

  pub replay_inbox-follows : (args : InboxArgs) → Respects (Follows S) (replay_inbox S args)
  unfolding replay_inbox
  replay_inbox-follows args = search (upkeep_rules, inbox_all-follows)

  pub replay_outbox-follows : (args : OutboxArgs) → Respects (Follows S) (replay_outbox S args)
  unfolding replay_outbox
  replay_outbox-follows args = search (upkeep_rules, outbox_all-follows)
