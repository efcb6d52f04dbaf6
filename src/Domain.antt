-- ===== src/Domain.antt =====
-- packages/domain/src/process-order-confirmed.ts: the credit of a confirmed order, with the rule of
-- the merchant read from the database.
pub mod Credits
pub mod Duplicates
use shopback_cashback_ledger.Prelude.{String, Option, none, some}
use shopback_cashback_ledger.Schema.{CashbackRule}
use shopback_cashback_ledger.Effect.{◌>>=◌}
use shopback_cashback_ledger.Services.{Services}
use shopback_cashback_ledger.World.{Io}
use shopback_cashback_ledger.Calls.{statement, transaction}
use shopback_cashback_ledger.Queries.{find_unique, on_rules}
use shopback_cashback_ledger.Cashback.{Credit, confirmed_order, credit_order}

module _ (S : Services) where
  abbrev pub RuleRow : Type 0
  RuleRow = CashbackRule S.Decimal

  -- `new Prisma.Decimal('0.05')`
  abbrev pub default_rate : S.Decimal
  default_rate = S.five_percent

  -- `rule?.rate ?? new Prisma.Decimal('0.05')` and `rule?.cap`
  abbrev pub rate_of : Option RuleRow → S.Decimal
  rate_of none = default_rate
  rate_of (some rule) = rule.rate

  abbrev pub cap_of : Option RuleRow → Option S.Decimal
  cap_of none = none
  cap_of (some rule) = rule.cap

  unfoldable pub process_order_confirmed : String → Io S (Credit S)
  process_order_confirmed order_id = transaction S (do
    order ← confirmed_order S order_id
    rule ← statement S (on_rules S (find_unique S.rules order.merchant_id))
    credit_order S order (rate_of rule) (cap_of rule))
