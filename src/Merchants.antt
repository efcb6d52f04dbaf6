-- ===== src/Merchants.antt =====
-- apps/api/src/merchants/merchants.controller.ts: setting the cashback rule of a merchant.
pub mod Rules
use shopback_cashback_ledger.Prelude.{String, Option, none, some}
use shopback_cashback_ledger.Json.{Json, null, str, num, obj, field, end}
use shopback_cashback_ledger.Schema.{CashbackRule}
use shopback_cashback_ledger.Errors.{invalid_decimal}
use shopback_cashback_ledger.Effect.{pure, raise, ◌>>=◌, ◌>>◌}
use shopback_cashback_ledger.Services.{Services}
use shopback_cashback_ledger.World.{Io}
use shopback_cashback_ledger.Calls.{call}
use shopback_cashback_ledger.Queries.{upsert, on_rules}
use shopback_cashback_ledger.Domain.{RuleRow}
use shopback_cashback_ledger.RuleService.{invalidate}

-- `UpsertCashbackRuleDto` after validation: `cap` is `undefined`, `null`, which `IsOptional` lets
-- through too, or a number.
pub record UpsertCashbackRuleDto (S : Services) : Type 0 where
  pub rate : S.Number
  pub cap : Option (Option S.Number)

module _ (S : Services) where
  -- `dto.cap === undefined ? null : new Prisma.Decimal(dto.cap)`, where `none` is a throw
  abbrev pub cap_value : Option (Option S.Number) → Option (Option S.Decimal)
  cap_value none = some none
  cap_value (some none) = none
  cap_value (some (some n)) = some (some (S.decimal_of_number n))

  abbrev pub require_cap : Option (Option S.Decimal) → Io S (Option S.Decimal)
  require_cap none = raise (invalid_decimal "null")
  require_cap (some limit) = pure limit

  -- The columns `rate` and `cap` have four and two decimal places.
  abbrev pub stored_rate : S.Decimal → S.Decimal
  stored_rate rate = S.to_scale 4 rate

  abbrev pub stored_cap : Option S.Decimal → Option S.Decimal
  stored_cap none = none
  stored_cap (some limit) = some (S.to_scale 2 limit)

  abbrev pub new_rule : String → S.Decimal → Option S.Decimal → RuleRow S
  new_rule merchant_id rate limit = record {
    merchant_id = merchant_id;
    rate = stored_rate rate;
    cap = stored_cap limit;
  }

  abbrev pub set_rule : S.Decimal → Option S.Decimal → RuleRow S → RuleRow S
  set_rule rate limit rule = record rule { rate = stored_rate rate; cap = stored_cap limit }

  abbrev pub limit_json : Option S.Decimal → Json S.Number
  limit_json none = null
  limit_json (some limit) = num (S.to_number limit)

  abbrev pub rule_json : RuleRow S → Json S.Number
  rule_json rule = obj (
      field "merchantId" (str rule.merchant_id)
        (field "rate" (num (S.to_number rule.rate)) (field "cap" (limit_json rule.cap) end)))

  unfoldable pub upsert_rule : String → UpsertCashbackRuleDto S → Io S (Json S.Number)
  upsert_rule merchant_id dto = do
    limit ← require_cap (cap_value dto.cap)
    rule ← call S (
        on_rules S (
          upsert S.rules merchant_id (set_rule (S.decimal_of_number dto.rate) limit)
            (new_rule merchant_id (S.decimal_of_number dto.rate) limit)))
    invalidate S merchant_id
    pure (rule_json rule)
