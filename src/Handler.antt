-- ===== src/Handler.antt =====
-- apps/worker/src/handlers/process-order-confirmed.ts: the credit of a confirmed order in the
-- worker, with the rule of the merchant read through the cache, and the call timed.
pub mod Agreed
pub mod Credited
pub mod Credits
pub mod Resilient
use shopback_cashback_ledger.Prelude.{suc, String, Option, some}
use shopback_cashback_ledger.Json.{Json, str}
use shopback_cashback_ledger.Errors.{invalid_argument}
use shopback_cashback_ledger.Effect.{pure, raise, catch, ◌>>=◌, ◌>>◌}
use shopback_cashback_ledger.Services.{Services}
use shopback_cashback_ledger.World.{Metrics, Io}
use shopback_cashback_ledger.Calls.{transaction, count}
use shopback_cashback_ledger.Cashback.{Credit, confirmed_order, credit_order}
use shopback_cashback_ledger.RuleCache.{get_cashback_rule}

abbrev pub count_success : Metrics → Metrics
count_success m = record m { handler_success = suc m.handler_success }

abbrev pub count_error : Metrics → Metrics
count_error m = record m { handler_error = suc m.handler_error }

module _ (S : Services) where
  unfoldable pub credit_cached : String → Io S (Credit S)
  credit_cached order_id = transaction S (do
    order ← confirmed_order S order_id
    rule ← get_cashback_rule S order.merchant_id
    credit_order S order rule.rate rule.cap)

  unfoldable pub process_order_confirmed : String → Io S (Credit S)
  unfolding credit_cached
  process_order_confirmed order_id =
      catch (do result ← credit_cached order_id; count S count_success; pure result)
        (λ e. count S count_error >> raise e)

  -- The argument is a member of a JSON value; Prisma refuses one that is no text, as the first
  -- statement of the transaction.
  unfoldable pub process_payload : Option (Json S.Number) → Io S (Credit S)
  unfolding process_order_confirmed
  process_payload (some (str order_id)) = process_order_confirmed order_id
  process_payload other = count S count_error >> raise invalid_argument
