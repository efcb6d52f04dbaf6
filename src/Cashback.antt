-- ===== src/Cashback.antt =====
-- The cashback of an order, and its credit to the ledger: the part of `processOrderConfirmed` that
-- packages/domain/src/process-order-confirmed.ts and
-- apps/worker/src/handlers/process-order-confirmed.ts share, after the rule has been read.
pub mod Amount
pub mod Inserted
use shopback_cashback_ledger.Prelude.{
  String, Bool, true, false, Option, none, some, ◌==◌, text_comparable, if◌then◌else◌,
}
use shopback_cashback_ledger.Schema.{Order, OrderStatus, LedgerEntry, confirmed, credit}
use shopback_cashback_ledger.Errors.{
  Error, service, known_request, order_not_found, order_not_confirmed,
}
use shopback_cashback_ledger.Effect.{pure, raise, catch, ◌>>=◌}
use shopback_cashback_ledger.Services.{Services}
use shopback_cashback_ledger.World.{Io}
use shopback_cashback_ledger.Calls.{statement, new_id}
use shopback_cashback_ledger.Queries.{find_unique, create, on_orders, on_ledger}

-- `e instanceof Prisma.PrismaClientKnownRequestError && e.code === 'P2002'`
abbrev pub is_unique_violation : Error → Bool
is_unique_violation (service (known_request code)) = code == "P2002"
is_unique_violation _ = false

-- What `processOrderConfirmed` returns.
pub record Credit (S : Services) : Type 0 where
  pub order_id : String
  pub credited : Bool
  pub ledger_entry_id : Option String
  pub amount : S.Number
  pub currency : String

module _ (S : Services) where
  abbrev pub OrderRow : Type 0
  OrderRow = Order S.Decimal

  abbrev pub EntryRow : Type 0
  EntryRow = LedgerEntry S.Decimal

  -- `if (rule?.cap && cashback.greaterThan(rule.cap)) cashback = rule.cap`
  abbrev pub capped : S.Decimal → Option S.Decimal → S.Decimal
  capped amount none = amount
  capped amount (some cap) = if S.greater_than amount cap then cap else amount

  unfoldable pub cashback : S.Decimal → S.Decimal → Option S.Decimal → S.Decimal
  cashback amount rate cap = S.to_decimal_places 2 (capped (S.mul amount rate) cap)

  abbrev pub require_status : OrderRow → OrderStatus → Io S OrderRow
  require_status order confirmed = pure order
  require_status order status = raise (order_not_confirmed order.id status)

  abbrev pub require_order : String → Option OrderRow → Io S OrderRow
  require_order order_id none = raise (order_not_found order_id)
  require_order order_id (some order) = require_status order order.status

  -- The first two checks of the transaction.
  unfoldable pub confirmed_order : String → Io S OrderRow
  confirmed_order order_id = do
    order ← statement S (on_orders S (find_unique S.orders order_id))
    require_order order_id order

  abbrev pub credit_entry : String → OrderRow → S.Decimal → EntryRow
  credit_entry id order amount = record {
    id = id;
    user_id = order.user_id;
    order_id = order.id;
    type = credit;
    amount = S.to_scale 2 amount;
    currency = order.currency;
  }

  abbrev pub entry_id : Option EntryRow → Option String
  entry_id none = none
  entry_id (some e) = some e.id

  abbrev pub outcome_of : OrderRow → S.Decimal → Bool → Option String → Credit S
  outcome_of order amount credited id = record {
    order_id = order.id;
    credited = credited;
    ledger_entry_id = id;
    amount = S.to_number amount;
    currency = order.currency;
  }

  -- The `catch` of the insertion: a second credit of the order is answered with the first.
  unfoldable pub already_credited : OrderRow → S.Decimal → Error → Io S (Credit S)
  already_credited order amount e =
      if is_unique_violation e
      then (do
        existing ← statement S (on_ledger S (find_unique S.ledger (order.id, credit)))
        pure (outcome_of order amount false (entry_id existing)))
      else raise e

  unfoldable pub insert_credit : OrderRow → S.Decimal → Io S (Credit S)
  insert_credit order amount = do
    id ← new_id S
    entry ← statement S (on_ledger S (create S.ledger (credit_entry id order amount)))
    pure (outcome_of order amount true (some entry.id))

  unfoldable pub credit_order : OrderRow → S.Decimal → Option S.Decimal → Io S (Credit S)
  unfolding cashback already_credited insert_credit
  credit_order order rate cap =
      let amount = cashback order.amount rate cap in
      catch (insert_credit order amount) (already_credited order amount)
