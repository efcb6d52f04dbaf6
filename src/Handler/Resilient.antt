-- ===== src/Handler/Resilient.antt =====
-- The worker credits an order while Redis is down.
use shopback_cashback_ledger.Prelude.{suc, String, true, false, Option, none, some, ◌≡◌, refl}
use shopback_cashback_ledger.Schema.{credit}
use shopback_cashback_ledger.Errors.{Fault, success, lost}
use shopback_cashback_ledger.Effect.{ok, pure, catch, handle, ◌>>=◌}
use shopback_cashback_ledger.Services.{Services}
use shopback_cashback_ledger.World.{World}
use shopback_cashback_ledger.Calls.{
  call, statement, transaction, finish, commit, new_id, count, tick,
}
use shopback_cashback_ledger.Queries.{create_fresh, find_written}
use shopback_cashback_ledger.Cashback.{
  OrderRow, Credit, cashback, confirmed_order, credit_order, insert_credit, credit_entry,
  outcome_of,
}
use shopback_cashback_ledger.Cashback.Inserted.{with_credit}
use shopback_cashback_ledger.Domain.Credits.{due, IsConfirmedOrder}
use shopback_cashback_ledger.RuleCache.Fallback.{get_cashback_rule-fallback, waited, bind_ok}
use shopback_cashback_ledger.RuleCache.{get_cashback_rule}
use shopback_cashback_ledger.Handler.{credit_cached, process_order_confirmed, count_success}

module _ (S : Services) where
  pub confirmed_order-found :
      (order_id : String) (order : OrderRow S) (w : World S)
      → IsConfirmedOrder S w.db order_id order
      → w.aborted ≡ false
      → S.outcome w.calls ≡ success
      → confirmed_order S order_id w ≡ (ok order, tick S w)
  unfolding confirmed_order statement call pure ◌>>=◌
  confirmed_order-found order_id order w h healthy first = rw (healthy, first, h.0, h.1) refl

  pub credit_order-fresh :
      (order : OrderRow S) (rate : S.Decimal) (limit : Option S.Decimal) (w : World S)
      → S.ledger.find (order.id, credit) w.db.ledger ≡ none
      → w.aborted ≡ false
      → S.outcome w.calls ≡ success
      → let amount = cashback S order.amount rate limit in
        let id = S.uuid w.calls in
        credit_order S order rate limit w ≡ (
          ok (outcome_of S order amount true (some id)),
          tick S (record w { db = with_credit S w.db order id amount }),
        )
  unfolding credit_order insert_credit new_id statement call catch handle pure ◌>>=◌
  credit_order-fresh order rate limit w absent healthy first =
      let entry = credit_entry S (S.uuid w.calls) order (cashback S order.amount rate limit) in
      rw (healthy, first, create_fresh S.ledger entry w.db.ledger absent) refl

  -- The world when the rule has been read, from the start of the transaction.
  abbrev pub rule_read : World S → World S
  rule_read w = tick S (tick S (tick S (waited S (tick S (record w { aborted = false })))))

  -- The world at the end: the order has its credit.
  abbrev pub credited_world : OrderRow S → World S → World S
  credited_world order w =
      let v = rule_read w in
      let id = S.uuid v.calls in
      record (tick S (tick S (record v { db = with_credit S v.db order id (due S w.db order) }))) {
        metrics = count_success v.metrics;
      }

  abbrev pub credited_answer : OrderRow S → World S → Credit S
  credited_answer order w =
      outcome_of S order (due S w.db order) true (some (S.uuid (rule_read w).calls))

  credit_cached-credited :
      (order_id : String) (order : OrderRow S) (w : World S) {f f₁ f₂ f₃ : Fault}
      → IsConfirmedOrder S w.db order_id order
      → S.ledger.find (order.id, credit) w.db.ledger ≡ none
      → S.outcome w.calls ≡ success
      → S.outcome (suc w.calls) ≡ lost f
      → S.outcome (suc (suc w.calls)) ≡ lost f₁
      → S.outcome (suc (suc (suc (suc w.calls)))) ≡ lost f₂
      → S.outcome (suc (suc (suc (suc (suc w.calls))))) ≡ success
      → S.outcome (suc (suc (suc (suc (suc (suc w.calls)))))) ≡ lost f₃
      → S.outcome (rule_read w).calls ≡ success
      → S.outcome (suc (rule_read w).calls) ≡ success
      → credit_cached S order_id w ≡ (
        ok (credited_answer order w),
        record (credited_world order w) { metrics = (rule_read w).metrics },
      )
  unfolding credit_cached transaction finish commit
  credit_cached-credited order_id order w h absent o0 o1 o2 o4 o5 o6 o7 o8 =
      let start = record w { aborted = false } in
      let found = confirmed_order-found order_id order start h refl o0 in
      let rule =
        get_cashback_rule-fallback S order.merchant_id (tick S start) refl o1 o2 o4 o5 o6 in
      rw
        (
          bind_ok S (confirmed_order S order_id) _ start found,
          bind_ok S (get_cashback_rule S order.merchant_id) _ (tick S start) rule,
          credit_order-fresh order _ _ (rule_read w) absent refl o7,
          o8,
        )
        refl

  -- If every call of Redis is lost and every call of the database succeeds, the worker credits a
  -- confirmed order that has no credit: it answers `credited` with the id of the new entry and
  -- the cashback under the rule stored for the merchant, and the ledger has that entry.
  pub process_order_confirmed-resilient :
      (order_id : String) (order : OrderRow S) (w : World S) {f f₁ f₂ f₃ : Fault}
      → IsConfirmedOrder S w.db order_id order
      → S.ledger.find (order.id, credit) w.db.ledger ≡ none
      → S.outcome w.calls ≡ success
      → S.outcome (suc w.calls) ≡ lost f
      → S.outcome (suc (suc w.calls)) ≡ lost f₁
      → S.outcome (suc (suc (suc (suc w.calls)))) ≡ lost f₂
      → S.outcome (suc (suc (suc (suc (suc w.calls))))) ≡ success
      → S.outcome (suc (suc (suc (suc (suc (suc w.calls)))))) ≡ lost f₃
      → S.outcome (rule_read w).calls ≡ success
      → S.outcome (suc (rule_read w).calls) ≡ success
      → let (r, w') = process_order_confirmed S order_id w in
        (r ≡ ok (credited_answer order w))
        × (S.ledger.find (order.id, credit) w'.db.ledger
            ≡ some (credit_entry S (S.uuid (rule_read w).calls) order (due S w.db order)))
  unfolding process_order_confirmed catch handle count pure ◌>>=◌
  process_order_confirmed-resilient order_id order w h absent o0 o1 o2 o4 o5 o6 o7 o8 =
      let entry = credit_entry S (S.uuid (rule_read w).calls) order (due S w.db order) in
      rw (credit_cached-credited order_id order w h absent o0 o1 o2 o4 o5 o6 o7 o8)
        (refl, find_written S.ledger entry w.db.ledger)
