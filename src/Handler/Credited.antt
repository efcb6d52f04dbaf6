-- ===== src/Handler/Credited.antt =====
-- The worker credits a confirmed order when no call fails and the cache is coherent.
use shopback_cashback_ledger.Prelude.{ℕ, String, true, false, none, some, ◌≡◌, refl, ap, ◌∙◌}
use shopback_cashback_ledger.Schema.{credit}
use shopback_cashback_ledger.Errors.{success}
use shopback_cashback_ledger.Effect.{ok, catch, handle, pure, ◌>>=◌}
use shopback_cashback_ledger.Services.{Services}
use shopback_cashback_ledger.World.{Db, World}
use shopback_cashback_ledger.Calls.{transaction, finish, commit, count, tick}
use shopback_cashback_ledger.Calls.Answers.{Answer, Answer-Ends}
use shopback_cashback_ledger.Queries.{find_written}
use shopback_cashback_ledger.Cashback.{
  OrderRow, cashback, confirmed_order, credit_entry, outcome_of,
}
use shopback_cashback_ledger.Cashback.Inserted.{with_credit}
use shopback_cashback_ledger.Domain.Credits.{due, IsConfirmedOrder}
use shopback_cashback_ledger.RuleCache.{get_cashback_rule, snapshot_of, snapshot_json, DecimalRule}
use shopback_cashback_ledger.RuleCache.Fallback.{bind_ok}
use shopback_cashback_ledger.RuleCache.Coherent.{IsCoherent}
use shopback_cashback_ledger.RuleCache.Agreed.{Good, IsStored, get_cashback_rule-IsStored}
use shopback_cashback_ledger.RuleCache.Answered.{get_cashback_rule-Answers}
use shopback_cashback_ledger.Handler.{credit_cached, process_order_confirmed, count_success}
use shopback_cashback_ledger.Handler.Resilient.{confirmed_order-found, credit_order-fresh}

module _ (S : Services) where
  -- The rule of a merchant can be read from the cache as it is in the tables: `JSON.parse` reads back
  -- its text, the cache is coherent, and other processes keep it so.
  pub record IsReadable (w : World S) (merchant_id : String) : Type 0 where
    pub reads :
        let rule = snapshot_of S (S.rules.find merchant_id w.db.rules) in
        S.parse (S.stringify (snapshot_json S rule)) ≡ some (snapshot_json S rule)
    pub coherent : IsCoherent S w.db merchant_id w.cache
    pub others :
        (n : ℕ) (c : S.cache.Rows)
        → IsCoherent S w.db merchant_id c
        → IsCoherent S w.db merchant_id (S.meanwhile n c)

  module _ (calm : (n : ℕ) → S.outcome n ≡ success) (order_id : String) (order : OrderRow S)
      (w : World S) (h : IsConfirmedOrder S w.db order_id order)
      (absent : S.ledger.find (order.id, credit) w.db.ledger ≡ none)
      (readable : IsReadable w order.merchant_id) where
    -- The order has been read in its transaction.
    abbrev order_read : World S
    order_read = tick S (record w { aborted = false })

    good : Good S w.db order.merchant_id order_read
    good = record { tables = refl; coherent = readable.coherent }

    rule_answer :
        Answer (Good S w.db order.merchant_id) (get_cashback_rule S order.merchant_id) order_read
    rule_answer =
        (get_cashback_rule-Answers S w.db order.merchant_id calm readable.reads readable.others).at
          order_read good refl

    rule_facts :
        IsStored S w.db order.merchant_id rule_answer.value
        × Good S w.db order.merchant_id rule_answer.world
    rule_facts =
        Answer-Ends (Good S w.db order.merchant_id) (IsStored S w.db order.merchant_id) _ order_read
          rule_answer
          (get_cashback_rule-IsStored S w.db order.merchant_id readable.reads readable.others) good

    -- The amount by the rule that was read, and the world at the end of the transaction.
    abbrev amount : S.Decimal
    amount = cashback S order.amount rule_answer.value.rate rule_answer.value.cap

    abbrev new_id : String
    new_id = S.uuid rule_answer.world.calls

    abbrev credited : World S
    credited = tick S (
        tick S (record rule_answer.world {
          db = with_credit S rule_answer.world.db order new_id amount;
        }))

    credit_cached-credited :
        credit_cached S order_id w ≡ (ok (outcome_of S order amount true (some new_id)), credited)
    unfolding credit_cached transaction finish commit
    credit_cached-credited =
        let start : World S = record w { aborted = false } in
        let found = confirmed_order-found S order_id order start h refl (calm w.calls) in
        let free : S.ledger.find (order.id, credit) rule_answer.world.db.ledger ≡ none =
          ap (λ (d : Db S). S.ledger.find (order.id, credit) d.ledger) rule_facts.1.tables
          ∙ absent in
        rw
          (
            bind_ok S (confirmed_order S order_id) _ start found,
            bind_ok S (get_cashback_rule S order.merchant_id) _ order_read rule_answer.same,
            credit_order-fresh S order _ _ rule_answer.world free rule_answer.healthy (calm _),
            calm _,
            rule_answer.healthy,
          )
          refl

    pub process_order_confirmed-credited :
        (id : String) × (v : World S) × (process_order_confirmed S order_id w
          ≡ (ok (outcome_of S order (due S w.db order) true (some id)), v))
        × (S.ledger.find (order.id, credit) v.db.ledger
            ≡ some (credit_entry S id order (due S w.db order)))
    unfolding process_order_confirmed catch handle count pure ◌>>=◌
    process_order_confirmed-credited =
        let paid : amount ≡ due S w.db order =
          ap (λ (r : DecimalRule S). cashback S order.amount r.rate r.cap) rule_facts.0 in
        (
          new_id,
          record credited { metrics = count_success credited.metrics },
          (rw credit_cached-credited (rw paid refl)),
          ap (λ (d : Db S). S.ledger.find (order.id, credit) d.ledger)
                (ap (λ (x : S.Decimal). with_credit S rule_answer.world.db order new_id x) paid)
              ∙ find_written S.ledger (credit_entry S new_id order (due S w.db order))
                  rule_answer.world.db.ledger,
        )
