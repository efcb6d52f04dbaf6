-- ===== src/Handler/Credits.antt =====
-- What the worker's `processOrderConfirmed` does to the tables on every branch, whatever calls of
-- it fail.
use shopback_cashback_ledger.Prelude.{String, Bool, ◌≡◌, refl, ◌⊎◌, inl, inr}
use shopback_cashback_ledger.Effect.{Result, ok, err, pure, raise, ◌>>=◌, ◌>>◌}
use shopback_cashback_ledger.Services.{Services}
use shopback_cashback_ledger.World.{Db, World}
use shopback_cashback_ledger.Calls.Post.{
  Post, Post-pure, Post-raise, Post-bind, Post-catch, Post-transaction, Post-weaken, Committed,
  Anyway, Then, OrCatch,
}
use shopback_cashback_ledger.Calls.Quiet.{Post-count}
use shopback_cashback_ledger.Cashback.{OrderRow, Credit, cashback, credit_order}
use shopback_cashback_ledger.Cashback.Inserted.{
  Changed, Answered, CreditPost, credit_order-Post, confirmed_order-Post,
}
use shopback_cashback_ledger.Domain.Credits.{IsConfirmedOrder}
use shopback_cashback_ledger.RuleCache.{DecimalRule}
use shopback_cashback_ledger.RuleCache.Quiet.{Unchanged, get_cashback_rule-Post}
use shopback_cashback_ledger.Handler.{
  credit_cached, process_order_confirmed, count_success, count_error,
}
use shopback_cashback_ledger.Calls.{count}

module _ (S : Services) where
  abbrev pub amount_by : DecimalRule S → OrderRow S → S.Decimal
  amount_by rule order = cashback S order.amount rule.rate rule.cap

  -- As for packages/domain, but for the rule, which the cache or the database gave.
  abbrev pub ProcessedByRule : Db S → String → Result (Credit S) → Db S → Type 0
  ProcessedByRule d order_id (ok c) d' =
      (order : OrderRow S) × (rule : DecimalRule S) × IsConfirmedOrder S d order_id order
      × Answered S d order (amount_by rule order) c d'
  ProcessedByRule d order_id (err e) d' =
      (d' ≡ d)
      ⊎ ((order : OrderRow S) × (rule : DecimalRule S) × IsConfirmedOrder S d order_id order
          × Changed S d order (amount_by rule order) d')

  credited-Committed :
      (d : Db S) (order_id : String) (order : OrderRow S) (rule : DecimalRule S)
      → IsConfirmedOrder S d order_id order
      → (r : Result (Credit S)) (d' : Db S) (b : Bool)
      → CreditPost S d order (amount_by rule order) r d' b
      → Committed d (ProcessedByRule d order_id) r d' b
  credited-Committed d order_id order rule h (ok c) d' b k =
      (k.0, (order, rule, h, k.1), λ e. inr (order, rule, h, k.1.changed))
  credited-Committed d order_id order rule h (err e) d' b k = tt

  -- The result is counted and goes on.
  pub failure-Post :
      (P : Result (Credit S) → Db S → Type 0) (r : Result (Credit S)) (d : Db S) (b : Bool)
      → P r d
      → OrCatch (λ e. count S count_error >> raise e) (Anyway P) r d b
  failure-Post P (ok c) d b k = k
  failure-Post P (err e) d b k = Post-bind _ _ _ (Post-count _ _ (Post-raise e _ k))

  pub result-Post :
      (P : Result (Credit S) → Db S → Type 0) (r : Result (Credit S)) (d : Db S) (b : Bool)
      → P r d
      → Then
          (λ result. count S count_success >>= λ _. pure result)
          (OrCatch (λ e. count S count_error >> raise e) (Anyway P))
          r
          d
          b
  result-Post P (ok c) d b k = Post-bind _ _ _ (Post-count _ _ (Post-pure c _ k))
  result-Post P (err e) d b k = failure-Post P (err e) d b k

  module _ (d : Db S) (order_id : String) where
    -- The rule was read with the tables unchanged, and the order is credited by it.
    after_rule :
        (order : OrderRow S)
        → IsConfirmedOrder S d order_id order
        → (r : Result (DecimalRule S)) (d' : Db S) (b : Bool) → Unchanged S d r d' b
        → Then
            (λ rule. credit_order S order rule.rate rule.cap)
            (Committed d (ProcessedByRule d order_id))
            r
            d'
            b
    after_rule order h (err e) d' b k = tt
    after_rule order h (ok rule) d' b k =
        rw (k.0, k.1)
          (Post-weaken _ (credit_order-Post S d order rule.rate rule.cap)
            (credited-Committed d order_id order rule h))

    credit_cached-Post :
        (b : Bool) → Post (credit_cached S order_id) d b (Anyway (ProcessedByRule d order_id))
    unfolding credit_cached
    credit_cached-Post b =
        Post-transaction _ d (ProcessedByRule d order_id) (λ f. inl refl)
          (Post-bind _ _ _ (
            confirmed_order-Post S d order_id _
              (λ order found is_confirmed. Post-bind _ _ _ (
                Post-weaken _ (get_cashback_rule-Post S d order.merchant_id)
                  (after_rule order (found, is_confirmed))))
              (λ e b'. tt)))

    pub process-Post :
        (b : Bool)
        → Post (process_order_confirmed S order_id) d b (Anyway (ProcessedByRule d order_id))
    unfolding process_order_confirmed
    process-Post b = Post-catch _ _ _ (
        Post-bind _ _ _
          (Post-weaken _ (credit_cached-Post b) (result-Post (ProcessedByRule d order_id))))

  -- For every world and every pattern of failing calls: an answer of the worker is about a stored
  -- order that is confirmed, names the credit that the ledger then holds for it, and gives the
  -- cashback under some rule; it says `credited` only if the order had no credit and the
  -- tables got exactly that one, of that cashback, and otherwise too they have changed by no more.
  -- After an error the tables are as they were, or got exactly one such credit of a stored,
  -- confirmed order that had none.
  pub process_order_confirmed-ProcessedByRule :
      (order_id : String) (w : World S)
      → let (r, w') = process_order_confirmed S order_id w in ProcessedByRule w.db order_id r w'.db
  process_order_confirmed-ProcessedByRule order_id w = (process-Post w.db order_id w.aborted).at w
