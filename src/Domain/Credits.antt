-- ===== src/Domain/Credits.antt =====
-- What `processOrderConfirmed` of packages/domain does to the tables on every branch, whatever
-- calls of it fail.
use shopback_cashback_ledger.Prelude.{String, Bool, some, ◌≡◌, refl, ◌⊎◌, inl, inr}
use shopback_cashback_ledger.Schema.{confirmed}
use shopback_cashback_ledger.Effect.{Result, ok, err}
use shopback_cashback_ledger.Services.{Services}
use shopback_cashback_ledger.World.{Db, World}
use shopback_cashback_ledger.Calls.Post.{
  Post, Post-bind, Post-statement, Post-transaction, Committed, Anyway, Post-weaken,
}
use shopback_cashback_ledger.Cashback.{OrderRow, Credit, cashback}
use shopback_cashback_ledger.Cashback.Inserted.{
  Changed, Answered, CreditPost, credit_order-Post, confirmed_order-Post,
}
use shopback_cashback_ledger.Domain.{process_order_confirmed, rate_of, cap_of}

module _ (S : Services) where
  -- The cashback of an order under the rule that the tables hold for its merchant.
  abbrev pub due : Db S → OrderRow S → S.Decimal
  due d order =
      let rule = S.rules.find order.merchant_id d.rules in
      cashback S order.amount (rate_of S rule) (cap_of S rule)

  -- An order of the tables `d` that is confirmed.
  abbrev pub IsConfirmedOrder : Db S → String → OrderRow S → Type 0
  IsConfirmedOrder d order_id order =
      (S.orders.find order_id d.orders ≡ some order) × (order.status ≡ confirmed)

  -- How the call may end: an answer is about a confirmed order and agrees with the ledger; after
  -- an error nothing has changed, or the credit is there although it was not reported.
  abbrev pub Processed : Db S → String → Result (Credit S) → Db S → Type 0
  Processed d order_id (ok c) d' =
      (order : OrderRow S) × IsConfirmedOrder d order_id order
      × Answered S d order (due d order) c d'
  Processed d order_id (err e) d' =
      (d' ≡ d)
      ⊎ ((order : OrderRow S) × IsConfirmedOrder d order_id order
          × Changed S d order (due d order) d')

  pub credited-Committed :
      (d : Db S) (order_id : String) (order : OrderRow S)
      → IsConfirmedOrder d order_id order
      → (r : Result (Credit S)) (d' : Db S) (b : Bool) → CreditPost S d order (due d order) r d' b
      → Committed d (Processed d order_id) r d' b
  credited-Committed d order_id order h (ok c) d' b k =
      (k.0, (order, h, k.1), λ e. inr (order, h, k.1.changed))
  credited-Committed d order_id order h (err e) d' b k = tt

  pub process-Post :
      (d : Db S) (order_id : String) (b : Bool)
      → Post (process_order_confirmed S order_id) d b (Anyway (Processed d order_id))
  unfolding process_order_confirmed
  process-Post d order_id b =
      Post-transaction _ d (Processed d order_id) (λ f. inl refl)
        (Post-bind _ _ _ (
          confirmed_order-Post S d order_id _
            (λ order found is_confirmed. Post-bind _ _ _ (
              Post-statement _ d _
                (Post-weaken _ (credit_order-Post S d order _ _)
                  (credited-Committed d order_id order (found, is_confirmed)))
                (λ f. tt) (λ f. tt)))
            (λ e b'. tt)))

  -- For every world and every pattern of failing calls: an answer is about a stored order that is
  -- confirmed, names the credit that the ledger then holds for it, and gives the cashback under the
  -- rule stored for its merchant; it says `credited` only if the order had no credit and the tables
  -- got exactly that one, of that cashback, and otherwise too they have changed by no more. After
  -- an error the tables are as they were, or got exactly such a credit of a stored, confirmed
  -- order that had none.
  pub process_order_confirmed-Processed :
      (order_id : String) (w : World S)
      → let (r, w') = process_order_confirmed S order_id w in Processed w.db order_id r w'.db
  process_order_confirmed-Processed order_id w = (process-Post w.db order_id w.aborted).at w
