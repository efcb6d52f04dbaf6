-- ===== src/Cashback/Inserted.antt =====
-- What the credit of an order does to the tables, whatever calls of it fail.
use shopback_cashback_ledger.Prelude.{
  String, Bool, true, false, Option, none, some, ◌≡◌, refl, ◌⊎◌, inl, inr, Option-cases, eq_iff,
  arith,
}
use shopback_cashback_ledger.Schema.{created, confirmed, cancelled, credit, OrderStatus}
use shopback_cashback_ledger.Errors.{Error, unique_violation}
use shopback_cashback_ledger.Effect.{Result, ok, err, pure}
use shopback_cashback_ledger.Services.{Services}
use shopback_cashback_ledger.World.{Db}
use shopback_cashback_ledger.Calls.Post.{
  Post, Post-pure, Post-raise, Post-if, Post-bind, Post-catch, Post-new_id, Post-statement,
  Post-statement_aborted, OrCatch, Then,
}
use shopback_cashback_ledger.Queries.{create, on_ledger, create_fresh, create_taken}
use shopback_cashback_ledger.Calls.{statement}
use shopback_cashback_ledger.Cashback.{
  OrderRow, EntryRow, Credit, credit_entry, outcome_of, cashback, credit_order, already_credited,
  is_unique_violation, entry_id, confirmed_order, require_order, require_status,
}

module _ (S : Services) where
  -- The credit of an order in the ledger.
  abbrev pub credit_of : Db S → OrderRow S → Option (EntryRow S)
  credit_of d order = S.ledger.find (order.id, credit) d.ledger

  -- The tables with one more credit, of `amount` to the user of `order`.
  abbrev pub with_credit : Db S → OrderRow S → String → S.Decimal → Db S
  with_credit d order id amount = record d {
    ledger = S.ledger.write (credit_entry S id order amount) d.ledger;
  }

  -- An order without a credit has one, and nothing else has changed.
  abbrev pub Added : Db S → OrderRow S → S.Decimal → Db S → Type 0
  Added d order amount d' =
      (id : String) × (credit_of d order ≡ none) × (d' ≡ with_credit d order id amount)

  -- Nothing has changed, or an order without a credit has one.
  abbrev pub Changed : Db S → OrderRow S → S.Decimal → Db S → Type 0
  Changed d order amount d' = (d' ≡ d) ⊎ Added d order amount d'

  -- The answer names the credit that the ledger holds, and says `credited` only for a new one.
  pub record Answered (d : Db S) (order : OrderRow S) (amount : S.Decimal) (c : Credit S)
      (d' : Db S) : Type 0 where
    pub changed : Changed d order amount d'
    pub answer : c ≡ outcome_of S order amount c.credited (entry_id S (credit_of d' order))
    pub added : c.credited ≡ true → Added d order amount d'

  -- How a credit may end inside its transaction.
  abbrev pub CreditPost : Db S → OrderRow S → S.Decimal → Result (Credit S) → Db S → Bool → Type 0
  CreditPost d order amount (ok c) d' b = (b ≡ false) × Answered d order amount c d'
  CreditPost d order amount (err e) d' b = Unit {0}

  credit_of-with_credit :
      (d : Db S) (order : OrderRow S) (id : String) (amount : S.Decimal)
      → credit_of (with_credit d order id amount) order ≡ some (credit_entry S id order amount)
  credit_of-with_credit d order id amount = ground (
    arith,
    S.ledger.find-write (order.id, credit) (credit_entry S id order amount) d.ledger,
    eq_iff order.id order.id,
  )

  module _ (d : Db S) (order : OrderRow S) (amount : S.Decimal) where
    already_credited-Post :
        (e : Error) (d₁ : Db S) (b : Bool)
        → Changed d order amount d₁
        → Post (already_credited S order amount e) d₁ b (CreditPost d order amount)
    unfolding already_credited
    already_credited-Post e d₁ true h =
        Post-if (is_unique_violation e) _
          (λ _. Post-bind _ _ _ (Post-statement_aborted _ d₁ _ (λ f. tt))) (λ _. Post-raise e _ tt)
    already_credited-Post e d₁ false h =
        Post-if (is_unique_violation e) _
          (λ _. Post-bind _ _ _ (
            Post-statement _ d₁ _
              (Post-pure _ _ (refl, record { changed = h; answer = refl; added = λ q. cc }))
              (λ f. tt) (λ f. tt)))
          (λ _. Post-raise e _ tt)

    abbrev AfterInsert : Result (Credit S) → Db S → Bool → Type 0
    AfterInsert = OrCatch (already_credited S order amount) (CreditPost d order amount)

    inserted :
        (id : String)
        → Post
            (statement S (on_ledger S (create S.ledger (credit_entry S id order amount))))
            d
            false
            (Then (λ entry. pure (outcome_of S order amount true (some entry.id))) AfterInsert)
    inserted id = elim (Option-cases (credit_of d order)) [
      | inl absent ↦
          Post-statement _ d _
            (rw (create_fresh S.ledger (credit_entry S id order amount) d.ledger absent) (
              Post-pure _ AfterInsert (
                refl,
                record {
                  changed = inr (id, absent, refl);
                  answer = rw (credit_of-with_credit d order id amount);
                  added = λ _. (id, absent, refl);
                },
              )))
            (λ f. already_credited-Post f d S.aborts (inl refl))
            (λ f. rw (create_fresh S.ledger (credit_entry S id order amount) d.ledger absent) (
              already_credited-Post f (with_credit d order id amount) S.aborts
                (inr (id, absent, refl))))
      | inr (old, taken) ↦
          Post-statement _ d _
            (rw (create_taken S.ledger (credit_entry S id order amount) d.ledger taken)
              (already_credited-Post unique_violation d S.aborts (inl refl)))
            (λ f. already_credited-Post f d S.aborts (inl refl))
            (λ f.
              rw (create_taken S.ledger (credit_entry S id order amount) d.ledger taken)
                (already_credited-Post f d S.aborts (inl refl)))
    ]

  -- Crediting an order, from tables without a failed statement, ends in an error or in an answer
  -- that agrees with the ledger.
  pub credit_order-Post :
      (d : Db S) (order : OrderRow S) (rate : S.Decimal) (limit : Option S.Decimal)
      → Post
          (credit_order S order rate limit)
          d
          false
          (CreditPost d order (cashback S order.amount rate limit))
  unfolding credit_order
  credit_order-Post d order rate limit =
      let amount = cashback S order.amount rate limit in
      Post-catch _ _ _
        (Post-bind _ _ _ (Post-new_id _ (λ id. Post-bind _ _ _ (inserted d order amount id))))

  -- The order that the first two checks let through is stored, and confirmed.
  pub confirmed_order-Post :
      (d : Db S) (order_id : String) (Q : Result (OrderRow S) → Db S → Bool → Type 0)
      → ((order : OrderRow S)
          → S.orders.find order_id d.orders ≡ some order
          → order.status ≡ confirmed
          → Q (ok order) d false)
      → ((e : Error) (b : Bool) → Q (err e) d b)
      → Post (confirmed_order S order_id) d false Q
  unfolding confirmed_order
  confirmed_order-Post d order_id Q found failed = Post-bind _ _ _ (
      Post-statement _ d _ (checked (S.orders.find order_id d.orders) refl) (λ f. failed f S.aborts)
        (λ f. failed f S.aborts))
    where
      by_status :
          (order : OrderRow S) (status : OrderStatus)
          → S.orders.find order_id d.orders ≡ some order
          → order.status ≡ status
          → Post (require_status S order status) d false Q
      by_status order confirmed e s = Post-pure order Q (found order e s)
      by_status order created e s = Post-raise _ Q (failed _ false)
      by_status order cancelled e s = Post-raise _ Q (failed _ false)

      checked :
          (o : Option (OrderRow S))
          → S.orders.find order_id d.orders ≡ o
          → Post (require_order S order_id o) d false Q
      checked none e = Post-raise _ Q (failed _ false)
      checked (some order) e = by_status order order.status e refl
