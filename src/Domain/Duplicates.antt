-- ===== src/Domain/Duplicates.antt =====
-- A second credit of an order on a database that refuses the statements after a failed one.
use shopback_cashback_ledger.Prelude.{String, Bool, true, false, Option, some, ◌≡◌, refl}
use shopback_cashback_ledger.Errors.{Error, unique_violation}
use shopback_cashback_ledger.Effect.{Result, ok, err}
use shopback_cashback_ledger.Services.{Services}
use shopback_cashback_ledger.World.{Db, World}
use shopback_cashback_ledger.Calls.Post.{
  Post, Post-weaken, Post-raise, Post-if, Post-bind, Post-catch, Post-new_id, Post-statement,
  Post-statement_aborted, Post-transaction, Committed, Anyway,
}
use shopback_cashback_ledger.Queries.{create_taken}
use shopback_cashback_ledger.Cashback.{
  OrderRow, EntryRow, Credit, credit_entry, cashback, credit_order, already_credited,
  is_unique_violation,
}
use shopback_cashback_ledger.Cashback.Inserted.{credit_of, confirmed_order-Post}
use shopback_cashback_ledger.Domain.{process_order_confirmed}

module _ (S : Services) (aborts : S.aborts ≡ true) where
  -- No answer.
  abbrev Fails : {A : Type 0} → Result A → Db S → Bool → Type 0
  Fails (ok a) d b = ⊥
  Fails (err e) d b = Unit {0}

  already_credited-Fails :
      (order : OrderRow S) (amount : S.Decimal) (e : Error) (d : Db S)
      → Post (already_credited S order amount e) d S.aborts Fails
  unfolding already_credited
  already_credited-Fails order amount e d = rw aborts (
      Post-if (is_unique_violation e) _
        (λ _. Post-bind _ _ _ (Post-statement_aborted _ d _ (λ f. tt))) (λ _. Post-raise e _ tt))

  credit_order-Fails :
      (d : Db S) (order : OrderRow S) (rate : S.Decimal) (limit : Option S.Decimal)
      {old : EntryRow S}
      → credit_of S d order ≡ some old
      → Post (credit_order S order rate limit) d false Fails
  unfolding credit_order
  credit_order-Fails d order rate limit taken =
      let amount = cashback S order.amount rate limit in
      let again = λ (e : Error). already_credited-Fails order amount e d in
      Post-catch _ _ _ (
        Post-bind _ _ _ (
          Post-new_id _ (λ id.
            let refused = create_taken S.ledger (credit_entry S id order amount) d.ledger taken in
            Post-bind _ _ _ (
              Post-statement _ d _ (rw refused (again unique_violation)) (λ f. again f)
                (λ f. rw refused (again f))))))

  -- The tables `d` hold the order, and the credit of it.
  pub record IsCredited (d : Db S) (order_id : String) (order : OrderRow S) (e : EntryRow S)
      : Type 0 where
    pub found : S.orders.find order_id d.orders ≡ some order
    pub has_credit : credit_of S d order ≡ some e

  abbrev pub Unanswered : Db S → Result (Credit S) → Db S → Type 0
  Unanswered d (ok c) d' = ⊥
  Unanswered d (err e) d' = d' ≡ d

  no_answer :
      (d : Db S) (r : Result (Credit S)) (d' : Db S) (b : Bool)
      → Fails r d' b
      → Committed d (Unanswered d) r d' b
  no_answer d (ok c) d' b k = absurd k
  no_answer d (err e) d' b k = tt

  process-Post :
      (d : Db S) (order_id : String) {order : OrderRow S} {e : EntryRow S} (b : Bool)
      → IsCredited d order_id order e
      → Post (process_order_confirmed S order_id) d b (Anyway (Unanswered d))
  unfolding process_order_confirmed
  process-Post d order_id {order} {e} b h =
      Post-transaction _ d (Unanswered d) (λ f. refl)
        (Post-bind _ _ _ (
          confirmed_order-Post S d order_id _
            (λ stored found is_confirmed.
              let same : stored ≡ order = cc (found, h.found) in
              Post-bind _ _ _ (
                Post-statement _ d _
                  (Post-weaken _ (credit_order-Fails d stored _ _ {old = e} (rw same h.has_credit))
                    (no_answer d))
                  (λ f. tt) (λ f. tt)))
            (λ f b'. tt)))

  -- On a database that refuses the statements of a transaction after one of them has failed, as
  -- PostgreSQL does, a call for an order that already has its credit gives no answer, whatever calls
  -- of it fail: it throws, and the tables stay as they are.
  pub duplicate-Unanswered :
      (order_id : String) (w : World S) {order : OrderRow S} {e : EntryRow S}
      → IsCredited w.db order_id order e
      → let (r, w') = process_order_confirmed S order_id w in Unanswered w.db r w'.db
  duplicate-Unanswered order_id w h = (process-Post w.db order_id w.aborted h).at w
