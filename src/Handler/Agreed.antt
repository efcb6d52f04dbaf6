-- ===== src/Handler/Agreed.antt =====
-- The worker's `processOrderConfirmed` against that of packages/domain: with a cache that agrees
-- with the tables it meets the same specification.
use shopback_cashback_ledger.Prelude.{ℕ, String, Bool, false, Option, none, some, ◌≡◌, refl, inl}
use shopback_cashback_ledger.Schema.{OrderStatus, confirmed, created, cancelled}
use shopback_cashback_ledger.Errors.{Error}
use shopback_cashback_ledger.Effect.{Result, ok, err, continue, raise, catch, ◌>>=◌, ◌>>◌}
use shopback_cashback_ledger.Services.{Services}
use shopback_cashback_ledger.World.{Db, World}
use shopback_cashback_ledger.Calls.{transaction, count}
use shopback_cashback_ledger.Calls.Post.{
  Post-weaken, Post-from, Committed, OrCatch, Anyway, continued, handled, finished,
}
use shopback_cashback_ledger.Calls.Ensures.{
  Ends, Ensures, Anything, Ensures-pure, Ensures-raise, Ensures-bind, Ensures-statement, held,
  OnCache,
}
use shopback_cashback_ledger.Cashback.{
  OrderRow, Credit, credit_order, confirmed_order, require_order, require_status,
}
use shopback_cashback_ledger.Cashback.Inserted.{credit_order-Post, confirmed_order-Post}
use shopback_cashback_ledger.Domain.Credits.{IsConfirmedOrder, Processed, credited-Committed}
use shopback_cashback_ledger.RuleCache.{DecimalRule, get_cashback_rule, snapshot_json, snapshot_of}
use shopback_cashback_ledger.RuleCache.Quiet.{Unchanged, get_cashback_rule-Post}
use shopback_cashback_ledger.RuleCache.Snapshots.{stored_rule}
use shopback_cashback_ledger.RuleCache.Coherent.{IsCoherent, IsGood, rule}
use shopback_cashback_ledger.RuleCache.Agreed.{get_cashback_rule-IsStored, IsStored}
use shopback_cashback_ledger.Handler.{credit_cached, process_order_confirmed, count_error}
use shopback_cashback_ledger.Handler.Credits.{result-Post}

module _ (S : Services) where
  module _ (I : S.cache.Rows → Type 0) where
    abbrev Kept : World S → Type 0
    Kept = OnCache S I

    require_order-Kept :
        (order_id : String) (o : Option (OrderRow S))
        → Ensures Kept (Anything Kept) (require_order S order_id o)
    require_order-Kept order_id none = Ensures-raise Kept (Anything Kept) _
    require_order-Kept order_id (some order) = by_status order.status
      where
        by_status :
            (status : OrderStatus) → Ensures Kept (Anything Kept) (require_status S order status)
        by_status confirmed = Ensures-pure Kept (Anything Kept) order tt
        by_status created = Ensures-raise Kept (Anything Kept) _
        by_status cancelled = Ensures-raise Kept (Anything Kept) _

    confirmed_order-Kept :
        (order_id : String) → Ensures Kept (Anything Kept) (confirmed_order S order_id)
    unfolding confirmed_order
    confirmed_order-Kept order_id =
        Ensures-bind Kept (Anything Kept) (Anything Kept) _ _ (Ensures-statement I _)
          (λ o any. require_order-Kept order_id o)

  -- What the worker relies on, for tables `d`: `JSON.parse` reads back the text of a rule, and
  -- other processes keep the cache in agreement with the tables.
  module _ (d : Db S)
      (reads : (m : String)
        → S.parse (S.stringify (snapshot_json S (snapshot_of S (rule S d m))))
          ≡ some (snapshot_json S (snapshot_of S (rule S d m))))
      (others : (m : String) (n : ℕ) (c : S.cache.Rows)
        → IsCoherent S d m c
        → IsCoherent S d m (S.meanwhile n c))
      (order_id : String) where
    abbrev IsAgreed : S.cache.Rows → Type 0
    IsAgreed c = (m : String) → IsCoherent S d m c

    abbrev Done : Result (Credit S) → Db S → Bool → Type 0
    Done = Committed d (Processed S d order_id)

    -- The rule that was read is the one of the tables, and the order is credited by it.
    after_rule :
        (order : OrderRow S)
        → IsConfirmedOrder S d order_id order
        → (x : Result (DecimalRule S) × World S) → Unchanged S d x.0 x.1.db x.1.aborted
        → Ends (IsGood S d order.merchant_id) (IsStored S d order.merchant_id) x
        → let (r, v) = continue x.0 (λ rule. credit_order S order rule.rate rule.cap) x.1 in
          Done r v.db v.aborted
    unfolding continue raise
    after_rule order h (err e, v) k agreed = tt
    after_rule order h (ok answer, v) k agreed =
        let stored = stored_rule S d order.merchant_id in
        rw agreed.0 (
          Post-from Done
            (Post-weaken Done (credit_order-Post S d order stored.rate stored.cap)
              (credited-Committed S d order_id order h))
            v k.0 k.1)

    abbrev IsFound : Result (OrderRow S) → Db S → Bool → Type 0
    IsFound (ok order) d' b = (d' ≡ d) × (b ≡ false) × IsConfirmedOrder S d order_id order
    IsFound (err e) d' b = Unit {0}

    after_order :
        (x : Result (OrderRow S) × World S)
        → IsFound x.0 x.1.db x.1.aborted
        → IsAgreed x.1.cache
        → let (r, v) =
            continue x.0
              (λ order. get_cashback_rule S order.merchant_id >>= λ rule.
                credit_order S order rule.rate rule.cap)
              x.1 in
          Done r v.db v.aborted
    unfolding continue raise ◌>>=◌
    after_order (err e, v) k agreed = tt
    after_order (ok order, v) k agreed =
        let m = order.merchant_id in
        after_rule order k.2 (get_cashback_rule S m v)
          (Post-from (Unchanged S d) (get_cashback_rule-Post S d m) v k.0 k.1)
          ((get_cashback_rule-IsStored S d m (reads m) (others m)).at v
            (record { tables = k.0; coherent = agreed m }))

    credit_cached-Processed :
        (w : World S)
        → IsAgreed w.cache
        → let (r, w') = credit_cached S order_id (record w { db = d }) in
          Processed S d order_id r w'.db
    unfolding credit_cached transaction ◌>>=◌
    credit_cached-Processed w agreed =
        let x = confirmed_order S order_id (record w { db = d; aborted = false }) in
        let found =
          (confirmed_order-Post S d order_id IsFound (λ order e s. (refl, refl, (e, s)))
              (λ e b. tt)).at
            w in
        let kept = held (OnCache S IsAgreed) (Anything (OnCache S IsAgreed)) x (
          (confirmed_order-Kept IsAgreed order_id).at (record w { db = d; aborted = false })
            agreed) in
        finished d (Processed S d order_id) _ _ (λ e. inl refl) (after_order x found kept)

    process-Processed :
        (w : World S)
        → IsAgreed w.cache
        → let (r, w') = process_order_confirmed S order_id (record w { db = d }) in
          Processed S d order_id r w'.db
    unfolding process_order_confirmed catch ◌>>=◌
    process-Processed w agreed =
        let P = Processed S d order_id in
        let (r, v) = credit_cached S order_id (record w { db = d }) in
        let failed = λ (e : Error). count S count_error >> raise e in
        let k =
          continued _ (OrCatch failed (Anyway P)) r v
            (result-Post S P r v.db v.aborted (credit_cached-Processed w agreed)) in
        handled failed (Anyway P) _ _ k

  -- If `JSON.parse` reads back the text of each merchant's rule, other processes keep the cache in
  -- agreement with the tables, and the cache agrees with them, which is to say that what it holds
  -- for a merchant is read as no rule or as that of the tables: then, whatever calls fail, the
  -- worker's `processOrderConfirmed` meets the specification of that of packages/domain. An answer
  -- is about a stored order that is confirmed and gives the cashback under the rule stored for its
  -- merchant; the tables get that one credit or stay as they are, after an error too.
  pub process_order_confirmed-as_domain :
      (order_id : String) (w : World S)
      → ((m : String)
          → S.parse (S.stringify (snapshot_json S (snapshot_of S (rule S w.db m))))
            ≡ some (snapshot_json S (snapshot_of S (rule S w.db m))))
      → ((m : String) (n : ℕ) (c : S.cache.Rows)
          → IsCoherent S w.db m c
          → IsCoherent S w.db m (S.meanwhile n c))
      → ((m : String) → IsCoherent S w.db m w.cache)
      → let (r, w') = process_order_confirmed S order_id w in Processed S w.db order_id r w'.db
  process_order_confirmed-as_domain order_id w reads others agreed =
      process-Processed w.db reads others order_id w agreed
