-- ===== src/History/Actions.antt =====
-- The database calls on orders, on the ledger and on the tables that the book does not see.
use mathlib.Core.Path.{fun_ext}
use shopback_cashback_ledger.Prelude.{
  ℕ, String, Option, ◌≡◌, refl, inl, inr, Option-cases, Comparable, text_comparable,
}
use shopback_cashback_ledger.Effect.{Result}
use shopback_cashback_ledger.Services.{Services}
use shopback_cashback_ledger.Services.Table.{Table}
use shopback_cashback_ledger.World.{Db}
use shopback_cashback_ledger.Calls.Respects.{ActionRespects}
use shopback_cashback_ledger.Queries.{
  find_unique, create, create_fresh, create_taken, find_own, on_orders, on_rules, on_keys, on_inbox,
}
use shopback_cashback_ledger.Cashback.{OrderRow, cashback, credit_entry}
use shopback_cashback_ledger.Cashback.Inserted.{Changed}
use shopback_cashback_ledger.Domain.Credits.{IsConfirmedOrder}
use shopback_cashback_ledger.Orders.{CreateOrderDto, new_order, set_confirmed, confirmed_event}
use shopback_cashback_ledger.Orders.Confirmed.{Transition}
use shopback_cashback_ledger.Spec.Maps.{put}
use shopback_cashback_ledger.Spec.{Steps, Steps-one, here, place, confirm, give}
use shopback_cashback_ledger.History.{view, Follows}

-- A table after a write, as a map.
pub find-put :
    {K R : Type 0} {e : Comparable K} {key : R → K} (T : Table ⦃e = e⦄ key) (r : R) (t : T.Rows)
    → (λ k. T.find k (T.write r t)) ≡ put ⦃e = e⦄ (key r) r (λ k. T.find k t)
find-put T r t = fun_ext (λ k. T.find-write k r t)

module _ {S : Services} {A : Type 0} where
  pub on_rules-follows :
      (f : S.rules.Rows → Result A × S.rules.Rows) → ActionRespects (Follows S) (on_rules S f)
  on_rules-follows f = record { at = λ d. here }

  pub on_keys-follows :
      (f : S.keys.Rows → Result A × S.keys.Rows) → ActionRespects (Follows S) (on_keys S f)
  on_keys-follows f = record { at = λ d. here }

  pub on_inbox-follows :
      (f : S.inbox.Rows → Result A × S.inbox.Rows) → ActionRespects (Follows S) (on_inbox S f)
  on_inbox-follows f = record { at = λ d. here }

module _ {S : Services} where
  pub find_order-follows :
      (id : String) → ActionRespects (Follows S) (on_orders S (find_unique S.orders id))
  find_order-follows id = record { at = λ d. here }

  pub create_order-follows :
      (id : String) (time : ℕ) (dto : CreateOrderDto S)
      → ActionRespects (Follows S) (on_orders S (create S.orders (new_order S id time dto)))
  create_order-follows id time dto = record {
    at = λ d.
        let new = new_order S id time dto in
        elim (Option-cases (S.orders.find id d.orders)) [
          | inl absent ↦ rw (create_fresh S.orders new d.orders absent) (
              Steps-one S (
                place new absent refl
                  (λ i. record (view S d) { orders = find-put S.orders new d.orders i })))
          | inr (old, taken) ↦ rw (create_taken S.orders new d.orders taken) here
        ];
  }

  -- The transition of an order from `CREATED`, with its event.
  pub Transition-follows :
      (d d' : Db S) (order_id id : String) (time : ℕ) (order : OrderRow S)
      → Transition S d order_id id time order d'
      → Steps S (view S d) (view S d')
  Transition-follows d d' order_id id time order t = rw t.tables (
      Steps-one S (
        confirm order id time (find_own S.orders order_id order d.orders t.found) t.was_created
          t.event_is_new
          (λ i. record (view S d) {
            orders = find-put S.orders (set_confirmed S order) d.orders i;
            outbox =
                find-put S.outbox (confirmed_event S id time (set_confirmed S order)) d.outbox i;
          })))

  -- A credit, new or not, of a confirmed order.
  pub Changed-follows :
      (d d' : Db S) (order_id : String) (order : OrderRow S) (rate : S.Decimal)
      (limit : Option S.Decimal)
      → IsConfirmedOrder S d order_id order
      → Changed S d order (cashback S order.amount rate limit) d'
      → Steps S (view S d) (view S d')
  Changed-follows d d' order_id order rate limit h (inl same) = rw same here
  Changed-follows d d' order_id order rate limit h (inr (id, absent, written)) = rw written (
      Steps-one S (
        give order id rate limit (find_own S.orders order_id order d.orders h.0) h.1 absent (λ i.
          record (view S d) {
            ledger =
                find-put S.ledger (credit_entry S id order (cashback S order.amount rate limit))
                  d.ledger i;
          })))
