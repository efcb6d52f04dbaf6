-- ===== src/Orders/Confirmed.antt =====
-- What `confirmAndOutbox` does to the tables on every branch, whatever calls of it fail.
use shopback_cashback_ledger.Prelude.{
  ℕ, String, Bool, false, Option, none, some, ◌≡◌, refl, ◌⊎◌, inl, inr, Option-cases,
}
use shopback_cashback_ledger.Json.{Json, null, str}
use shopback_cashback_ledger.Schema.{OrderStatus, created, confirmed, cancelled}
use shopback_cashback_ledger.Effect.{Result, ok, err, pure}
use shopback_cashback_ledger.Services.{Services}
use shopback_cashback_ledger.World.{Db, World}
use shopback_cashback_ledger.Calls.Post.{
  Post, Post-pure, Post-raise, Post-bind, Post-statement, Post-transaction, Committed, Anyway,
  Post-new_id, Then,
}
use shopback_cashback_ledger.Calls.Quiet.{Post-now}
use shopback_cashback_ledger.Calls.{statement}
use shopback_cashback_ledger.Queries.{
  create as insert, create_fresh, create_taken, update_found, on_outbox,
}
use shopback_cashback_ledger.Cashback.{OrderRow}
use shopback_cashback_ledger.Orders.{
  confirm_json, confirmed_event, set_confirmed, confirm_created, confirm_by_status, confirm_found,
  confirm_and_outbox,
}

module _ (S : Services) where
  -- The tables after the transition: the order is confirmed, and its event is pending in the outbox.
  abbrev pub with_confirmed : Db S → OrderRow S → String → ℕ → Db S
  with_confirmed d order id time = record d {
    orders = S.orders.write (set_confirmed S order) d.orders;
    outbox = S.outbox.write (confirmed_event S id time (set_confirmed S order)) d.outbox;
  }

  -- An order in `CREATED` is confirmed, and its event is new.
  pub record Transition (d : Db S) (order_id : String) (id : String) (time : ℕ) (order : OrderRow S)
      (d' : Db S) : Type 0 where
    pub found : S.orders.find order_id d.orders ≡ some order
    pub was_created : order.status ≡ created
    pub event_is_new : S.outbox.find id d.outbox ≡ none
    pub tables : d' ≡ with_confirmed d order id time

  -- An answer says that the order was confirmed before, and nothing has changed, or names the event
  -- of the transition. After an error nothing has changed, or the whole transition is there.
  abbrev pub Confirmed : Db S → String → Result (Json S.Number) → Db S → Type 0
  Confirmed d order_id (ok response) d' =
      ((order : OrderRow S) × (S.orders.find order_id d.orders ≡ some order)
        × (order.status ≡ confirmed)
        × (response ≡ confirm_json S order.id confirmed null)
        × (d' ≡ d))
      ⊎ ((id : String) × (time : ℕ) × (order : OrderRow S) × Transition d order_id id time order d'
          × (response ≡ confirm_json S order.id confirmed (str id)))
  Confirmed d order_id (err e) d' =
      (d' ≡ d)
      ⊎ ((id : String) × (time : ℕ) × (order : OrderRow S) × Transition d order_id id time order d')

  module _ (d : Db S) (order_id : String) where
    abbrev Body : Result (Json S.Number) → Db S → Bool → Type 0
    Body = Committed d (Confirmed d order_id)

    event_created :
        (order : OrderRow S) (id : String) (time : ℕ)
        → S.orders.find order_id d.orders ≡ some order
        → order.status ≡ created
        → Post
            (statement S
              (on_outbox S (insert S.outbox (confirmed_event S id time (set_confirmed S order)))))
            (record d { orders = S.orders.write (set_confirmed S order) d.orders })
            false
            (Then (λ event. pure (confirm_json S order.id confirmed (str event.id))) Body)
    event_created order id time found was_created =
        elim (Option-cases (S.outbox.find id d.outbox)) [
          | inl absent ↦
              let event = confirmed_event S id time (set_confirmed S order) in
              let t : Transition d order_id id time order (with_confirmed d order id time) =
                record {
                  found = found;
                  was_created = was_created;
                  event_is_new = absent;
                  tables = refl;
                } in
              Post-statement _ _ _
                (rw (create_fresh S.outbox event d.outbox absent) (
                  Post-pure _ Body
                    (refl, inr (id, time, order, t, refl), λ e. inr (id, time, order, t))))
                (λ f. tt) (λ f. tt)
          | inr (old, taken) ↦
              let event = confirmed_event S id time (set_confirmed S order) in
              Post-statement _ _ _ (rw (create_taken S.outbox event d.outbox taken) tt) (λ f. tt)
                (λ f. tt)
        ]

    confirm_created-Post :
        (order : OrderRow S)
        → S.orders.find order_id d.orders ≡ some order
        → order.status ≡ created
        → Post (confirm_created S order_id) d false Body
    unfolding confirm_created
    confirm_created-Post order found was_created = Post-bind _ _ _ (
        Post-statement _ d _
          (rw (update_found S.orders order_id (set_confirmed S) d.orders found) (
            Post-bind _ _ _ (
              Post-new_id _ (λ id. Post-bind _ _ _ (
                Post-now _
                  (λ time. Post-bind _ _ _ (event_created order id time found was_created)))))))
          (λ f. tt) (λ f. tt))

    by_status-Post :
        (order : OrderRow S) (status : OrderStatus)
        → S.orders.find order_id d.orders ≡ some order
        → order.status ≡ status
        → Post (confirm_by_status S order_id order status) d false Body
    unfolding confirm_by_status
    by_status-Post order created found e = confirm_created-Post order found e
    by_status-Post order cancelled found e = Post-raise _ Body tt
    by_status-Post order confirmed found e =
        Post-pure _ Body (refl, inl (order, found, e, rw e, refl), λ f. inl refl)

    found-Post :
        (o : Option (OrderRow S))
        → S.orders.find order_id d.orders ≡ o
        → Post (confirm_found S order_id o) d false Body
    unfolding confirm_found
    found-Post none e = Post-raise _ Body tt
    found-Post (some order) e = by_status-Post order order.status e refl

    confirm_and_outbox-Post :
        (b : Bool) → Post (confirm_and_outbox S order_id) d b (Anyway (Confirmed d order_id))
    unfolding confirm_and_outbox
    confirm_and_outbox-Post b =
        Post-transaction _ d (Confirmed d order_id) (λ f. inl refl)
          (Post-bind _ _ _ (
            Post-statement _ d _ (found-Post (S.orders.find order_id d.orders) refl) (λ f. tt)
              (λ f. tt)))

  -- For every world and every pattern of failing calls, confirming an order answers that it was
  -- confirmed before and leaves the tables alone, or makes the transition from `CREATED`: the order
  -- is confirmed and a new pending event with its payload is in the outbox, both or neither. An
  -- error leaves the tables alone, or the transition was made and only its answer was lost.
  pub confirm_and_outbox-Confirmed :
      (order_id : String) (w : World S)
      → let (r, w') = confirm_and_outbox S order_id w in Confirmed w.db order_id r w'.db
  confirm_and_outbox-Confirmed order_id w = (confirm_and_outbox-Post w.db order_id w.aborted).at w
