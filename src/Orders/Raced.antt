-- ===== src/Orders/Raced.antt =====
-- Two requests to create an order under one idempotency key at the same time: both look for a saved
-- response before either has saved one.
use shopback_cashback_ledger.Prelude.{
  suc, ℕ, String, none, some, ◌≡◌, ◌≢◌, refl, sym, ap, ◌∙◌, pair_comparable, text_comparable,
  Option-cases, inl, inr, arith, eq_iff,
}
use shopback_cashback_ledger.Json.{Json}
use shopback_cashback_ledger.Errors.{success}
use shopback_cashback_ledger.Effect.{ok, ◌>>=◌}
use shopback_cashback_ledger.Services.{Services}
use shopback_cashback_ledger.World.{World, Io}
use shopback_cashback_ledger.Calls.{call, tick, now}
use shopback_cashback_ledger.Queries.{find_written, upsert_new, upsert_found}
use shopback_cashback_ledger.Idempotency.{
  KeyRow, get_cached_response, save_response, expiry, key_row, refresh,
}
use shopback_cashback_ledger.Cashback.{OrderRow}
use shopback_cashback_ledger.Orders.{
  CreateOrderDto, or_saved, create_response, new_order, order_json, ttl_seconds,
}
use shopback_cashback_ledger.Orders.Idempotent.{create_order_fresh}

module _ (S : Services) where
  -- The work of the request that looked for a response and found none.
  abbrev pub unsaved : String → String → CreateOrderDto S → Io S (Json S.Number)
  unsaved key hash dto =
      or_saved S "Idempotency-Key reused with different request body" key "POST:/orders" hash
        (create_response S dto) none

  -- The order that is created at a given call.
  abbrev pub order_at : ℕ → CreateOrderDto S → OrderRow S
  order_at n dto = new_order S (S.uuid n) (S.clock n) dto

  module _ (calm : (n : ℕ) → S.outcome n ≡ success) where
    read_nothing :
        (key : String) (w : World S)
        → S.keys.find (key, "POST:/orders") w.db.keys ≡ none
        → get_cached_response S key "POST:/orders" w ≡ (ok none, tick S w)
    unfolding get_cached_response call
    read_nothing key w absent = rw (calm w.calls, absent) refl

    -- A response is saved, whether or not there is one of another request by now.
    save_response_lem :
        (key hash : String) (body : Json S.Number) (w : World S)
        → (row : KeyRow S) × (keys : S.keys.Rows) × (save_response S key "POST:/orders" hash body
              (some ttl_seconds)
              w
            ≡ (ok row, record w { db = record w.db { keys = keys }; calls = suc w.calls }))
    unfolding save_response call ◌>>=◌ now
    save_response_lem key hash body w =
        let until = expiry S (S.clock w.calls) (some ttl_seconds) in
        let row = key_row S key "POST:/orders" hash body until in
        let change = refresh S hash body until in
        elim (Option-cases (S.keys.find (key, "POST:/orders") w.db.keys)) [
          | inl new ↦ (
            row,
            S.keys.write row w.db.keys,
            (rw (calm w.calls, upsert_new S.keys (key, "POST:/orders") change row w.db.keys new)
                refl),
          )
          | inr (x, old) ↦ (
            change x,
            S.keys.write (change x) w.db.keys,
            (rw (calm w.calls, upsert_found S.keys (key, "POST:/orders") change row w.db.keys old)
                refl),
          )
        ]

    unsaved_lem :
        (key hash : String) (dto : CreateOrderDto S) (w : World S)
        → S.orders.find (S.uuid w.calls) w.db.orders ≡ none
        → let (r, w') = unsaved key hash dto w in
          (r ≡ ok (order_json S (order_at w.calls dto)))
          × (w'.db.orders ≡ S.orders.write (order_at w.calls dto) w.db.orders)
          × (w'.calls ≡ suc (suc w.calls))
    unfolding or_saved create_response ◌>>=◌
    unsaved_lem key hash dto w absent =
        let order = order_at w.calls dto in
        let stored : World S = record w {
          db = record w.db { orders = S.orders.write order w.db.orders };
          calls = suc w.calls;
        } in
        let (row, keys, saved) = save_response_lem key hash (order_json S order) stored in
        rw (create_order_fresh S dto w (calm w.calls) absent, saved) (refl, refl, refl)

    find-other :
        (k : String) (order : OrderRow S) (t : S.orders.Rows)
        → order.id ≢ k
        → S.orders.find k (S.orders.write order t) ≡ S.orders.find k t
    find-other k order t other =
        ground (arith, S.orders.find-write k order t, eq_iff order.id k, other)

    both_unsaved :
        (key hash : String) (dto : CreateOrderDto S) (w : World S)
        → S.orders.find (S.uuid w.calls) w.db.orders ≡ none
        → S.orders.find (S.uuid (suc (suc w.calls))) w.db.orders ≡ none
        → S.uuid w.calls ≢ S.uuid (suc (suc w.calls))
        → let (r, w1) = unsaved key hash dto w in
          let (r', w2) = unsaved key hash dto w1 in
          (r ≡ ok (order_json S (order_at w.calls dto)))
          × (r' ≡ ok (order_json S (order_at (suc (suc w.calls)) dto)))
          × (S.orders.find (S.uuid w.calls) w2.db.orders ≡ some (order_at w.calls dto))
          × (S.orders.find (S.uuid (suc (suc w.calls))) w2.db.orders
              ≡ some (order_at (suc (suc w.calls)) dto))
    both_unsaved key hash dto w absent absent' other =
        let w1 : World S = (unsaved key hash dto w).1 in
        let w2 : World S = (unsaved key hash dto w1).1 in
        let o = order_at w.calls dto in
        let o' = order_at (suc (suc w.calls)) dto in
        let (answer, stored, calls) = unsaved_lem key hash dto w absent in
        let free : S.orders.find (S.uuid w1.calls) w1.db.orders ≡ none =
          rw (calls, stored) (find-other o'.id o w.db.orders other ∙ absent') in
        let (answer', stored', calls') = unsaved_lem key hash dto w1 free in
        let rows : w2.db.orders ≡ S.orders.write o' (S.orders.write o w.db.orders) =
          stored'
          ∙ ap (λ (n : ℕ). S.orders.write (order_at n dto) w1.db.orders) calls
          ∙ ap (S.orders.write o') stored in
        (
          answer,
          answer' ∙ ap (λ (n : ℕ). ok (order_json S (order_at n dto))) calls,
          ap (S.orders.find o.id) rows
              ∙ find-other o.id o' (S.orders.write o w.db.orders) (λ e. other (sym e))
              ∙ find_written S.orders o w.db.orders,
          ap (S.orders.find o'.id) rows ∙ find_written S.orders o' (S.orders.write o w.db.orders),
        )

    -- If no call fails, the key has no response and two ids are new and different, two requests
    -- that both look for a response before one is saved both create an order: each is answered with
    -- its own one, and both orders are stored.
    pub create_raced :
        (key hash : String) (dto : CreateOrderDto S) (w : World S)
        → S.keys.find (key, "POST:/orders") w.db.keys ≡ none
        → S.orders.find (S.uuid (suc (suc w.calls))) w.db.orders ≡ none
        → S.orders.find (S.uuid (suc (suc (suc (suc w.calls))))) w.db.orders ≡ none
        → S.uuid (suc (suc w.calls)) ≢ S.uuid (suc (suc (suc (suc w.calls))))
        → let (cached, w1) = get_cached_response S key "POST:/orders" w in
          let (cached', w2) = get_cached_response S key "POST:/orders" w1 in
          let (r, w3) = unsaved key hash dto w2 in
          let (r', w4) = unsaved key hash dto w3 in
          let o = order_at (suc (suc w.calls)) dto in
          let o' = order_at (suc (suc (suc (suc w.calls)))) dto in
          (cached ≡ ok none)
          × (cached' ≡ ok none)
          × (r ≡ ok (order_json S o))
          × (r' ≡ ok (order_json S o'))
          × (S.orders.find o.id w4.db.orders ≡ some o)
          × (S.orders.find o'.id w4.db.orders ≡ some o')
    create_raced key hash dto w no_key first second other =
        let (answer, answer', stored, stored') =
          both_unsaved key hash dto (tick S (tick S w)) first second other in
        rw (read_nothing key w no_key, read_nothing key (tick S w) no_key)
          (refl, refl, answer, answer', stored, stored')
