-- ===== src/Orders/Idempotent.antt =====
-- `create` and `confirm` under an idempotency key: replays, conflicts, and the gap between the work
-- and the saving of its response.
use text.Mathlib.TextPositions.{eq_refl}
use shopback_cashback_ledger.Prelude.{
  suc, String, Bool, true, false, none, some, ◌≡◌, ◌≢◌, refl, ap, ◌∙◌, text_append, ◌==◌,
  text_comparable, pair_comparable, eq_iff, arith, if◌then◌else◌,
}
use shopback_cashback_ledger.Json.{Json, null}
use shopback_cashback_ledger.Errors.{success, lost, Fault, service, conflict}
use shopback_cashback_ledger.Effect.{Result, ok, err, pure, raise, ◌>>=◌}
use shopback_cashback_ledger.Services.{Services}
use shopback_cashback_ledger.World.{Db, World, Io}
use shopback_cashback_ledger.Calls.{call, tick, now, new_id}
use shopback_cashback_ledger.Queries.{create_fresh, upsert_new}
use shopback_cashback_ledger.Idempotency.{
  KeyRow, hash_request, get_cached_response, save_response, key_row, expiry, refresh,
}
use shopback_cashback_ledger.Cashback.{OrderRow}
use shopback_cashback_ledger.Orders.{
  CreateOrderDto, or_saved, once, create_order, create_response, create_with_key, create,
  confirm_path, confirm_with_key, confirm, new_order, order_json, truthy, ttl_seconds,
}

module _ (S : Services) where
  -- The answer to a request whose key has a saved response.
  abbrev pub saved_answer : String → String → KeyRow S → Result (Json S.Number)
  saved_answer message hash row =
      if row.request_hash == hash then ok row.response_body else err (conflict message)

  pub saved_answer_same :
      (message : String) (row : KeyRow S)
      → saved_answer message row.request_hash row ≡ ok row.response_body
  saved_answer_same message row = rw (eq_refl row.request_hash) refl

  pub saved_answer_other :
      (message : String) {hash : String} (row : KeyRow S)
      → row.request_hash ≢ hash
      → saved_answer message hash row ≡ err (conflict message)
  saved_answer_other message {hash} row h = ground (arith, eq_iff row.request_hash hash)

  once_saved :
      (message key scope hash : String) (work : Io S (Json S.Number)) (w : World S) {row : KeyRow S}
      → S.outcome w.calls ≡ success
      → S.keys.find (key, scope) w.db.keys ≡ some row
      → once S message key scope hash work w ≡ (saved_answer message hash row, tick S w)
  unfolding once get_cached_response call ◌>>=◌
  once_saved message key scope hash work w {row} calm found =
      rw (calm, found) (by_hash (row.request_hash == hash))
    where
      by_hash :
          (b : Bool)
          → ◌≡◌ {A = Result (Json S.Number) × World S}
              ((if b then pure row.response_body else raise (conflict message)) (tick S w))
              ((if b then ok row.response_body else err (conflict message)), tick S w)
      by_hash true = refl
      by_hash false = refl

  -- A key that is not empty reaches the database.
  truthy-some : (key : String) → key ≢ "" → truthy (some key) ≡ some key
  truthy-some key h = ground (arith, eq_iff key "")

  -- If the row of a key that is not empty can be read and holds a response, `create` makes no order
  -- and changes no table: it returns that response for a request of the same hash, and throws a
  -- conflict for any other.
  pub create_replay :
      (key : String) (dto : CreateOrderDto S) (w : World S) {row : KeyRow S}
      → key ≢ ""
      → S.outcome w.calls ≡ success
      → S.keys.find (key, "POST:/orders") w.db.keys ≡ some row
      → create S (some key) dto w ≡ (
        saved_answer "Idempotency-Key reused with different request body"
            (hash_request S "POST" "/orders" (some dto.body))
            row,
        tick S w,
      )
  unfolding create create_with_key
  create_replay key dto w given calm found =
      rw (truthy-some key given) (once_saved _ key "POST:/orders" _ _ w calm found)

  -- If the row of a key that is not empty can be read and holds a response to the confirmation of
  -- an order, `confirm` changes no table: it returns that response for a request of the same hash,
  -- and throws a conflict for any other.
  pub confirm_replay :
      (key id : String) (w : World S) {row : KeyRow S}
      → key ≢ ""
      → S.outcome w.calls ≡ success
      → S.keys.find (key, text_append "POST:" (confirm_path id)) w.db.keys ≡ some row
      → confirm S (some key) id w ≡ (
        saved_answer "Idempotency-Key reused with different request"
            (hash_request S "POST" (confirm_path id) (some null))
            row,
        tick S w,
      )
  unfolding confirm confirm_with_key
  confirm_replay key id w given calm found =
      rw (truthy-some key given) (once_saved _ key _ _ _ w calm found)

  -- The row that `create` saves for a new key, and the tables after it.
  abbrev pub created_row : World S → CreateOrderDto S → OrderRow S
  created_row w dto = new_order S (S.uuid (suc w.calls)) (S.clock (suc w.calls)) dto

  abbrev pub saved_row : World S → String → CreateOrderDto S → KeyRow S
  saved_row w key dto =
      key_row S key "POST:/orders" (hash_request S "POST" "/orders" (some dto.body))
        (order_json S (created_row w dto))
        (expiry S (S.clock (suc (suc w.calls))) (some ttl_seconds))

  abbrev pub with_order : World S → CreateOrderDto S → Db S
  with_order w dto = record w.db { orders = S.orders.write (created_row w dto) w.db.orders }

  abbrev pub after_create : World S → String → CreateOrderDto S → World S
  after_create w key dto = record w {
    db = record (with_order w dto) { keys = S.keys.write (saved_row w key dto) w.db.keys };
    calls = suc (suc (suc w.calls));
  }

  pub create_order_fresh :
      (dto : CreateOrderDto S) (w : World S)
      → S.outcome w.calls ≡ success
      → S.orders.find (S.uuid w.calls) w.db.orders ≡ none
      → create_order S dto w ≡ (
        ok (new_order S (S.uuid w.calls) (S.clock w.calls) dto),
        record w {
          db = record w.db {
            orders =
                S.orders.write (new_order S (S.uuid w.calls) (S.clock w.calls) dto) w.db.orders;
          };
          calls = suc w.calls;
        },
      )
  unfolding create_order call new_id now ◌>>=◌
  create_order_fresh dto w calm absent =
      rw
        (
          calm,
          create_fresh S.orders (new_order S (S.uuid w.calls) (S.clock w.calls) dto) w.db.orders
              absent,
        )
        refl

  -- A request with a new key whose three calls succeed, the id of its order being new, is answered
  -- with the new order, which is stored, and its response is saved for its hash.
  pub create_saves :
      (key : String) (dto : CreateOrderDto S) (w : World S)
      → key ≢ ""
      → S.outcome w.calls ≡ success
      → S.outcome (suc w.calls) ≡ success
      → S.outcome (suc (suc w.calls)) ≡ success
      → S.keys.find (key, "POST:/orders") w.db.keys ≡ none
      → S.orders.find (S.uuid (suc w.calls)) w.db.orders ≡ none
      → create S (some key) dto w ≡ (ok (order_json S (created_row w dto)), after_create w key dto)
  unfolding create create_with_key once get_cached_response or_saved create_response call ◌>>=◌
      save_response now
  create_saves key dto w given first second third no_key absent = rw (truthy-some key given) (
      rw (first, no_key)
        (rw (create_order_fresh dto (tick S w) second absent) (
          rw
            (
              third,
              upsert_new S.keys (key, "POST:/orders")
                  (refresh S (hash_request S "POST" "/orders" (some dto.body))
                    (order_json S (created_row w dto))
                    (expiry S (S.clock (suc (suc w.calls))) (some ttl_seconds)))
                  (saved_row w key dto) w.db.keys no_key,
            )
            refl)))

  -- If a request with a new key can read that there is no response and can store its order, of a
  -- new id, but the saving of the response is lost, it throws, the order stays, and the tables have
  -- no row for the key.
  pub create_gap :
      (key : String) (dto : CreateOrderDto S) (w : World S) {f : Fault}
      → key ≢ ""
      → S.outcome w.calls ≡ success
      → S.outcome (suc w.calls) ≡ success
      → S.outcome (suc (suc w.calls)) ≡ lost f
      → S.keys.find (key, "POST:/orders") w.db.keys ≡ none
      → S.orders.find (S.uuid (suc w.calls)) w.db.orders ≡ none
      → create S (some key) dto w
        ≡ (err (service f), record w { db = with_order w dto; calls = suc (suc (suc w.calls)) })
  unfolding create create_with_key once get_cached_response or_saved create_response call ◌>>=◌
      save_response now
  create_gap key dto w given first second third no_key absent =
      rw (truthy-some key given)
        (rw (first, no_key) (rw (create_order_fresh dto (tick S w) second absent) (rw third refl)))

  -- The row that was saved for a key is found by it.
  pub saved_found :
      (key : String) (dto : CreateOrderDto S) (w : World S)
      → S.keys.find (key, "POST:/orders") (S.keys.write (saved_row w key dto) w.db.keys)
        ≡ some (saved_row w key dto)
  saved_found key dto w = ground (
    arith,
    S.keys.find-write (key, "POST:/orders") (saved_row w key dto) w.db.keys,
    eq_iff key key,
  )

  -- A request with a new key, made twice, its first three calls and the one of the second request
  -- succeeding and the id of its order being new, is answered twice with the same response, and
  -- only the first one changes the tables.
  pub create_twice :
      (key : String) (dto : CreateOrderDto S) (w : World S)
      → key ≢ ""
      → S.outcome w.calls ≡ success
      → S.outcome (suc w.calls) ≡ success
      → S.outcome (suc (suc w.calls)) ≡ success
      → S.outcome (suc (suc (suc w.calls))) ≡ success
      → S.keys.find (key, "POST:/orders") w.db.keys ≡ none
      → S.orders.find (S.uuid (suc w.calls)) w.db.orders ≡ none
      → let (r, w') = create S (some key) dto w in
        (r ≡ ok (order_json S (created_row w dto))) × (create S (some key) dto w' ≡ (r, tick S w'))
  create_twice key dto w given first second third fourth no_key absent =
      rw (create_saves key dto w given first second third no_key absent) (
        refl,
        create_replay key dto (after_create w key dto) given fourth (saved_found key dto w)
            ∙ ap (λ (r : Result (Json S.Number)). (r, tick S (after_create w key dto)))
                (saved_answer_same _ (saved_row w key dto)),
      )
