-- ===== src/Orders.antt =====
-- apps/api/src/orders/orders.controller.ts: creating and confirming an order, each under an
-- optional idempotency key.
pub mod Confirmed
pub mod Idempotent
pub mod Conflict
pub mod Raced
use shopback_cashback_ledger.Prelude.{
  ℕ, ◌*◌, String, Option, none, some, text_append, ◌==◌, text_comparable, if◌then◌else◌,
}
use shopback_cashback_ledger.Json.{Json, null, str, num, obj, field, end}
use shopback_cashback_ledger.Schema.{
  OrderStatus, OutboxEvent, OutboxStatus, created, confirmed, cancelled,
}
use shopback_cashback_ledger.Errors.{conflict}
use shopback_cashback_ledger.Effect.{pure, raise, ◌>>=◌, ◌>>◌}
use shopback_cashback_ledger.Services.{Services}
use shopback_cashback_ledger.World.{Io}
use shopback_cashback_ledger.Calls.{call, statement, transaction, now, new_id}
use shopback_cashback_ledger.Queries.{find_unique, create as insert, update, on_orders, on_outbox}
use shopback_cashback_ledger.Cashback.{OrderRow}
use shopback_cashback_ledger.Idempotency.{KeyRow, hash_request, get_cached_response, save_response}

-- `CreateOrderDto` after validation; `body` is the object that `JSON.stringify` prints.
pub record CreateOrderDto (S : Services) : Type 0 where
  pub user_id : String
  pub merchant_id : String
  pub amount : S.Number
  pub currency : String
  pub body : Json S.Number

abbrev pub status_text : OrderStatus → String
status_text created = "CREATED"
status_text confirmed = "CONFIRMED"
status_text cancelled = "CANCELLED"

-- `if (idemKey)`: a missing header and an empty one are the same.
abbrev pub truthy : Option String → Option String
truthy none = none
truthy (some text) = if text == "" then none else some text

abbrev pub confirm_path : String → String
confirm_path id = text_append "/orders/" (text_append id "/confirm")

-- `ttlSeconds: 24 * 3600`
abbrev pub ttl_seconds : ℕ
ttl_seconds = 24 * 3600

module _ (S : Services) where
  abbrev pub OutboxRow : Type 0
  OutboxRow = OutboxEvent S.Number

  abbrev pub new_order : String → ℕ → CreateOrderDto S → OrderRow S
  new_order id time dto = record {
    id = id;
    user_id = dto.user_id;
    merchant_id = dto.merchant_id;
    amount = S.to_scale 2 (S.decimal_of_number dto.amount);
    currency = dto.currency;
    status = created;
    created_at = time;
  }

  unfoldable pub create_order : CreateOrderDto S → Io S (OrderRow S)
  create_order dto = do
    id ← new_id S
    time ← now S
    call S (on_orders S (insert S.orders (new_order id time dto)))

  -- The response to `POST /orders`.
  abbrev pub order_json : OrderRow S → Json S.Number
  order_json order = obj (
      field "id" (str order.id) (
        field "userId" (str order.user_id) (
          field "merchantId" (str order.merchant_id) (
            field "amount" (num (S.to_number order.amount)) (
              field "currency" (str order.currency) (
                field "status" (str (status_text order.status))
                  (field "createdAt" (str (S.iso_text order.created_at)) end)))))))

  -- A cached response, if it was saved for the same request.
  unfoldable pub replay_response : String → String → KeyRow S → Io S (Json S.Number)
  replay_response message request_hash row =
      if row.request_hash == request_hash then pure row.response_body else raise (conflict message)

  -- The body of `if (idemKey)`, which `create` and `confirm` share: a saved response is returned,
  -- or the work is done and its response saved.
  unfoldable pub or_saved :
      String
      → String
      → String
      → String
      → Io S (Json S.Number)
      → Option (KeyRow S)
      → Io S (Json S.Number)
  unfolding replay_response
  or_saved message key scope request_hash work (some row) = replay_response message request_hash row
  or_saved message key scope request_hash work none = do
    response ← work
    save_response S key scope request_hash response (some ttl_seconds)
    pure response

  unfoldable pub once :
      String → String → String → String → Io S (Json S.Number) → Io S (Json S.Number)
  unfolding or_saved
  once message key scope request_hash work = do
    cached ← get_cached_response S key scope
    or_saved message key scope request_hash work cached

  unfoldable pub create_response : CreateOrderDto S → Io S (Json S.Number)
  unfolding create_order
  create_response dto = do order ← create_order dto; pure (order_json order)

  unfoldable pub create_with_key : Option String → CreateOrderDto S → Io S (Json S.Number)
  unfolding once create_response
  create_with_key none dto = create_response dto
  create_with_key (some key) dto =
      once "Idempotency-Key reused with different request body" key "POST:/orders"
        (hash_request S "POST" "/orders" (some dto.body)) (create_response dto)

  -- `create`, by the header `idempotency-key`
  unfoldable pub create : Option String → CreateOrderDto S → Io S (Json S.Number)
  unfolding create_with_key
  create key dto = create_with_key (truthy key) dto

  abbrev pub confirm_json : String → OrderStatus → Json S.Number → Json S.Number
  confirm_json id status outbox_id = obj (
      field "id" (str id)
        (field "status" (str (status_text status)) (field "outboxEventId" outbox_id end)))

  -- The payload of `OrderConfirmed`.
  abbrev pub confirmed_payload : OrderRow S → ℕ → Json S.Number
  confirmed_payload order time = obj (
      field "orderId" (str order.id) (
        field "userId" (str order.user_id) (
          field "merchantId" (str order.merchant_id) (
            field "amount" (str (S.decimal_to_text order.amount)) (
              field "currency" (str order.currency)
                (field "confirmedAt" (str (S.iso_text time)) end))))))

  abbrev pub confirmed_event : String → ℕ → OrderRow S → OutboxRow
  confirmed_event id time order = record {
    id = id;
    aggregate_id = order.id;
    type = "OrderConfirmed";
    payload = confirmed_payload order time;
    status = OutboxStatus.pending;
    attempts = 0;
    available_at = time;
    created_at = time;
    sent_at = none;
    last_error = none;
  }

  abbrev pub set_confirmed : OrderRow S → OrderRow S
  set_confirmed order = record order { status = confirmed }

  -- The transition from `CREATED`, with its outbox event.
  unfoldable pub confirm_created : String → Io S (Json S.Number)
  confirm_created order_id = do
    order ← statement S (on_orders S (update S.orders order_id set_confirmed))
    id ← new_id S
    time ← now S
    event ← statement S (on_outbox S (insert S.outbox (confirmed_event id time order)))
    pure (confirm_json order.id order.status (str event.id))

  unfoldable pub confirm_by_status : String → OrderRow S → OrderStatus → Io S (Json S.Number)
  unfolding confirm_created
  confirm_by_status order_id order cancelled = raise (conflict "Cannot confirm a cancelled order")
  confirm_by_status order_id order confirmed = pure (confirm_json order.id order.status null)
  confirm_by_status order_id order created = confirm_created order_id

  unfoldable pub confirm_found : String → Option (OrderRow S) → Io S (Json S.Number)
  unfolding confirm_by_status
  confirm_found order_id none = raise (conflict "Order not found")
  confirm_found order_id (some order) = confirm_by_status order_id order order.status

  -- `confirmAndOutbox`
  unfoldable pub confirm_and_outbox : String → Io S (Json S.Number)
  unfolding confirm_found
  confirm_and_outbox order_id = transaction S (do
    order ← statement S (on_orders S (find_unique S.orders order_id))
    confirm_found order_id order)

  unfoldable pub confirm_with_key : Option String → String → Io S (Json S.Number)
  unfolding once
  confirm_with_key none id = confirm_and_outbox id
  confirm_with_key (some key) id =
      once "Idempotency-Key reused with different request" key
        (text_append "POST:" (confirm_path id))
        (hash_request S "POST" (confirm_path id) (some null)) (confirm_and_outbox id)

  -- `confirm`, by the header `idempotency-key`
  unfoldable pub confirm : Option String → String → Io S (Json S.Number)
  unfolding confirm_with_key
  confirm key id = confirm_with_key (truthy key) id
