-- ===== src/Consumer/Messages.antt =====
-- What the consumer makes of a message.
use shopback_cashback_ledger.Prelude.{ℕ, String, none, some, ◌≡◌, refl, text_comparable, false}
use shopback_cashback_ledger.Json.{Json, member}
use shopback_cashback_ledger.Effect.{Result, ok, err, pure, catch, handle, ◌>>=◌}
use shopback_cashback_ledger.Services.{Services}
use shopback_cashback_ledger.World.{World}
use shopback_cashback_ledger.Cashback.{OrderRow}
use shopback_cashback_ledger.Orders.{confirmed_event, confirmed_payload}
use shopback_cashback_ledger.Outbox.{event_message}
use shopback_cashback_ledger.Handler.{process_payload, process_order_confirmed}
use shopback_cashback_ledger.Consumer.{
  receive, mark_processed, Delivery, text_or, is_order_confirmed, consume_event, consume_json,
  each_message,
}

module _ (S : Services) where
  caught : (r : Result (Unit {0})) (w : World S) → (handle r (λ e. pure tt) w).0 ≡ ok tt
  unfolding handle pure
  caught (ok done) w = refl
  caught (err e) w = refl

  -- The consumer throws for no message, no world and no pattern of failing calls.
  pub each_message_total : (message : Delivery) (w : World S) → (each_message S message w).0 ≡ ok tt
  unfolding each_message catch
  each_message_total message w = caught _ _

  -- A message that is no JSON text changes nothing: no inbox row is made for it.
  pub each_message-invalid :
      (message : Delivery) (w : World S)
      → S.parse (text_or message.value "") ≡ none
      → each_message S message w ≡ (ok tt, w)
  unfolding each_message catch
  each_message-invalid message w h = rw h refl

  -- A JSON message that is no object with the type `OrderConfirmed` changes nothing either.
  pub each_message-other :
      (message : Delivery) (w : World S) {event : Json S.Number}
      → S.parse (text_or message.value "") ≡ some event
      → is_order_confirmed S (member "type" event) ≡ false
      → each_message S message w ≡ (ok tt, w)
  unfolding each_message catch
  each_message-other message w h other = rw (h, other) refl

  -- A message whose text is that of the event which `confirmAndOutbox` makes for an order, in the
  -- form in which the publisher sends it, is worked off for just that order: its payload is received
  -- under the event's id, the worker credits the order of that id, and the inbox row is marked;
  -- what one of these throws is dropped.
  pub each_message-confirmed :
      (message : Delivery) (w : World S) (id : String) (time : ℕ) (order : OrderRow S)
      → S.parse (text_or message.value "")
        ≡ some (event_message S (confirmed_event S id time order)).value
      → each_message S message w
        ≡ catch
            (receive S id (confirmed_payload S order time) >>= λ inbox.
              process_order_confirmed S order.id >>= λ credit. mark_processed S inbox)
            (λ e. pure tt)
            w
  unfolding each_message consume_json consume_event process_payload
  each_message-confirmed message w id time order h = rw h refl
