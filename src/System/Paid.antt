-- ===== src/System/Paid.antt =====
-- The way of an order from its confirmation to its cashback, when no call fails.
use shopback_cashback_ledger.Prelude.{ℕ, suc, String, false, none, some, [], ◌∷◌, ◌++◌, ◌≡◌, refl}
use shopback_cashback_ledger.Json.{str}
use shopback_cashback_ledger.Schema.{created, confirmed, credit}
use shopback_cashback_ledger.Errors.{success}
use shopback_cashback_ledger.Effect.{ok, pure, ◌>>=◌}
use shopback_cashback_ledger.Services.{Services}
use shopback_cashback_ledger.World.{World}
use shopback_cashback_ledger.Calls.{
  call, statement, unless_aborted, note_failure, transaction, finish, commit, now, new_id,
}
use shopback_cashback_ledger.Queries.{create_fresh, update_found, find_written}
use shopback_cashback_ledger.Cashback.{OrderRow, credit_entry}
use shopback_cashback_ledger.Domain.Credits.{due}
use shopback_cashback_ledger.Orders.{
  OutboxRow, confirm_json, confirmed_event, set_confirmed, confirm_created, confirm_by_status,
  confirm_found, confirm_and_outbox,
}
use shopback_cashback_ledger.Orders.Confirmed.{with_confirmed}
use shopback_cashback_ledger.Outbox.{Settings, event_message, publish_event}
use shopback_cashback_ledger.Outbox.Publishing.{publish_event-sent_world, sent_world}
use shopback_cashback_ledger.Handler.Credited.{IsReadable}
use shopback_cashback_ledger.Consumer.{Delivery, text_or, each_message}
use shopback_cashback_ledger.System.Delivered.{first_credit}

module _ (S : Services) where
  abbrev pub event_of : OrderRow S → World S → OutboxRow S
  event_of order w =
      let n = suc (suc w.calls) in confirmed_event S (S.uuid n) (S.clock n) (set_confirmed S order)

  abbrev confirmed_world : OrderRow S → World S → World S
  confirmed_world order w =
      let n = suc (suc w.calls) in
      record w {
        db = with_confirmed S w.db order (S.uuid n) (S.clock n);
        calls = suc (suc n);
        aborted = false;
      }

  -- The call that keeps the message: after four of the confirmation and three of the publisher.
  abbrev pub received_at : World S → ℕ
  received_at w = suc (suc (suc (suc (suc (suc (suc w.calls))))))

module _ (S : Services) (calm : (n : ℕ) → S.outcome n ≡ success) where
  confirm_lem :
      (order_id : String) (order : OrderRow S) (w : World S)
      → S.orders.find order_id w.db.orders ≡ some order
      → order.status ≡ created
      → S.outbox.find (S.uuid (suc (suc w.calls))) w.db.outbox ≡ none
      → confirm_and_outbox S order_id w ≡ (
        ok (confirm_json S order.id confirmed (str (event_of S order w).id)),
        confirmed_world S order w,
      )
  unfolding confirm_and_outbox confirm_found confirm_by_status confirm_created transaction finish
      commit statement unless_aborted note_failure call now new_id pure ◌>>=◌
  confirm_lem order_id order w found was fresh =
      rw
        (
          calm w.calls,
          found,
          was,
          calm (suc w.calls),
          update_found S.orders order_id (set_confirmed S) w.db.orders found,
          calm (suc (suc w.calls)),
          create_fresh S.outbox (event_of S order w) w.db.outbox fresh,
          calm (suc (suc (suc w.calls))),
        )
        refl

  -- If no call fails, the ids of the event and of the inbox row are new, the order is in `CREATED` and
  -- has no credit, the rule of its merchant can be read from the cache as it is in the tables, and
  -- the message has a text that is read as the event: then confirming the order answers with the
  -- id of its event, publishing the event appends its message to those sent, and the message
  -- leaves the ledger with the cashback of the order under the rule stored for its merchant.
  pub order_paid :
      (settings : Settings) (message : Delivery) (order_id : String) (order : OrderRow S)
      (w : World S)
      → S.orders.find order_id w.db.orders ≡ some order
      → order.status ≡ created
      → S.ledger.find (order.id, credit) w.db.ledger ≡ none
      → S.outbox.find (event_of S order w).id w.db.outbox ≡ none
      → S.inbox.find (S.uuid (received_at S w)) w.db.inbox ≡ none
      → IsReadable S w order.merchant_id
      → S.parse (text_or message.value "") ≡ some (event_message S (event_of S order w)).value
      → let (r, w1) = confirm_and_outbox S order_id w in
        let (r', w2) = publish_event S settings (event_of S order w) w1 in
        let (r'', w3) = each_message S message w2 in
        (r ≡ ok (confirm_json S order.id confirmed (str (event_of S order w).id)))
        × (r' ≡ ok tt)
        × (w2.events ≡ w.events ++ event_message S (event_of S order w) ∷ [])
        × ((id : String) × (S.ledger.find (order.id, credit) w3.db.ledger
              ≡ some (credit_entry S id order (due S w.db order))))
  order_paid settings message order_id order w found was unpaid fresh fresh' readable text =
      let e = event_of S order w in
      let w1 = confirmed_world S order w in
      let w2 : World S = sent_world S e e w1 in
      let stored = find_written S.outbox e w.db.outbox in
      let sent =
        publish_event-sent_world S settings e w1 {row = e} stored refl (calm w1.calls)
          (calm (suc w1.calls)) (calm (suc (suc w1.calls))) in
      let own = find_written S.orders (set_confirmed S order) w.db.orders in
      let paid =
        first_credit S calm message w2 e.id (S.clock (suc (suc w.calls))) (set_confirmed S order)
          text (own, refl) fresh'
          (record {
            reads = readable.reads;
            coherent = readable.coherent;
            others = readable.others;
          })
          unpaid in
      rw (confirm_lem order_id order w found was fresh) (rw sent (refl, refl, refl, paid))
