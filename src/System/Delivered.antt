-- ===== src/System/Delivered.antt =====
-- A message about a confirmed order, when no call fails: the order has its credit afterwards.
use shopback_cashback_ledger.Prelude.{
  ℕ, suc, String, none, some, ◌≡◌, refl, ◌∙◌, ◌⊎◌, inl, inr, Option-cases,
}
use shopback_cashback_ledger.Json.{Json}
use shopback_cashback_ledger.Schema.{credit}
use shopback_cashback_ledger.Errors.{success}
use shopback_cashback_ledger.Effect.{Result, ok, err, pure, catch, handle, ◌>>=◌}
use shopback_cashback_ledger.Services.{Services}
use shopback_cashback_ledger.World.{World}
use shopback_cashback_ledger.Calls.{call, now, new_id}
use shopback_cashback_ledger.Queries.{create_fresh, find_by}
use shopback_cashback_ledger.Cashback.{OrderRow, EntryRow, credit_entry}
use shopback_cashback_ledger.Domain.Credits.{due, IsConfirmedOrder}
use shopback_cashback_ledger.Orders.{confirmed_event, confirmed_payload}
use shopback_cashback_ledger.Outbox.{event_message}
use shopback_cashback_ledger.Handler.{process_order_confirmed}
use shopback_cashback_ledger.Handler.Credited.{IsReadable, process_order_confirmed-credited}
use shopback_cashback_ledger.Consumer.{
  Delivery, InboxRow, text_or, receive, new_inbox, has_source, upsert_source, mark_processed,
  each_message,
}
use shopback_cashback_ledger.Consumer.Messages.{each_message-confirmed}
use shopback_cashback_ledger.RuleCache.Fallback.{bind_ok}
use shopback_cashback_ledger.Spec.Kept.{Steps-KeepsEntry}
use shopback_cashback_ledger.History.Worker.{mark_processed-follows, each_message-follows}

module _ (S : Services) where
  upsert_source_new :
      (new : InboxRow S) (t : S.inbox.Rows)
      → find_by S.inbox (has_source S new.source_event_id) t ≡ none
      → S.inbox.find new.id t ≡ none
      → upsert_source S new t ≡ (ok new, S.inbox.write new t)
  upsert_source_new new t absent fresh =
      rw (upsert_source, absent, create_fresh S.inbox new t fresh) refl

  upsert_source_old :
      (new : InboxRow S) {old : InboxRow S} (t : S.inbox.Rows)
      → find_by S.inbox (has_source S new.source_event_id) t ≡ some old
      → upsert_source S new t ≡ (ok old, t)
  upsert_source_old new t found = rw (upsert_source, found) refl

module _ (S : Services) (calm : (n : ℕ) → S.outcome n ≡ success) where
  -- The message is kept in the inbox, in a new row or in one that is there.
  receive_lem :
      (source : String) (payload : Json S.Number) (w : World S)
      → S.inbox.find (S.uuid w.calls) w.db.inbox ≡ none
      → (row : InboxRow S) × (rows : S.inbox.Rows) × (receive S source payload w
          ≡ (ok row, record w { db = record w.db { inbox = rows }; calls = suc w.calls }))
  unfolding receive call new_id now ◌>>=◌
  receive_lem source payload w fresh =
      let new = new_inbox S (S.uuid w.calls) (S.clock w.calls) source payload in
      elim (Option-cases (find_by S.inbox (has_source S source) w.db.inbox)) [
        | inl absent ↦ (
          new,
          S.inbox.write new w.db.inbox,
          (rw (calm w.calls, upsert_source_new S new w.db.inbox absent fresh) refl),
        )
        | inr (old, found) ↦
            (old, w.db.inbox, (rw (calm w.calls, upsert_source_old S new w.db.inbox found) refl))
      ]

  -- What is thrown is dropped, and the state is kept.
  dropped : (r : Result (Unit {0})) (w : World S) → (handle r (λ e. pure tt) w).1 ≡ w
  unfolding handle pure
  dropped (ok done) w = refl
  dropped (err e) w = refl

  -- The credit that the ledger holds stays through the rest of the work on the message.
  marked :
      (row : InboxRow S) (w : World S) (id : String) (x : EntryRow S)
      → S.ledger.find (id, credit) w.db.ledger ≡ some x
      → S.ledger.find (id, credit) (mark_processed S row w).1.db.ledger ≡ some x
  marked row w id x = Steps-KeepsEntry S (id, credit) x ((mark_processed-follows S row).at w)

  module _ (message : Delivery) (w : World S) (event_id : String) (time : ℕ) (order : OrderRow S)
      (text : S.parse (text_or message.value "")
        ≡ some (event_message S (confirmed_event S event_id time order)).value)
      (h : IsConfirmedOrder S w.db order.id order)
      (fresh : S.inbox.find (S.uuid w.calls) w.db.inbox ≡ none)
      (readable : IsReadable S w order.merchant_id) where
    -- The order had no credit, and gets the one that is due.
    pub first_credit :
        S.ledger.find (order.id, credit) w.db.ledger ≡ none
        → (id : String) × (S.ledger.find (order.id, credit) (each_message S message w).1.db.ledger
            ≡ some (credit_entry S id order (due S w.db order)))
    unfolding catch
    first_credit absent =
        let (row, rows, received) = receive_lem event_id (confirmed_payload S order time) w fresh in
        let kept : World S = record w { db = record w.db { inbox = rows }; calls = suc w.calls } in
        let (id, v, done, entered) =
          process_order_confirmed-credited S calm order.id order kept h absent (record {
            reads = readable.reads;
            coherent = readable.coherent;
            others = readable.others;
          }) in
        let work =
          bind_ok S (receive S event_id (confirmed_payload S order time))
            (λ inbox. process_order_confirmed S order.id >>= λ c. mark_processed S inbox) w received
          ∙ bind_ok S (process_order_confirmed S order.id) (λ c. mark_processed S row) kept done in
        let x = credit_entry S id order (due S w.db order) in
        (
          id,
          rw (each_message-confirmed S message w event_id time order text) (
              rw (work, dropped (mark_processed S row v).0 (mark_processed S row v).1)
                (marked row v order.id x entered)),
        )

    -- If no call fails, the rule of the merchant can be read from the cache as it is in the tables, the
    -- id of a new inbox row is new, and the order is stored and confirmed: then a message with
    -- the event of the order leaves the ledger with the credit that it held, or with one of the
    -- cashback under the rule stored for the merchant.
    pub each_message-credits :
        ((old : EntryRow S) × (S.ledger.find (order.id, credit) w.db.ledger ≡ some old)
          × (S.ledger.find (order.id, credit) (each_message S message w).1.db.ledger ≡ some old))
        ⊎ ((id : String) × (S.ledger.find (order.id, credit) (each_message S message w).1.db.ledger
              ≡ some (credit_entry S id order (due S w.db order))))
    each_message-credits = elim (Option-cases (S.ledger.find (order.id, credit) w.db.ledger)) [
      | inl absent ↦ inr (first_credit absent)
      | inr (old, found) ↦ inl (
        old,
        found,
        Steps-KeepsEntry S (order.id, credit) old ((each_message-follows S message).at w) found,
      )
    ]
