-- ===== src/Outbox/Marked.antt =====
-- The rows and the messages after the publisher has worked on a pending event, column by column.
use shopback_cashback_ledger.Prelude.{
  ℕ, suc, ◌+◌, ◌*◌, ◌^◌, String, leb, if◌then◌else◌, some, [], ◌∷◌, ◌++◌, ◌≡◌, ◌≢◌, ◌∙◌, refl, ap,
  eq_iff, arith, text_comparable, Bool-cases, inl, inr,
}
use shopback_cashback_ledger.Json.{str, obj, field, end}
use shopback_cashback_ledger.Outbox.Backoff.{backoff_ms_lem}
use shopback_cashback_ledger.Schema.{pending, sent, failed}
use shopback_cashback_ledger.Errors.{Fault, success, lost}
use shopback_cashback_ledger.Effect.{ok}
use shopback_cashback_ledger.Services.{Services}
use shopback_cashback_ledger.World.{World}
use shopback_cashback_ledger.Orders.{OutboxRow}
use shopback_cashback_ledger.Outbox.{Settings, add_attempt, publish_event}
use shopback_cashback_ledger.Outbox.Publishing.{
  unsent_row, publish_event-sent_world, publish_event-unsent_world,
}

module _ (S : Services) where
  -- The row of a lost send, column by column.
  unsent_row_lem :
      (settings : Settings) (time : ℕ) (row : OutboxRow S)
      → let n = suc row.attempts in
        unsent_row S settings time (add_attempt S row) ≡ (
          if leb settings.max_attempts n
          then record row { status = failed; attempts = n }
          else record row {
            status = pending;
            attempts = n;
            available_at = time + (if leb n 4 then 1000 * 2 ^ n else 30000);
          })
  unsent_row_lem settings time row =
      elim (Bool-cases (leb settings.max_attempts (suc row.attempts))) [
        | inl over ↦ rw over refl
        | inr under ↦ rw (under, backoff_ms_lem (suc row.attempts)) refl
      ]

  unsent_row-id :
      (settings : Settings) (time : ℕ) (row : OutboxRow S)
      → (unsent_row S settings time (add_attempt S row)).id ≡ row.id
  unsent_row-id settings time row =
      elim (Bool-cases (leb settings.max_attempts (suc row.attempts))) [
        | inl over ↦ rw over refl
        | inr under ↦ rw under refl
      ]

  module _ (settings : Settings) (e : OutboxRow S) (w : World S) {row : OutboxRow S}
      (found : S.outbox.find e.id w.db.outbox ≡ some row) (is_pending : row.status ≡ pending)
      (calm : S.outcome w.calls ≡ success) where
    -- A row under another key is found as it was, whatever is written under the key of the event.
    other_row :
        (k : String) (new : OutboxRow S) (t : S.outbox.Rows)
        → new.id ≡ row.id
        → k ≢ e.id
        → S.outbox.find k (S.outbox.write new t) ≡ S.outbox.find k t
    other_row k new t own other = ground (
      arith,
      S.outbox.find-write k new t,
      S.outbox.find-key e.id row w.db.outbox found,
      eq_iff new.id k,
    )

    own_row :
        (new : OutboxRow S) (t : S.outbox.Rows)
        → new.id ≡ row.id
        → S.outbox.find e.id (S.outbox.write new t) ≡ some new
    own_row new t own = ground (
      arith,
      S.outbox.find-write e.id new t,
      S.outbox.find-key e.id row w.db.outbox found,
      eq_iff new.id e.id,
    )

    -- If the row of an event is pending and the three calls succeed, one message is sent, whose key
    -- is the aggregate of the event and whose fields are those of the event. The row says `SENT`
    -- with the time, its attempts have grown by one, and it has no other change. Nothing but the
    -- outbox and the sent messages changes, and no other row of the outbox.
    pub publish_event-sent :
        S.outcome (suc w.calls) ≡ success
        → S.outcome (suc (suc w.calls)) ≡ success
        → let (r, w') = publish_event S settings e w in
          (r ≡ ok tt)
          × (w' ≡ record w {
            db = record w.db { outbox = w'.db.outbox };
            events =
                w.events
                ++ record {
                  key = e.aggregate_id;
                  value = obj (
                      field "id" (str e.id) (
                        field "type" (str e.type) (
                          field "aggregateId" (str e.aggregate_id) (
                            field "payload" e.payload
                              (field "createdAt" (str (S.iso_text e.created_at)) end)))));
                }
                  ∷ [];
            calls = suc (suc (suc w.calls));
          })
          × (S.outbox.find e.id w'.db.outbox
              ≡ some (record row {
                status = sent;
                attempts = suc row.attempts;
                sent_at = some (S.clock (suc (suc w.calls)));
              }))
          × ((k : String) → k ≢ e.id → S.outbox.find k w'.db.outbox ≡ S.outbox.find k w.db.outbox)
    publish_event-sent second third =
        rw (publish_event-sent_world S settings e w found is_pending calm second third) (
          refl,
          refl,
          own_row _ _ refl,
          λ k other. other_row k _ _ refl other ∙ other_row k _ _ refl other,
        )

    -- If the row of an event is pending, its send is lost and the other three calls succeed, nothing
    -- is thrown and no message is sent. The attempts of the row have grown by one. If they have
    -- reached the limit, the row says `FAILED`; if not, it is pending and due again 1000 * 2 ^ n
    -- milliseconds later, where n is the number of the attempts, or 30000 if n is over 4. It has no
    -- other change, and neither has another row or table.
    pub publish_event-unsent :
        {f : Fault}
        → S.outcome (suc w.calls) ≡ lost f
        → S.outcome (suc (suc w.calls)) ≡ success
        → S.outcome (suc (suc (suc w.calls))) ≡ success
        → let (r, w') = publish_event S settings e w in
          let n = suc row.attempts in
          let time = S.clock (suc (suc (suc w.calls))) in
          (r ≡ ok tt)
          × (w' ≡ record w {
            db = record w.db { outbox = w'.db.outbox };
            calls = suc (suc (suc (suc w.calls)));
          })
          × (S.outbox.find e.id w'.db.outbox
              ≡ some (
                  if leb settings.max_attempts n
                  then record row { status = failed; attempts = n }
                  else record row {
                    status = pending;
                    attempts = n;
                    available_at = time + (if leb n 4 then 1000 * 2 ^ n else 30000);
                  }))
          × ((k : String) → k ≢ e.id → S.outbox.find k w'.db.outbox ≡ S.outbox.find k w.db.outbox)
    publish_event-unsent second third fourth =
        rw (publish_event-unsent_world S settings e w found is_pending calm second third fourth) (
          refl,
          refl,
          own_row _ _ (unsent_row-id settings _ row) ∙ ap some (unsent_row_lem settings _ row),
          λ k other.
              other_row k _ _ (unsent_row-id settings _ row) other ∙ other_row k _ _ refl other,
        )
