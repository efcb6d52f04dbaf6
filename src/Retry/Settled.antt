-- ===== src/Retry/Settled.antt =====
-- The tables, the letters and the metrics after the `catch` of the retry loop, column by column.
use shopback_cashback_ledger.Prelude.{
  ℕ, suc, ◌+◌, ◌*◌, ◌^◌, String, some, [], ◌∷◌, ◌++◌, ◌≡◌, ◌≢◌, ◌∙◌, refl, leb, eq_iff, arith,
  text_comparable, Bool-cases, inl, inr, if◌then◌else◌,
}
use shopback_cashback_ledger.Json.{str, num, obj, field, end}
use shopback_cashback_ledger.Schema.{failed}
use shopback_cashback_ledger.Errors.{Error, success}
use shopback_cashback_ledger.Effect.{Result, ok}
use shopback_cashback_ledger.Services.{Services}
use shopback_cashback_ledger.World.{World}
use shopback_cashback_ledger.Outbox.{Settings, backoff_ms as outbox_backoff}
use shopback_cashback_ledger.Outbox.Backoff.{backoff_ms_lem}
use shopback_cashback_ledger.Consumer.{InboxRow}
use shopback_cashback_ledger.Retry.{backoff_ms, retry_failed}
use shopback_cashback_ledger.Retry.Exhaustion.{retry_failed_lem}

-- The retry loop waits as long as the publisher.
same_backoff : (n : ℕ) → backoff_ms n ≡ outbox_backoff n
unfolding backoff_ms outbox_backoff
same_backoff n = refl

-- The delay after `n` attempts.
backoff_ms-delay : (n : ℕ) → backoff_ms n ≡ (if leb n 4 then 1000 * 2 ^ n else 30000)
backoff_ms-delay n = same_backoff n ∙ backoff_ms_lem n

module _ (S : Services) where
  module _ (e : InboxRow S) (w : World S) {row : InboxRow S}
      (found : S.inbox.find e.id w.db.inbox ≡ some row) where
    other_row :
        (k : String) (new : InboxRow S) (t : S.inbox.Rows)
        → new.id ≡ row.id
        → k ≢ e.id
        → S.inbox.find k (S.inbox.write new t) ≡ S.inbox.find k t
    other_row k new t own other = ground (
      arith,
      S.inbox.find-write k new t,
      S.inbox.find-key e.id row w.db.inbox found,
      eq_iff new.id k,
    )

    own_row :
        (new : InboxRow S) (t : S.inbox.Rows)
        → new.id ≡ row.id
        → S.inbox.find e.id (S.inbox.write new t) ≡ some new
    own_row new t own = ground (
      arith,
      S.inbox.find-write e.id new t,
      S.inbox.find-key e.id row w.db.inbox found,
      eq_iff new.id e.id,
    )

  -- What the `catch` of the retry loop has done with the row of an event.
  pub record Settled (settings : Settings) (e row : InboxRow S) (text : String) (w : World S)
      (x : Result (Unit {0}) × World S) : Type 0 where
    pub returns : x.0 ≡ ok tt
    pub stored :
        S.inbox.find e.id x.1.db.inbox
        ≡ some (
            if leb settings.max_attempts (suc row.attempts)
            then record row { status = failed; attempts = suc row.attempts; last_error = some text }
            else record row {
              attempts = suc row.attempts;
              last_error = some text;
              available_at =
                  S.clock (suc w.calls)
                  + (if leb (suc row.attempts) 4 then 1000 * 2 ^ suc row.attempts else 30000);
            })
    pub others : (k : String) → k ≢ e.id → S.inbox.find k x.1.db.inbox ≡ S.inbox.find k w.db.inbox
    pub letters : x.1.dead_letters ≡ (
        if leb settings.max_attempts (suc row.attempts)
        then w.dead_letters
          ++ record {
            key = row.source_event_id;
            value = obj (
                field "sourceEventId" (str row.source_event_id) (
                  field "type" (str row.type) (
                    field "payload" row.payload (
                      field "attempts" (num (S.number_of_nat (suc row.attempts))) (
                        field "lastError"
                          (str text)
                          (field "at" (str (S.iso_text (S.clock (suc (suc w.calls))))) end))))));
          }
            ∷ []
        else w.dead_letters)
    pub counted : x.1.metrics.dlq_produced ≡ (
        if leb settings.max_attempts (suc row.attempts)
        then suc w.metrics.dlq_produced
        else w.metrics.dlq_produced)
    pub frame : x.1 ≡ record w {
      db = record w.db { inbox = x.1.db.inbox };
      dead_letters = x.1.dead_letters;
      metrics = record w.metrics { dlq_produced = x.1.metrics.dlq_produced };
      calls = x.1.calls;
    }

  -- If the row of an event whose attempt failed is found and the calls succeed, its attempts grow by
  -- one and the text of the error is kept. If the attempts have reached the limit, the row says
  -- `FAILED`, one letter is sent, under the id of the source event and with the columns of the row,
  -- and the counter of the letters grows by one. If not, the status of the row stays, it is due again
  -- 1000 * 2 ^ n milliseconds later, where n is the number of the attempts, or 30000 if n is over
  -- 4, and no letter is sent or counted. No other row, table, message or counter changes.
  pub retry_failed-Settled :
      (settings : Settings) (e : InboxRow S) (error : Error) (w : World S) {row : InboxRow S}
      → S.inbox.find e.id w.db.inbox ≡ some row
      → S.outcome w.calls ≡ success
      → S.outcome (suc w.calls) ≡ success
      → S.outcome (suc (suc w.calls)) ≡ success
      → Settled settings e row (S.error_text error) w (retry_failed S settings e error w)
  retry_failed-Settled settings e error w {row} found first second third =
      rw (retry_failed_lem S settings e error w found first second third)
        (elim (Bool-cases (leb settings.max_attempts (suc row.attempts))) [
          | inl over ↦ rw over (record {
            returns = refl;
            stored = rw over (own_row e w found _ _ refl);
            others = λ k other.
                other_row e w found k _ _ refl other ∙ other_row e w found k _ _ refl other;
            letters = rw over refl;
            counted = rw over refl;
            frame = refl;
          })
          | inr under ↦ rw under (record {
            returns = refl;
            stored = rw (under, ← backoff_ms-delay (suc row.attempts)) (own_row e w found _ _ refl);
            others = λ k other.
                other_row e w found k _ _ refl other ∙ other_row e w found k _ _ refl other;
            letters = rw under refl;
            counted = rw under refl;
            frame = refl;
          })
        ])
