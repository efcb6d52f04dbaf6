-- ===== src/Retry/Exhaustion.antt =====
-- What the retry loop does with an inbox row whose attempt failed: the next attempt, or the dead
-- letter topic.
use shopback_cashback_ledger.Prelude.{
  suc, ◌+◌, true, some, [], ◌∷◌, ◌++◌, ◌≡◌, refl, leb, Bool-cases, inl, inr, if◌then◌else◌,
}
use shopback_cashback_ledger.Errors.{Error, Fault, success, lost, service}
use shopback_cashback_ledger.Effect.{ok, err, ◌>>=◌}
use shopback_cashback_ledger.Services.{Services}
use shopback_cashback_ledger.World.{Db, World}
use shopback_cashback_ledger.Calls.{call, now, count, send_dead_letter}
use shopback_cashback_ledger.Queries.{update_found, find_written}
use shopback_cashback_ledger.Outbox.{Settings}
use shopback_cashback_ledger.Consumer.{InboxRow}
use shopback_cashback_ledger.Retry.{
  backoff_ms, set_attempted, set_failed, set_available, dead_letter, count_dead_letter, bury_event,
  postpone, retry_failed,
}

module _ (S : Services) where
  abbrev pub write_inbox : InboxRow S → Db S → Db S
  write_inbox row d = record d { inbox = S.inbox.write row d.inbox }

  -- The row has failed for good, and its letter is sent.
  abbrev pub buried : InboxRow S → World S → World S
  buried row w = record w {
    db = write_inbox (set_failed S row) w.db;
    dead_letters = w.dead_letters ++ dead_letter S row (S.clock (suc w.calls)) ∷ [];
    metrics = count_dead_letter w.metrics;
    calls = suc (suc w.calls);
  }

  -- The row waits for its next attempt.
  abbrev pub postponed : InboxRow S → World S → World S
  postponed row w = record w {
    db = write_inbox (set_available S (S.clock w.calls + backoff_ms row.attempts) row) w.db;
    calls = suc w.calls;
  }

  bury_event-buried :
      (row : InboxRow S) (w : World S)
      → S.inbox.find row.id w.db.inbox ≡ some row
      → S.outcome w.calls ≡ success
      → S.outcome (suc w.calls) ≡ success
      → bury_event S row w ≡ (ok tt, buried row w)
  unfolding bury_event call now send_dead_letter count ◌>>=◌
  bury_event-buried row w found first second =
      rw (first, update_found S.inbox row.id (set_failed S) w.db.inbox found, second) refl

  bury_event-lost :
      (row : InboxRow S) (w : World S) {f : Fault}
      → S.inbox.find row.id w.db.inbox ≡ some row
      → S.outcome w.calls ≡ success
      → S.outcome (suc w.calls) ≡ lost f
      → bury_event S row w ≡ (
        err (service f),
        record w { db = write_inbox (set_failed S row) w.db; calls = suc (suc w.calls) },
      )
  unfolding bury_event call now send_dead_letter count ◌>>=◌
  bury_event-lost row w found first second =
      rw (first, update_found S.inbox row.id (set_failed S) w.db.inbox found, second) refl

  postpone-postponed :
      (row : InboxRow S) (w : World S)
      → S.inbox.find row.id w.db.inbox ≡ some row
      → S.outcome w.calls ≡ success
      → postpone S row w ≡ (ok tt, postponed row w)
  unfolding postpone call now ◌>>=◌
  postpone-postponed row w found first =
      rw
        (
          first,
          update_found S.inbox row.id (set_available S (S.clock w.calls + backoff_ms row.attempts))
              w.db.inbox found,
        )
        refl

  -- The first update of the `catch`.
  abbrev pub attempted : InboxRow S → Error → World S → World S
  attempted row error w = record w {
    db = write_inbox (set_attempted S error row) w.db;
    calls = suc w.calls;
  }

  -- If the row of an event whose attempt failed is found and the calls succeed, its attempts grow by
  -- one and the error is kept. Then either they reach the limit, and the row has failed and exactly
  -- one letter about it is sent and counted; or they do not, and the row stays as it is but for the
  -- time of its next attempt, later by the backoff.
  pub retry_failed_lem :
      (settings : Settings) (e : InboxRow S) (error : Error) (w : World S) {row : InboxRow S}
      → S.inbox.find e.id w.db.inbox ≡ some row
      → S.outcome w.calls ≡ success
      → S.outcome (suc w.calls) ≡ success
      → S.outcome (suc (suc w.calls)) ≡ success
      → retry_failed S settings e error w ≡ (
        ok tt,
        (if leb settings.max_attempts (suc row.attempts)
            then buried (set_attempted S error row) (attempted row error w)
            else postponed (set_attempted S error row) (attempted row error w)),
      )
  unfolding retry_failed call ◌>>=◌
  retry_failed_lem settings e error w {row} found first second third =
      let own = find_written S.inbox (set_attempted S error row) w.db.inbox in
      elim (Bool-cases (leb settings.max_attempts (suc row.attempts))) [
        | inl over ↦
            rw (first, update_found S.inbox e.id (set_attempted S error) w.db.inbox found, over)
              (bury_event-buried _ (attempted row error w) own second third)
        | inr under ↦
            rw (first, update_found S.inbox e.id (set_attempted S error) w.db.inbox found, under)
              (postpone-postponed _ (attempted row error w) own second)
      ]

  -- If the attempts of a row reach the limit, both updates succeed and the send of its letter is
  -- lost, what the broker reports is thrown, though the row has failed already and no letter was
  -- sent.
  pub retry_failed-lost :
      (settings : Settings) (e : InboxRow S) (error : Error) (w : World S) {row : InboxRow S}
      {f : Fault}
      → S.inbox.find e.id w.db.inbox ≡ some row
      → leb settings.max_attempts (suc row.attempts) ≡ true
      → S.outcome w.calls ≡ success
      → S.outcome (suc w.calls) ≡ success
      → S.outcome (suc (suc w.calls)) ≡ lost f
      → retry_failed S settings e error w ≡ (
        err (service f),
        record (attempted row error w) {
          db = write_inbox (set_failed S (set_attempted S error row)) (attempted row error w).db;
          calls = suc (suc (suc w.calls));
        },
      )
  unfolding retry_failed call ◌>>=◌
  retry_failed-lost settings e error w {row} found over first second third =
      rw (first, update_found S.inbox e.id (set_attempted S error) w.db.inbox found, over)
        (bury_event-lost _ (attempted row error w)
          (find_written S.inbox (set_attempted S error row) w.db.inbox) second third)
