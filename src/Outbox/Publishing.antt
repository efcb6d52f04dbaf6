-- ===== src/Outbox/Publishing.antt =====
-- What the publisher does to an event whose row is pending.
use shopback_cashback_ledger.Prelude.{
  ℕ, suc, ◌+◌, leb, if◌then◌else◌, some, [], ◌∷◌, ◌++◌, ◌≡◌, refl, ap, eq_iff, arith,
  text_comparable,
}
use shopback_cashback_ledger.Schema.{pending}
use shopback_cashback_ledger.Errors.{Fault, success, lost}
use shopback_cashback_ledger.Effect.{Result, ok, catch, ◌>>=◌}
use shopback_cashback_ledger.Services.{Services}
use shopback_cashback_ledger.World.{Db, World}
use shopback_cashback_ledger.Calls.{call, now, send_event}
use shopback_cashback_ledger.Queries.{update_many_found, update_found, find_written}
use shopback_cashback_ledger.Orders.{OutboxRow}
use shopback_cashback_ledger.Outbox.{
  Settings, is_claimable, add_attempt, set_sent, set_failed, set_retry, event_message, backoff_ms,
  claim, send_claimed, mark_sent, attempt_event, fail_or_retry, publish_failed, publish_event,
}

module _ (S : Services) where
  claim_pending :
      (e : OutboxRow S) (w : World S) {row : OutboxRow S}
      → S.outcome w.calls ≡ success
      → S.outbox.find e.id w.db.outbox ≡ some row
      → row.status ≡ pending
      → claim S e w ≡ (
        ok 1,
        record w {
          db = record w.db { outbox = S.outbox.write (add_attempt S row) w.db.outbox };
          calls = suc w.calls;
        },
      )
  unfolding claim call
  claim_pending e w calm found is_pending =
      rw
        (
          calm,
          update_many_found S.outbox e.id (is_claimable S) (add_attempt S) w.db.outbox found
              (rw is_pending),
        )
        refl

  -- If the row of an event is pending and two claims of the event, one after the other, both reach
  -- the database, each of them reports one row, as a claim of an unclaimed event does.
  pub claim_twice :
      (e : OutboxRow S) (w : World S) {row : OutboxRow S}
      → S.outcome w.calls ≡ success
      → S.outcome (suc w.calls) ≡ success
      → S.outbox.find e.id w.db.outbox ≡ some row
      → row.status ≡ pending
      → let (r, w') = claim S e w in (r ≡ ok 1) × ((claim S e w').0 ≡ ok 1)
  claim_twice e w {row} calm calm' found is_pending =
      rw (claim_pending e w calm found is_pending)
        (refl, ap (λ (x : Result ℕ × World S). x.0) (claim_pending e _ calm' again is_pending))
    where
      again :
          S.outbox.find e.id (S.outbox.write (add_attempt S row) w.db.outbox)
          ≡ some (add_attempt S row)
      again = ground (
        arith,
        S.outbox.find-write e.id (add_attempt S row) w.db.outbox,
        S.outbox.find-key e.id row w.db.outbox found,
        eq_iff row.id e.id,
      )

  -- The tables and the calls when an event has been claimed and sent, or claimed and not sent.
  abbrev pub write_outbox : OutboxRow S → Db S → Db S
  write_outbox row d = record d { outbox = S.outbox.write row d.outbox }

  abbrev pub claimed_world : OutboxRow S → World S → World S
  claimed_world row w = record w { db = write_outbox (add_attempt S row) w.db; calls = suc w.calls }

  abbrev pub sent_world : OutboxRow S → OutboxRow S → World S → World S
  sent_world e row w = record (claimed_world row w) {
    db =
        write_outbox (set_sent S (S.clock (suc (suc w.calls))) (add_attempt S row))
          (claimed_world row w).db;
    events = w.events ++ event_message S e ∷ [];
    calls = suc (suc (suc w.calls));
  }

  -- What becomes of a row whose send was lost, at the time of the last update.
  abbrev pub unsent_row : Settings → ℕ → OutboxRow S → OutboxRow S
  unsent_row settings time row =
      (if leb settings.max_attempts row.attempts
          then set_failed S
          else set_retry S (time + backoff_ms row.attempts))
        row

  abbrev pub unsent_world : Settings → OutboxRow S → World S → World S
  unsent_world settings row w = record (claimed_world row w) {
    db =
        write_outbox (unsent_row settings (S.clock (suc (suc (suc w.calls)))) (add_attempt S row))
          (claimed_world row w).db;
    calls = suc (suc (suc (suc w.calls)));
  }

  module _ (settings : Settings) (e : OutboxRow S) (w : World S) {row : OutboxRow S}
      (found : S.outbox.find e.id w.db.outbox ≡ some row) (is_pending : row.status ≡ pending)
      (calm : S.outcome w.calls ≡ success) where
    again :
        S.outbox.find e.id (S.outbox.write (add_attempt S row) w.db.outbox)
        ≡ some (add_attempt S row)
    again =
        rw (← S.outbox.find-key e.id row w.db.outbox found)
          (find_written S.outbox (add_attempt S row) w.db.outbox)

    -- The world after the three calls.
    pub publish_event-sent_world :
        S.outcome (suc w.calls) ≡ success
        → S.outcome (suc (suc w.calls)) ≡ success
        → publish_event S settings e w ≡ (ok tt, sent_world e row w)
    unfolding publish_event attempt_event send_claimed send_event mark_sent call now ◌>>=◌ catch
    publish_event-sent_world second third = rw (claim_pending e w calm found is_pending) (
        rw
          (
            second,
            third,
            update_found S.outbox e.id (set_sent S (S.clock (suc (suc w.calls))))
                (S.outbox.write (add_attempt S row) w.db.outbox) again,
          )
          refl)

    -- The world after the four calls, the second of which is lost.
    pub publish_event-unsent_world :
        {f : Fault}
        → S.outcome (suc w.calls) ≡ lost f
        → S.outcome (suc (suc w.calls)) ≡ success
        → S.outcome (suc (suc (suc w.calls))) ≡ success
        → publish_event S settings e w ≡ (ok tt, unsent_world settings row w)
    unfolding publish_event attempt_event send_claimed send_event publish_failed fail_or_retry call
        now ◌>>=◌ catch
    publish_event-unsent_world second third fourth = rw (claim_pending e w calm found is_pending) (
        rw
          (
            second,
            third,
            again,
            fourth,
            update_found S.outbox e.id
                (if leb settings.max_attempts (suc row.attempts)
                  then set_failed S
                  else set_retry S
                      (S.clock (suc (suc (suc w.calls))) + backoff_ms (suc row.attempts)))
                (S.outbox.write (add_attempt S row) w.db.outbox) again,
          )
          refl)
