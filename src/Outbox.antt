-- ===== src/Outbox.antt =====
-- The outbox publisher of apps/worker/src/index.ts: `publishOnce`, the rounds that `main` makes of
-- it, `backoffMs` and `isRetryableDbError`.
pub mod Backoff
pub mod Publishing
pub mod Marked
use shopback_cashback_ledger.Prelude.{
  ℕ, zero, suc, ◌+◌, ◌*◌, ◌^◌, min, max, String, Bool, true, false, ◌&&◌, ◌||◌, Option, none, some,
  List, [], ◌∷◌, ◌==◌, text_comparable, leb, if◌then◌else◌,
}
use shopback_cashback_ledger.Json.{str, obj, field, end}
use shopback_cashback_ledger.Schema.{OutboxStatus, pending, sent, failed}
use shopback_cashback_ledger.Errors.{Error, service, initialization, known_request}
use shopback_cashback_ledger.Effect.{pure, catch, ◌>>=◌, ◌>>◌}
use shopback_cashback_ledger.Services.{Services}
use shopback_cashback_ledger.World.{Message, Io}
use shopback_cashback_ledger.Calls.{call, now, send_event}
use shopback_cashback_ledger.Queries.{find_unique, update, update_many, find_many, on_outbox}
use shopback_cashback_ledger.Orders.{OutboxRow}

-- `MAX_ATTEMPTS` and `BATCH_SIZE` (`RETRY_BATCH_SIZE` in the retry loop)
pub record Settings : Type 0 where
  pub max_attempts : ℕ
  pub batch_size : ℕ

unfoldable pub backoff_ms : ℕ → ℕ
backoff_ms attempts = min 30000 (1000 * 2 ^ max 0 attempts)

unfoldable pub is_retryable_code : String → Bool
is_retryable_code code = code == "P1001" || code == "P1003" || code == "P2021" || code == "P2022"

unfoldable pub is_retryable_db_error : Error → Bool
unfolding is_retryable_code
is_retryable_db_error (service initialization) = true
is_retryable_db_error (service (known_request code)) = is_retryable_code code
is_retryable_db_error _ = false

abbrev pub is_pending : OutboxStatus → Bool
is_pending pending = true
is_pending _ = false

module _ (S : Services) where
  -- `status: PENDING, availableAt: { lte: now }`
  abbrev pub is_due : ℕ → OutboxRow S → Bool
  is_due time e = is_pending e.status && leb e.available_at time

  abbrev pub is_claimable : OutboxRow S → Bool
  is_claimable e = is_pending e.status

  abbrev pub add_attempt : OutboxRow S → OutboxRow S
  add_attempt e = record e { attempts = suc e.attempts }

  abbrev pub set_sent : ℕ → OutboxRow S → OutboxRow S
  set_sent time e = record e { status = sent; sent_at = some time }

  abbrev pub set_failed : OutboxRow S → OutboxRow S
  set_failed e = record e { status = failed }

  abbrev pub set_retry : ℕ → OutboxRow S → OutboxRow S
  set_retry time e = record e { status = pending; available_at = time }

  -- The message of an event.
  abbrev pub event_message : OutboxRow S → Message S
  event_message e = record {
    key = e.aggregate_id;
    value = obj (
        field "id" (str e.id) (
          field "type" (str e.type) (
            field "aggregateId" (str e.aggregate_id) (
              field "payload" e.payload (field "createdAt" (str (S.iso_text e.created_at)) end)))));
  }

  -- `updateMany` with the attempt counted, if the event is still pending
  unfoldable pub claim : OutboxRow S → Io S ℕ
  claim e = call S (on_outbox S (update_many S.outbox e.id is_claimable add_attempt))

  unfoldable pub mark_sent : OutboxRow S → Io S (Unit {0})
  mark_sent e = do
    time ← now S
    call S (on_outbox S (update S.outbox e.id (set_sent time)))
    pure tt

  unfoldable pub send_claimed : OutboxRow S → ℕ → Io S (Unit {0})
  unfolding mark_sent
  send_claimed e zero = pure tt
  send_claimed e (suc n) = do send_event S (event_message e); mark_sent e

  abbrev pub attempts_of : Option (OutboxRow S) → ℕ
  attempts_of none = 1
  attempts_of (some e) = e.attempts

  unfoldable pub fail_or_retry : Settings → OutboxRow S → ℕ → Io S (Unit {0})
  fail_or_retry settings e attempts = do
    time ← now S
    call S (
        on_outbox S (
          update S.outbox e.id (
            if leb settings.max_attempts attempts
            then set_failed
            else set_retry (time + backoff_ms attempts))))
    pure tt

  -- The `catch` of one event.
  unfoldable pub publish_failed : Settings → OutboxRow S → Io S (Unit {0})
  unfolding fail_or_retry
  publish_failed settings e = do
    refreshed ← call S (on_outbox S (find_unique S.outbox e.id))
    fail_or_retry settings e (attempts_of refreshed)

  unfoldable pub attempt_event : OutboxRow S → Io S (Unit {0})
  unfolding claim send_claimed
  attempt_event e = do claimed ← claim e; send_claimed e claimed

  unfoldable pub publish_event : Settings → OutboxRow S → Io S (Unit {0})
  unfolding attempt_event publish_failed
  publish_event settings e = catch (attempt_event e) (λ err. publish_failed settings e)

  unfoldable pub publish_all : Settings → List (OutboxRow S) → Io S (Unit {0})
  publish_all settings [] = pure tt
  publish_all settings (e ∷ es) = publish_event settings e >> publish_all settings es

  unfoldable pub due_events : Settings → Io S (List (OutboxRow S))
  due_events settings = do
    time ← now S
    call S (on_outbox S (find_many S.outbox settings.batch_size (is_due time)))

  -- `publishOnce`
  unfoldable pub publish_once : Settings → Io S (Unit {0})
  unfolding due_events
  publish_once settings = do events ← due_events settings; publish_all settings events

  -- One round of the loop in `main`: what is thrown is logged.
  unfoldable pub publish_round : Settings → Io S (Unit {0})
  unfolding publish_once
  publish_round settings = catch (publish_once settings) (λ e. pure tt)
