-- ===== src/Retry.antt =====
-- apps/worker/src/inbox-retry.ts: one round of `retryInboxLoop`.
pub mod Exhaustion
pub mod Rounds
pub mod Settled
use shopback_cashback_ledger.Prelude.{
  ℕ, suc, ◌+◌, ◌*◌, ◌^◌, min, max, String, Bool, true, false, ◌&&◌, Option, none, some, List, [],
  ◌∷◌, ◌==◌, text_comparable, leb, if◌then◌else◌,
}
use shopback_cashback_ledger.Json.{Json, null, str, num, bool, obj, field, end, member}
use shopback_cashback_ledger.Schema.{InboxStatus, pending, failed}
use shopback_cashback_ledger.Errors.{Error, missing_order_id}
use shopback_cashback_ledger.Effect.{pure, raise, catch, ◌>>=◌, ◌>>◌}
use shopback_cashback_ledger.Services.{Services}
use shopback_cashback_ledger.World.{Message, Metrics, Io}
use shopback_cashback_ledger.Calls.{call, now, count, send_dead_letter}
use shopback_cashback_ledger.Queries.{update, find_many, on_inbox}
use shopback_cashback_ledger.Handler.{process_payload}
use shopback_cashback_ledger.Outbox.{Settings}
use shopback_cashback_ledger.Consumer.{InboxRow, mark_processed}

unfoldable pub backoff_ms : ℕ → ℕ
backoff_ms attempts = min 30000 (1000 * 2 ^ max 0 attempts)

abbrev pub is_pending : InboxStatus → Bool
is_pending pending = true
is_pending _ = false

abbrev pub count_retry : Metrics → Metrics
count_retry m = record m { inbox_retries = suc m.inbox_retries }

abbrev pub count_dead_letter : Metrics → Metrics
count_dead_letter m = record m { dlq_produced = suc m.dlq_produced }

module _ (S : Services) where
  abbrev pub is_due : ℕ → InboxRow S → Bool
  is_due time e = is_pending e.status && leb e.available_at time

  -- `!v` is false
  abbrev pub is_truthy : Option (Json S.Number) → Bool
  is_truthy none = false
  is_truthy (some null) = false
  is_truthy (some (bool b)) = b
  is_truthy (some (num n)) = S.truthy_number n
  is_truthy (some (str text)) = if text == "" then false else true
  is_truthy (some other) = true

  abbrev pub set_attempted : Error → InboxRow S → InboxRow S
  set_attempted err e = record e { attempts = suc e.attempts; last_error = some (S.error_text err) }

  abbrev pub set_failed : InboxRow S → InboxRow S
  set_failed e = record e { status = failed }

  abbrev pub set_available : ℕ → InboxRow S → InboxRow S
  set_available time e = record e { available_at = time }

  abbrev pub text_json : Option String → Json S.Number
  text_json none = null
  text_json (some text) = str text

  abbrev pub dead_letter : InboxRow S → ℕ → Message S
  dead_letter e time = record {
    key = e.source_event_id;
    value = obj (
        field "sourceEventId" (str e.source_event_id) (
          field "type" (str e.type) (
            field "payload" e.payload (
              field "attempts" (num (S.number_of_nat e.attempts)) (
                field "lastError" (text_json e.last_error)
                  (field "at" (str (S.iso_text time)) end))))));
  }

  -- The `try` of one event.
  unfoldable pub attempt_event : InboxRow S → Io S (Unit {0})
  attempt_event e = do
    if is_truthy (member "orderId" e.payload) then pure tt else raise (missing_order_id e.id)
    process_payload S (member "orderId" e.payload)
    mark_processed S e

  unfoldable pub bury_event : InboxRow S → Io S (Unit {0})
  bury_event e = do
    call S (on_inbox S (update S.inbox e.id set_failed))
    time ← now S
    send_dead_letter S (dead_letter e time)
    count S count_dead_letter

  unfoldable pub postpone : InboxRow S → Io S (Unit {0})
  postpone e = do
    time ← now S
    call S (on_inbox S (update S.inbox e.id (set_available (time + backoff_ms e.attempts))))
    pure tt

  -- The `catch` of one event; what it throws ends the loop and the process.
  unfoldable pub retry_failed : Settings → InboxRow S → Error → Io S (Unit {0})
  unfolding bury_event postpone
  retry_failed settings e err = do
    updated ← call S (on_inbox S (update S.inbox e.id (set_attempted err)))
    if leb settings.max_attempts updated.attempts then bury_event updated else postpone updated

  unfoldable pub retry_event : Settings → InboxRow S → Io S (Unit {0})
  unfolding attempt_event retry_failed
  retry_event settings e = do count S count_retry; catch (attempt_event e) (retry_failed settings e)

  unfoldable pub retry_all : Settings → List (InboxRow S) → Io S (Unit {0})
  retry_all settings [] = pure tt
  retry_all settings (e ∷ es) = retry_event settings e >> retry_all settings es

  unfoldable pub due_events : Settings → Io S (List (InboxRow S))
  due_events settings = do
    time ← now S
    call S (on_inbox S (find_many S.inbox settings.batch_size (is_due time)))

  unfoldable pub retry_once : Settings → Io S (Unit {0})
  unfolding due_events
  retry_once settings = do events ← due_events settings; retry_all settings events
