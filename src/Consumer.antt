-- ===== src/Consumer.antt =====
-- apps/worker/src/consumer.ts: one message of the topic of order events.
pub mod Messages
use shopback_cashback_ledger.Prelude.{
  ℕ, String, Bool, false, Option, none, some, ◌==◌, text_comparable, if◌then◌else◌,
}
use shopback_cashback_ledger.Json.{Json, null, str, obj, end, member, or_default}
use shopback_cashback_ledger.Schema.{InboxEvent, pending, processed}
use shopback_cashback_ledger.Errors.{syntax_error}
use shopback_cashback_ledger.Effect.{Result, ok, pure, raise, catch, ◌>>=◌, ◌>>◌}
use shopback_cashback_ledger.Services.{Services}
use shopback_cashback_ledger.World.{Io}
use shopback_cashback_ledger.Calls.{call, now, new_id}
use shopback_cashback_ledger.Queries.{create, update, find_by, on_inbox}
use shopback_cashback_ledger.Handler.{process_payload}

-- The value and the key of a message, where it has them.
pub record Delivery : Type 0 where
  pub value : Option String
  pub key : Option String

abbrev pub text_or : Option String → String → String
text_or none other = other
text_or (some text) other = text

module _ (S : Services) where
  abbrev pub InboxRow : Type 0
  InboxRow = InboxEvent S.Number

  -- `evt?.type !== 'OrderConfirmed'`, negated
  abbrev pub is_order_confirmed : Option (Json S.Number) → Bool
  is_order_confirmed (some (str type)) = type == "OrderConfirmed"
  is_order_confirmed other = false

  -- `String(evt.id ?? key)`
  abbrev pub id_or : Option (Json S.Number) → String → String
  id_or none key = key
  id_or (some null) key = key
  id_or (some (str id)) key = id
  id_or (some other) key = S.json_text other

  abbrev pub payload_of : Json S.Number → Json S.Number
  payload_of event = or_default (member "payload" event) (obj end)

  abbrev pub new_inbox : String → ℕ → String → Json S.Number → InboxRow
  new_inbox id time source_event_id payload = record {
    id = id;
    source_event_id = source_event_id;
    type = "OrderConfirmed";
    payload = payload;
    status = pending;
    attempts = 0;
    available_at = time;
    last_error = none;
    processed_at = none;
  }

  abbrev pub has_source : String → InboxRow → Bool
  has_source source_event_id e = e.source_event_id == source_event_id

  -- `upsert` with an empty update, by the unique `sourceEventId`
  abbrev pub upsert_source : InboxRow → S.inbox.Rows → Result InboxRow × S.inbox.Rows
  upsert_source new t = elim (find_by S.inbox (has_source new.source_event_id) t) [
    | none ↦ create S.inbox new t
    | some old ↦ (ok old, t)
  ]

  unfoldable pub receive : String → Json S.Number → Io S InboxRow
  receive source_event_id payload = do
    id ← new_id S
    time ← now S
    call S (on_inbox S (upsert_source (new_inbox id time source_event_id payload)))

  abbrev pub set_processed : ℕ → InboxRow → InboxRow
  set_processed time e = record e {
    status = processed;
    processed_at = some time;
    last_error = none;
  }

  unfoldable pub mark_processed : InboxRow → Io S (Unit {0})
  mark_processed e = do
    time ← now S
    call S (on_inbox S (update S.inbox e.id (set_processed time)))
    pure tt

  unfoldable pub consume_event : String → Json S.Number → Io S (Unit {0})
  unfolding receive mark_processed
  consume_event source_event_id payload = do
    inbox ← receive source_event_id payload
    process_payload S (member "orderId" payload)
    mark_processed inbox

  unfoldable pub consume_json : String → Option (Json S.Number) → Io S (Unit {0})
  unfolding consume_event
  consume_json key none = raise syntax_error
  consume_json key (some event) =
      if is_order_confirmed (member "type" event)
      then consume_event (id_or (member "id" event) key) (payload_of event)
      else pure tt

  -- `eachMessage`: what is thrown is logged, so that the partition goes on.
  unfoldable pub each_message : Delivery → Io S (Unit {0})
  unfolding consume_json
  each_message message =
      catch (consume_json (text_or message.key "unknown") (S.parse (text_or message.value "")))
        (λ e. pure tt)
