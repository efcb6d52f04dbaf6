-- ===== src/Idempotency.antt =====
-- apps/api/src/common/idempotency/idempotency.service.ts
use shopback_cashback_ledger.Prelude.{
  ℕ, ◌+◌, ◌*◌, String, Option, none, some, text_append, ltb, if◌then◌else◌,
}
use shopback_cashback_ledger.Json.{Json, null}
use shopback_cashback_ledger.Schema.{IdempotencyKey}
use shopback_cashback_ledger.Effect.{◌>>=◌}
use shopback_cashback_ledger.Services.{Services}
use shopback_cashback_ledger.World.{Io}
use shopback_cashback_ledger.Calls.{call, now}
use shopback_cashback_ledger.Queries.{find_unique, upsert, on_keys}

module _ (S : Services) where
  abbrev pub KeyRow : Type 0
  KeyRow = IdempotencyKey S.Number

  -- `body ?? null`
  abbrev pub body_json : Option (Json S.Number) → Json S.Number
  body_json none = null
  body_json (some body) = body

  -- `h.update(...)` five times, then `h.digest('hex')`
  unfoldable pub hash_request : String → String → Option (Json S.Number) → String
  hash_request method path body = S.sha256 (
      text_append (S.to_upper_case method)
        (text_append "|" (text_append path (text_append "|" (S.stringify (body_json body))))))

  unfoldable pub get_cached_response : String → String → Io S (Option KeyRow)
  get_cached_response key scope = call S (on_keys S (find_unique S.keys (key, scope)))

  -- `args.ttlSeconds && args.ttlSeconds > 0 ? new Date(...) : null`
  abbrev pub expiry : ℕ → Option ℕ → Option ℕ
  expiry time none = none
  expiry time (some ttl) = if ltb 0 ttl then some (time + ttl * 1000) else none

  abbrev pub key_row : String → String → String → Json S.Number → Option ℕ → KeyRow
  key_row key scope request_hash response_body expires_at = record {
    key = key;
    scope = scope;
    request_hash = request_hash;
    response_body = response_body;
    expires_at = expires_at;
  }

  abbrev pub refresh : String → Json S.Number → Option ℕ → KeyRow → KeyRow
  refresh request_hash response_body expires_at row = record row {
    request_hash = request_hash;
    response_body = response_body;
    expires_at = expires_at;
  }

  unfoldable pub save_response : String → String → String → Json S.Number → Option ℕ → Io S KeyRow
  save_response key scope request_hash response_body ttl_seconds = do
    time ← now S
    call S (
        on_keys S (
          upsert S.keys (key, scope) (refresh request_hash response_body (expiry time ttl_seconds))
            (key_row key scope request_hash response_body (expiry time ttl_seconds))))
