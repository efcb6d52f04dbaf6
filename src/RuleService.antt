-- ===== src/RuleService.antt =====
-- apps/api/src/merchants/cashback-rule.service.ts: the API's own read-through cache of cashback rules,
-- `getRule` and `invalidate`, with private functions of its own over the keys that the worker uses. A
-- `CashbackRuleSnapshot` has the members of the worker's `CachedCashbackRule`.
pub mod Agreed
use shopback_cashback_ledger.Prelude.{
  String, Bool, true, false, Option, none, some, text_append, ◌==◌, text_comparable, if◌then◌else◌,
}
use shopback_cashback_ledger.Json.{Json, null, str, obj, field, end, member}
use shopback_cashback_ledger.Effect.{pure, catch, finally, or_else, ◌>>=◌, ◌>>◌}
use shopback_cashback_ledger.Services.{Services}
use shopback_cashback_ledger.World.{Io}
use shopback_cashback_ledger.Calls.{call, redis_get, redis_set, redis_set_nx, redis_del, wait}
use shopback_cashback_ledger.Queries.{find_unique, on_rules}
use shopback_cashback_ledger.Domain.{RuleRow, default_rate}
use shopback_cashback_ledger.RuleCache.{Snapshot}

abbrev pub key : String → String
key merchant_id = text_append "cashback_rule:" merchant_id

abbrev pub lock_key : String → String
lock_key cache_key = text_append cache_key ":lock"

module _ (S : Services) where
  -- `typeof v === 'string'`
  abbrev pub is_text : Option (Json S.Number) → Bool
  is_text (some (str text)) = true
  is_text other = false

  -- `v !== null && typeof v !== 'string' && v !== undefined`
  abbrev pub is_bad_cap : Option (Json S.Number) → Bool
  is_bad_cap none = false
  is_bad_cap (some null) = false
  is_bad_cap (some (str text)) = false
  is_bad_cap (some other) = true

  -- What is left of a value that is a string, or of one that may be a string.
  abbrev pub as_text : Option (Json S.Number) → String
  as_text (some (str text)) = text
  as_text other = ""

  abbrev pub cap_or_null : Option (Json S.Number) → Option String
  cap_or_null (some (str text)) = some text
  cap_or_null other = none

  abbrev pub checked : Option (Json S.Number) → Option (Json S.Number) → Option Snapshot
  checked rate limit =
      if is_text rate
      then if is_bad_cap limit
        then none
        else some (record { rate = as_text rate; cap = cap_or_null limit })
      else none

  -- `parseCached`, where what `JSON.parse` throws is caught. A member of `null` throws too.
  abbrev pub parse_object : Option (Json S.Number) → Option Snapshot
  parse_object none = none
  parse_object (some json) = checked (member "rate" json) (member "cap" json)

  unfoldable pub parse_cached : String → Option Snapshot
  parse_cached raw = parse_object (S.parse raw)

  abbrev pub parse_if_any : Option String → Option Snapshot
  parse_if_any none = none
  parse_if_any (some raw) = if raw == "" then none else parse_cached raw

  unfoldable pub read_cache : String → Io S (Option Snapshot)
  unfolding parse_cached
  read_cache cache_key =
      catch (do raw ← redis_get S cache_key; pure (parse_if_any raw)) (λ error. pure none)

  abbrev pub text_json : Option String → Json S.Number
  text_json none = null
  text_json (some text) = str text

  abbrev pub payload_json : Snapshot → Json S.Number
  payload_json payload =
      obj (field "rate" (str payload.rate) (field "cap" (text_json payload.cap) end))

  unfoldable pub write_cache : String → Snapshot → Io S (Unit {0})
  write_cache cache_key payload =
      catch (redis_set S cache_key (S.stringify (payload_json payload))) (λ error. pure tt)

  unfoldable pub acquire_lock : String → Io S Bool
  acquire_lock lock = catch (redis_set_nx S lock "1") (λ error. pure false)

  unfoldable pub release_lock : String → Io S (Unit {0})
  release_lock lock = catch (redis_del S lock) (λ error. pure tt)

  unfoldable pub invalidate : String → Io S (Unit {0})
  invalidate merchant_id = catch (redis_del S (key merchant_id)) (λ error. pure tt)

  -- `(fromDb?.rate ?? new Prisma.Decimal('0.05')).toString()`
  abbrev pub rate_text : Option (RuleRow S) → String
  rate_text none = S.decimal_to_text (default_rate S)
  rate_text (some from_db) = S.decimal_to_text from_db.rate

  -- `fromDb?.cap ? fromDb.cap.toString() : null`
  abbrev pub text_or_null : Option S.Decimal → Option String
  text_or_null none = none
  text_or_null (some limit) = some (S.decimal_to_text limit)

  abbrev pub cap_text : Option (RuleRow S) → Option String
  cap_text none = none
  cap_text (some from_db) = text_or_null from_db.cap

  abbrev pub payload_of : Option (RuleRow S) → Snapshot
  payload_of from_db = record { rate = rate_text from_db; cap = cap_text from_db }

  unfoldable pub load_payload : String → Io S Snapshot
  unfolding write_cache
  load_payload merchant_id = do
    from_db ← call S (on_rules S (find_unique S.rules merchant_id))
    write_cache (key merchant_id) (payload_of from_db)
    pure (payload_of from_db)

  -- `if (!gotLock)`: the cache is read again after a time.
  unfoldable pub read_again : Bool → String → Io S (Option Snapshot)
  unfolding read_cache
  read_again true cache_key = pure none
  read_again false cache_key = do wait S; read_cache cache_key

  unfoldable pub fill : Bool → String → Io S Snapshot
  unfolding read_again load_payload
  fill got_lock merchant_id = do
    retried ← read_again got_lock (key merchant_id)
    or_else retried (load_payload merchant_id)

  -- `finally { if (gotLock) ... }`
  unfoldable pub release_if : Bool → String → Io S (Unit {0})
  unfolding release_lock
  release_if true lock = release_lock lock
  release_if false lock = pure tt

  unfoldable pub get_rule : String → Io S Snapshot
  unfolding read_cache acquire_lock fill release_if
  get_rule merchant_id = do
    cached ← read_cache (key merchant_id)
    or_else cached (do
      got_lock ← acquire_lock (lock_key (key merchant_id))
      finally (fill got_lock merchant_id) (release_if got_lock (lock_key (key merchant_id))))
