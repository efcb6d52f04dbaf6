-- ===== src/RuleCache.antt =====
-- apps/worker/src/cache/cashback-rule-cache.ts: the worker's read-through cache of cashback rules in
-- Redis (`getCashbackRule`, which reads by the statement of a transaction and counts hits and
-- misses).
pub mod Quiet
pub mod Snapshots
pub mod Fallback
pub mod Coherent
pub mod Agreed
pub mod Answered
use shopback_cashback_ledger.Prelude.{
  suc, String, Bool, true, false, Option, none, some, text_append, ◌==◌, text_comparable,
  if◌then◌else◌,
}
use shopback_cashback_ledger.Json.{Json, null, str, obj, field, end, member}
use shopback_cashback_ledger.Errors.{invalid_decimal}
use shopback_cashback_ledger.Effect.{pure, raise, catch, finally, ◌>>=◌, ◌>>◌}
use shopback_cashback_ledger.Services.{Services}
use shopback_cashback_ledger.World.{Metrics, Io}
use shopback_cashback_ledger.Calls.{
  statement, count, redis_get, redis_set, redis_set_nx, redis_del, wait,
}
use shopback_cashback_ledger.Queries.{find_unique, on_rules}
use shopback_cashback_ledger.Domain.{RuleRow, rate_of, cap_of}

-- `CachedCashbackRule`
pub record Snapshot : Type 0 where
  pub rate : String
  pub cap : Option String

pub record DecimalRule (S : Services) : Type 0 where
  pub rate : S.Decimal
  pub cap : Option S.Decimal

abbrev pub cache_key : String → String
cache_key merchant_id = text_append "cashback_rule:" merchant_id

abbrev pub lock_key : String → String
lock_key merchant_id = text_append (cache_key merchant_id) ":lock"

abbrev pub count_hit : Metrics → Metrics
count_hit m = record m { cache_hits = suc m.cache_hits }

abbrev pub count_miss : Metrics → Metrics
count_miss m = record m { cache_misses = suc m.cache_misses }

module _ (S : Services) where
  -- `new Prisma.Decimal(text)`, which throws for a text that is no decimal
  abbrev pub or_invalid : String → Option S.Decimal → Io S S.Decimal
  or_invalid text none = raise (invalid_decimal text)
  or_invalid text (some d) = pure d

  unfoldable pub read_decimal : String → Io S S.Decimal
  read_decimal text = or_invalid text (S.decimal_of_text text)

  -- `rule.cap ? new Prisma.Decimal(rule.cap) : null`: the empty text is no cap
  unfoldable pub decimal_cap : Option String → Io S (Option S.Decimal)
  unfolding read_decimal
  decimal_cap none = pure none
  decimal_cap (some text) =
      if text == "" then pure none else (do limit ← read_decimal text; pure (some limit))

  unfoldable pub to_decimal_rule : Snapshot → Io S (DecimalRule S)
  unfolding read_decimal decimal_cap
  to_decimal_rule rule = do
    rate ← read_decimal rule.rate
    limit ← decimal_cap rule.cap
    pure (record { rate = rate; cap = limit })

  abbrev pub cap_json : Option String → Json S.Number
  cap_json none = null
  cap_json (some text) = str text

  abbrev pub snapshot_json : Snapshot → Json S.Number
  snapshot_json rule = obj (field "rate" (str rule.rate) (field "cap" (cap_json rule.cap) end))

  abbrev pub with_cap : String → Option (Json S.Number) → Option Snapshot
  with_cap rate none = some (record { rate = rate; cap = none })
  with_cap rate (some null) = some (record { rate = rate; cap = none })
  with_cap rate (some (str text)) = some (record { rate = rate; cap = some text })
  with_cap rate (some other) = none

  abbrev pub with_rate : Option (Json S.Number) → Option (Json S.Number) → Option Snapshot
  with_rate (some (str rate)) limit = with_cap rate limit
  with_rate other limit = none

  -- `parseCached`; what `JSON.parse` throws is caught there
  abbrev pub decode : Option (Json S.Number) → Option Snapshot
  decode none = none
  decode (some json) = with_rate (member "rate" json) (member "cap" json)

  unfoldable pub parse_cached : String → Option Snapshot
  parse_cached raw = decode (S.parse raw)

  abbrev pub parse_value : Option String → Option Snapshot
  parse_value none = none
  parse_value (some raw) = if raw == "" then none else parse_cached raw

  -- What Redis fails with is logged, and taken for an answer without effect.
  unfoldable pub read_cache : String → Io S (Option Snapshot)
  unfolding parse_cached
  read_cache key = catch (do raw ← redis_get S key; pure (parse_value raw)) (λ e. pure none)

  unfoldable pub write_cache : String → Snapshot → Io S (Unit {0})
  write_cache key rule = catch (redis_set S key (S.stringify (snapshot_json rule))) (λ e. pure tt)

  unfoldable pub acquire_lock : String → Io S Bool
  acquire_lock key = catch (redis_set_nx S key "1") (λ e. pure false)

  unfoldable pub release_lock : String → Io S (Unit {0})
  release_lock key = catch (redis_del S key) (λ e. pure tt)

  unfoldable pub release_if : Bool → String → Io S (Unit {0})
  unfolding release_lock
  release_if true key = release_lock key
  release_if false key = pure tt

  abbrev pub text_of_cap : Option S.Decimal → Option String
  text_of_cap none = none
  text_of_cap (some limit) = some (S.decimal_to_text limit)

  -- The `payload` built from the row of the database.
  abbrev pub snapshot_of : Option (RuleRow S) → Snapshot
  snapshot_of rule = record {
    rate = S.decimal_to_text (rate_of S rule);
    cap = text_of_cap (cap_of S rule);
  }

  -- After `setTimeout(lockWaitMs)` the cache is read again, if another holds the lock.
  unfoldable pub read_again : Bool → String → Io S (Option Snapshot)
  unfolding read_cache
  read_again true key = pure none
  read_again false key = do wait S; read_cache key

  -- `getCashbackRule`
  unfoldable pub hit : Option Snapshot → Io S (DecimalRule S) → Io S (DecimalRule S)
  unfolding to_decimal_rule
  hit none rest = rest
  hit (some rule) rest = do count S count_hit; to_decimal_rule rule

  unfoldable pub load_rule : String → Io S (DecimalRule S)
  unfolding write_cache to_decimal_rule
  load_rule merchant_id = do
    rule ← statement S (on_rules S (find_unique S.rules merchant_id))
    write_cache (cache_key merchant_id) (snapshot_of rule)
    to_decimal_rule (snapshot_of rule)

  unfoldable pub fill : Bool → String → Io S (DecimalRule S)
  unfolding read_again hit load_rule
  fill got_lock merchant_id = do
    retried ← read_again got_lock (cache_key merchant_id)
    hit retried (load_rule merchant_id)

  unfoldable pub get_cashback_rule : String → Io S (DecimalRule S)
  unfolding read_cache acquire_lock hit fill release_if
  get_cashback_rule merchant_id = do
    cached ← read_cache (cache_key merchant_id)
    hit cached (do
      count S count_miss
      got_lock ← acquire_lock (lock_key merchant_id)
      finally (fill got_lock merchant_id) (release_if got_lock (lock_key merchant_id)))
