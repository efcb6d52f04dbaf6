-- ===== src/RuleService/Agreed.antt =====
-- The API's cache of rules against the worker's: they read and write the same entries, and the API's
-- rule is that of the tables when the entries are.
use mathlib.Core.Path.{fun_ext}
use shopback_cashback_ledger.Prelude.{
  ℕ, String, Bool, true, false, Option, none, some, ◌≡◌, refl, ap, ◌∙◌, inl, inr, text_comparable,
}
use shopback_cashback_ledger.Json.{Json, null, bool, num, str, arr, obj, field, end, member}
use shopback_cashback_ledger.Effect.{pure, catch, ◌>>=◌, or_else}
use shopback_cashback_ledger.Services.{Services}
use shopback_cashback_ledger.World.{Db, World, Io}
use shopback_cashback_ledger.Calls.{redis_get}
use shopback_cashback_ledger.Calls.Ensures.{
  Ensures, Anything, Ensures-pure, Ensures-finally, Ensures-bind,
}
use shopback_cashback_ledger.Domain.{RuleRow}
use shopback_cashback_ledger.RuleCache
use shopback_cashback_ledger.RuleCache.{
  Snapshot, with_rate, snapshot_json, snapshot_of, text_of_cap, cap_json,
}
use shopback_cashback_ledger.RuleCache.Coherent.{Found, IsCoherent, read_cache-Found}
use shopback_cashback_ledger.RuleCache.Agreed.{
  Good, write_cache-Anything, acquire_lock-Anything, release_if-Anything, wait-Anything,
  found_rule-IsRead,
}
use shopback_cashback_ledger.RuleService.{
  key, lock_key, checked, parse_object, parse_cached, parse_if_any, read_cache, payload_json,
  write_cache, acquire_lock, release_lock, payload_of, load_payload, read_again, fill, release_if,
  get_rule, text_or_null, text_json,
}

module _ (S : Services) where
  checked-with_rate :
      (rate limit : Option (Json S.Number)) → checked S rate limit ≡ with_rate S rate limit
  checked-with_rate (some (str rate)) none = refl
  checked-with_rate (some (str rate)) (some null) = refl
  checked-with_rate (some (str rate)) (some (str text)) = refl
  checked-with_rate (some (str rate)) (some (bool b)) = refl
  checked-with_rate (some (str rate)) (some (num n)) = refl
  checked-with_rate (some (str rate)) (some (arr items)) = refl
  checked-with_rate (some (str rate)) (some (obj fields)) = refl
  checked-with_rate none limit = refl
  checked-with_rate (some null) limit = refl
  checked-with_rate (some (bool b)) limit = refl
  checked-with_rate (some (num n)) limit = refl
  checked-with_rate (some (arr items)) limit = refl
  checked-with_rate (some (obj fields)) limit = refl

  parse_object-decode :
      (json : Option (Json S.Number)) → parse_object S json ≡ RuleCache.decode S json
  parse_object-decode none = refl
  parse_object-decode (some json) = checked-with_rate (member "rate" json) (member "cap" json)

  parse_if_any-parse_value :
      (raw : Option String) → parse_if_any S raw ≡ RuleCache.parse_value S raw
  unfolding parse_cached RuleCache.parse_cached
  parse_if_any-parse_value none = refl
  parse_if_any-parse_value (some raw) = rw (parse_object-decode (S.parse raw)) refl

  read_cache-as_worker : (k : String) → read_cache S k ≡ RuleCache.read_cache S k
  unfolding read_cache RuleCache.read_cache
  read_cache-as_worker k =
      ap
        (λ (f : Option String → Option Snapshot).
          catch (redis_get S k >>= (λ raw. pure (f raw))) (λ e. pure none))
        (fun_ext parse_if_any-parse_value)

  text_or_null-text_of_cap : (limit : Option S.Decimal) → text_or_null S limit ≡ text_of_cap S limit
  text_or_null-text_of_cap none = refl
  text_or_null-text_of_cap (some limit) = refl

  payload_of-snapshot_of : (o : Option (RuleRow S)) → payload_of S o ≡ snapshot_of S o
  payload_of-snapshot_of none = refl
  payload_of-snapshot_of (some r) = rw (text_or_null-text_of_cap r.cap) refl

  payload_json-snapshot_json : (s : Snapshot) → payload_json S s ≡ snapshot_json S s
  payload_json-snapshot_json s =
      ap (λ (j : Json S.Number). obj (field "rate" (str s.rate) (field "cap" j end))) (by_cap s.cap)
    where
      by_cap : (c : Option String) → text_json S c ≡ cap_json S c
      by_cap none = refl
      by_cap (some text) = refl

  write_cache-as_worker :
      (k : String) (s : Snapshot) → write_cache S k s ≡ RuleCache.write_cache S k s
  unfolding write_cache RuleCache.write_cache
  write_cache-as_worker k s = rw (payload_json-snapshot_json s) refl

  -- For every key and every row of a rule, the API reads the entry of the cache as the worker does,
  -- and writes for the row what the worker writes.
  pub same_entries :
      (k : String) (rule : Option (RuleRow S))
      → (read_cache S k ≡ RuleCache.read_cache S k)
        × (write_cache S k (payload_of S rule) ≡ RuleCache.write_cache S k (snapshot_of S rule))
  same_entries k rule = (
    read_cache-as_worker k,
    write_cache-as_worker k (payload_of S rule)
        ∙ ap (RuleCache.write_cache S k) (payload_of-snapshot_of rule),
  )

module _ (S : Services) (d : Db S) (merchant_id : String) where
  abbrev rule : Option (RuleRow S)
  rule = S.rules.find merchant_id d.rules

  abbrev Fits : Option Snapshot → Type 0
  Fits = Found S d merchant_id

  -- The texts of the rate and of the cap that the tables hold for the merchant.
  abbrev pub IsPayload : Snapshot → Type 0
  IsPayload s = s ≡ snapshot_of S rule

  module _
      (reads : S.parse (S.stringify (snapshot_json S (snapshot_of S rule)))
        ≡ some (snapshot_json S (snapshot_of S rule)))
      (others : (n : ℕ) (c : S.cache.Rows)
        → IsCoherent S d merchant_id c
        → IsCoherent S d merchant_id (S.meanwhile n c)) where
    abbrev I : World S → Type 0
    I = Good S d merchant_id

    read_cache-Fits : Ensures I Fits (read_cache S (key merchant_id))
    read_cache-Fits =
        rw (read_cache-as_worker S (key merchant_id)) (read_cache-Found S d merchant_id)

    or_else-IsPayload :
        (o : Option Snapshot) (rest : Io S Snapshot)
        → Fits o
        → Ensures I IsPayload rest
        → Ensures I IsPayload (or_else o rest)
    unfolding or_else
    or_else-IsPayload none rest f k = k
    or_else-IsPayload (some s) rest (inl absent) k = absurd (cc absent)
    or_else-IsPayload (some s) rest (inr same) k = Ensures-pure I IsPayload s (cc same)

    load_payload-IsPayload : Ensures I IsPayload (load_payload S merchant_id)
    unfolding load_payload
    load_payload-IsPayload =
        Ensures-bind I (λ (o : Option (RuleRow S)). o ≡ rule) IsPayload _ _
          (found_rule-IsRead S d merchant_id reads others)
          (λ o same.
            rw (same, (same_entries S (key merchant_id) rule).1, payload_of-snapshot_of S rule)
              (Ensures-bind I (Anything I) IsPayload _ _
                (write_cache-Anything S d merchant_id reads others)
                (λ done any. Ensures-pure I IsPayload (snapshot_of S rule) refl)))

    read_again-Fits : (got : Bool) → Ensures I Fits (read_again S got (key merchant_id))
    unfolding read_again
    read_again-Fits true = Ensures-pure I Fits none (inl refl)
    read_again-Fits false =
        Ensures-bind I (Anything I) Fits _ _ (wait-Anything S d merchant_id reads others)
          (λ done any. read_cache-Fits)

    fill-IsPayload : (got : Bool) → Ensures I IsPayload (fill S got merchant_id)
    unfolding fill
    fill-IsPayload got =
        Ensures-bind I Fits IsPayload _ _ (read_again-Fits got)
          (λ o f. or_else-IsPayload o _ f load_payload-IsPayload)

    lock-Anything : Ensures I (Anything I) (acquire_lock S (lock_key (key merchant_id)))
    unfolding acquire_lock RuleCache.acquire_lock
    lock-Anything = acquire_lock-Anything S d merchant_id reads others

    unlock-Anything :
        (got : Bool) → Ensures I (Anything I) (release_if S got (lock_key (key merchant_id)))
    unfolding release_if release_lock RuleCache.release_if RuleCache.release_lock
    unlock-Anything true = release_if-Anything S d merchant_id reads others true
    unlock-Anything false = release_if-Anything S d merchant_id reads others false

    -- If `JSON.parse` reads back the text of the merchant's rule, other processes keep the cache
    -- coherent, and the cache is coherent, then an answer of `getRule` has the texts of the rate and
    -- of the cap that the tables hold for the merchant, or of the default, and the cache is still
    -- coherent, whatever calls fail.
    pub get_rule-IsPayload : Ensures I IsPayload (get_rule S merchant_id)
    unfolding get_rule
    get_rule-IsPayload = Ensures-bind I Fits IsPayload _ _ read_cache-Fits (λ o f.
        or_else-IsPayload o _ f (
          Ensures-bind I (Anything I) IsPayload _ _ lock-Anything (λ got any.
            Ensures-finally I IsPayload _ _ (fill-IsPayload got) (unlock-Anything got))))
