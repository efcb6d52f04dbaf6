-- ===== src/Merchants/Rules.antt =====
-- The rule of a merchant after it has been set.
use shopback_cashback_ledger.Prelude.{
  suc, String, Option, none, some, ◌≡◌, refl, inl, inr, Bool-cases, Option-cases, text_comparable,
}
use shopback_cashback_ledger.Schema.{CacheEntry}
use shopback_cashback_ledger.Errors.{Fault, success, lost}
use shopback_cashback_ledger.Effect.{ok, catch, ◌>>=◌}
use shopback_cashback_ledger.Services.{Services}
use shopback_cashback_ledger.World.{World}
use shopback_cashback_ledger.Calls.{call, redis_del, cached, store}
use shopback_cashback_ledger.Queries.{upsert, upsert_new, upsert_found, find_written}
use shopback_cashback_ledger.Domain.{RuleRow}
use shopback_cashback_ledger.RuleCache.{cache_key}
use shopback_cashback_ledger.RuleService.{invalidate}
use shopback_cashback_ledger.Merchants.{
  UpsertCashbackRuleDto, cap_value, new_rule, set_rule, rule_json, upsert_rule,
}

module _ (S : Services) where
  -- Whether the merchant has a rule or not, the row that is written is the new one.
  upsert-new_rule :
      (merchant_id : String) (rate : S.Decimal) (limit : Option S.Decimal) (t : S.rules.Rows)
      → upsert S.rules merchant_id (set_rule S rate limit) (new_rule S merchant_id rate limit) t ≡ (
        ok (new_rule S merchant_id rate limit),
        S.rules.write (new_rule S merchant_id rate limit) t,
      )
  upsert-new_rule merchant_id rate limit t =
      let change = set_rule S rate limit in
      let new = new_rule S merchant_id rate limit in
      elim (Option-cases (S.rules.find merchant_id t)) [
        | inl absent ↦ upsert_new S.rules merchant_id change new t absent
        | inr (old, found) ↦
            rw
              (
                upsert_found S.rules merchant_id change new t found,
                S.rules.find-key merchant_id old t found,
              )
              refl
      ]

  uncached : (key : String) (w : World S) → cached S key (store S key none w) ≡ none
  uncached key w =
      let e : CacheEntry = record { key = key; value = none } in
      elim (Bool-cases (S.expired w.calls key)) [
        | inl gone ↦ rw gone refl
        | inr kept ↦ rw (kept, find_written S.cache e w.cache) refl
      ]

  -- The world when the rule is stored and Redis has been asked to forget the old one.
  abbrev pub with_rule : World S → RuleRow S → World S
  with_rule w rule = record w {
    db = record w.db { rules = S.rules.write rule w.db.rules };
    calls = suc (suc w.calls);
  }

  module _ (merchant_id : String) (dto : UpsertCashbackRuleDto S) (w : World S)
      {limit : Option S.Decimal} (valid : cap_value S dto.cap ≡ some limit)
      (first : S.outcome w.calls ≡ success) where
    abbrev pub rule : RuleRow S
    rule = new_rule S merchant_id (S.decimal_of_number dto.rate) limit

    forgotten :
        S.outcome (suc w.calls) ≡ success
        → upsert_rule S merchant_id dto w
          ≡ (ok (rule_json S rule), store S (cache_key merchant_id) none (with_rule w rule))
    unfolding upsert_rule invalidate call redis_del catch ◌>>=◌
    forgotten second =
        rw
          (
            valid,
            first,
            upsert-new_rule merchant_id (S.decimal_of_number dto.rate) limit w.db.rules,
            second,
          )
          refl

    -- If the cap is no `null` and both calls succeed, the answer is the new rule, the table then
    -- holds it for the merchant, and the cache has no value for the merchant.
    pub upsert_rule-fresh :
        S.outcome (suc w.calls) ≡ success
        → let (r, w') = upsert_rule S merchant_id dto w in
          (r ≡ ok (rule_json S rule))
          × (S.rules.find merchant_id w'.db.rules ≡ some rule)
          × (cached S (cache_key merchant_id) w' ≡ none)
    upsert_rule-fresh second = rw (forgotten second) (
      refl,
      find_written S.rules rule w.db.rules,
      uncached (cache_key merchant_id) (with_rule w rule),
    )

    -- If the cap is no `null`, the rule is stored and the deletion from the cache is lost, the
    -- answer is the new rule all the same, and nothing but the table of rules has changed: the cache
    -- still holds what it held.
    pub upsert_rule-stale :
        {f : Fault}
        → S.outcome (suc w.calls) ≡ lost f
        → upsert_rule S merchant_id dto w ≡ (ok (rule_json S rule), with_rule w rule)
    unfolding upsert_rule invalidate call redis_del catch ◌>>=◌
    upsert_rule-stale second =
        rw
          (
            valid,
            first,
            upsert-new_rule merchant_id (S.decimal_of_number dto.rate) limit w.db.rules,
            second,
          )
          refl
