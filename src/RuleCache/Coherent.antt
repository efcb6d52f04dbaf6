-- ===== src/RuleCache/Coherent.antt =====
-- A cache that agrees with the tables about the rule of a merchant, and what keeps it so.
use text.Mathlib.TextLemmas.{append_cancel_left, append-nil, cons≢nil}
use shopback_cashback_ledger.Prelude.{
  String, Bool, true, false, Option, none, some, ◌≡◌, ◌≢◌, refl, sym, ◌∙◌, ◌⊎◌, inl, inr,
  Bool-cases, ◌==◌, text_comparable, eq_iff, if◌then◌else◌,
}
use shopback_cashback_ledger.Schema.{CacheEntry}
use shopback_cashback_ledger.Services.{Services}
use shopback_cashback_ledger.World.{Db, World}
use shopback_cashback_ledger.Calls.{cached, store, redis_get, tick}
use shopback_cashback_ledger.Calls.Ensures.{
  Ensures, Ensures-pure, Ensures-catch, Ensures-perform, Ensures-bind,
}
use shopback_cashback_ledger.Domain.{RuleRow}
use shopback_cashback_ledger.RuleCache.{
  Snapshot, cache_key, lock_key, snapshot_of, parse_value, read_cache,
}

module _ (S : Services) (d : Db S) (merchant_id : String) where
  abbrev pub rule : Option (RuleRow S)
  rule = S.rules.find merchant_id d.rules

  -- A value that the cache may hold: one that is read as no rule, or as that of the tables.
  abbrev pub Found : Option Snapshot → Type 0
  Found o = (o ≡ none) ⊎ (o ≡ some (snapshot_of S rule))

  abbrev pub IsCoherent : S.cache.Rows → Type 0
  IsCoherent c =
      (e : CacheEntry)
      → S.cache.find (cache_key merchant_id) c ≡ some e
      → Found (parse_value S e.value)

  -- The tables are `d`, and the cache agrees with them.
  pub record IsGood (w : World S) : Type 0 where
    pub tables : w.db ≡ d
    pub coherent : IsCoherent w.cache

  IsCoherent-store :
      (e : CacheEntry) (c : S.cache.Rows)
      → (e.key ≡ cache_key merchant_id → Found (parse_value S e.value))
      → IsCoherent c
      → IsCoherent (S.cache.write e c)
  IsCoherent-store e c fits h x f = elim (Bool-cases (e.key == cache_key merchant_id)) [
    | inl same ↦
        let new : e ≡ x = cc (rw (S.cache.find-write (cache_key merchant_id) e c, same) at f) in
        rw (← new) (fits ((eq_iff e.key (cache_key merchant_id)).0 same))
    | inr other ↦ h x (rw (S.cache.find-write (cache_key merchant_id) e c, other) at f)
  ]

  pub IsGood-tick : (w : World S) → IsGood w → IsGood (tick S w)
  IsGood-tick w h = record { tables = h.tables; coherent = h.coherent }

  pub IsGood-store :
      (k : String) (v : Option String) (w : World S)
      → (k ≡ cache_key merchant_id → Found (parse_value S v))
      → IsGood w
      → IsGood (store S k v w)
  IsGood-store k v w fits h = record {
    tables = h.tables;
    coherent = IsCoherent-store (record { key = k; value = v }) w.cache fits h.coherent;
  }

  -- The lock is no key of a rule.
  pub lock-apart : lock_key merchant_id ≢ cache_key merchant_id
  lock-apart e = cons≢nil (
      append_cancel_left (cache_key merchant_id) ":lock" ""
        (e ∙ sym (append-nil (cache_key merchant_id))))

  cached-Found :
      (w : World S) → IsGood w → Found (parse_value S (cached S (cache_key merchant_id) w))
  cached-Found w h =
      by_expired (S.expired w.calls (cache_key merchant_id))
        (S.cache.find (cache_key merchant_id) w.cache) refl
    where
      by_expired :
          (b : Bool) (o : Option CacheEntry)
          → S.cache.find (cache_key merchant_id) w.cache ≡ o
          → Found (
              parse_value S (
                if b
                then none
                else (elim o as (λ x. Option String) [ none ↦ none | some e ↦ e.value ])))
      by_expired true o f = inl refl
      by_expired false none f = inl refl
      by_expired false (some e) f = h.coherent e f

  pub read_cache-Found : Ensures IsGood Found (read_cache S (cache_key merchant_id))
  unfolding read_cache redis_get
  read_cache-Found =
      Ensures-catch IsGood Found _ _
        (Ensures-bind IsGood (λ (raw : Option String). Found (parse_value S raw)) Found _ _
          (Ensures-perform IsGood (λ (raw : Option String). Found (parse_value S raw)) _ IsGood-tick
            (record { at = λ w h. (cached-Found w h, h) }))
          (λ raw f. Ensures-pure IsGood Found _ f))
        (λ e. Ensures-pure IsGood Found none (inl refl))
