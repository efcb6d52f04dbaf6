-- ===== src/RuleCache/Agreed.antt =====
-- The worker's `getCashbackRule` when what the cache holds for a merchant was written from the rule
-- that the tables hold.
use shopback_cashback_ledger.Prelude.{
  ℕ, String, Bool, true, false, Option, none, some, ◌≡◌, refl, ap, inl, inr, Bool-cases, ◌==◌,
  text_comparable,
}
use shopback_cashback_ledger.Effect.{Result, ok, err}
use shopback_cashback_ledger.Services.{Services}
use shopback_cashback_ledger.World.{Db, World, Metrics, Io}
use shopback_cashback_ledger.Calls.{
  call, statement, unless_aborted, note_failure, count, cached, set_if_free, redis_set,
  redis_set_nx, redis_del, wait,
}
use shopback_cashback_ledger.Calls.Ensures.{
  Ends, Ensures, Anything, Ensures-pure, Ensures-catch, Ensures-finally, Ensures-perform,
  Ensures-bind,
}
use shopback_cashback_ledger.Queries.{find_unique, on_rules}
use shopback_cashback_ledger.Domain.{RuleRow}
use shopback_cashback_ledger.RuleCache.{
  Snapshot, DecimalRule, cache_key, lock_key, snapshot_json, snapshot_of, parse_value, parse_cached,
  write_cache, acquire_lock, release_if, release_lock, read_again, hit, load_rule, fill,
  get_cashback_rule, to_decimal_rule, count_hit, count_miss,
}
use shopback_cashback_ledger.RuleCache.Coherent.{
  Found, IsCoherent, IsGood, IsGood-tick, IsGood-store, lock-apart, read_cache-Found,
}
use shopback_cashback_ledger.RuleCache.Snapshots.{stored_rule, snapshot-rule, decode_snapshot}

module _ (S : Services) (d : Db S) (merchant_id : String) where
  abbrev rule : Option (RuleRow S)
  rule = S.rules.find merchant_id d.rules

  abbrev pub Good : World S → Type 0
  Good = IsGood S d merchant_id

  abbrev Fits : Option Snapshot → Type 0
  Fits = Found S d merchant_id

  abbrev Coherent : S.cache.Rows → Type 0
  Coherent = IsCoherent S d merchant_id

  abbrev pub IsStored : DecimalRule S → Type 0
  IsStored r = r ≡ stored_rule S d merchant_id

  pub count-Anything : (f : Metrics → Metrics) → Ensures Good (Anything Good) (count S f)
  unfolding count
  count-Anything f = record {
    at = λ w h. (tt, record { tables = h.tables; coherent = h.coherent });
  }

  -- `JSON.parse` reads back the text of the rule, and other processes keep the cache coherent.
  module _
      (reads : S.parse (S.stringify (snapshot_json S (snapshot_of S rule)))
        ≡ some (snapshot_json S (snapshot_of S rule)))
      (others : (n : ℕ) (c : S.cache.Rows) → Coherent c → Coherent (S.meanwhile n c)) where
    written-Found : Fits (parse_value S (some (S.stringify (snapshot_json S (snapshot_of S rule)))))
    unfolding parse_cached
    written-Found =
        let text = S.stringify (snapshot_json S (snapshot_of S rule)) in
        elim (Bool-cases (text == "")) [
          | inl empty ↦ inl (rw empty refl)
          | inr full ↦ inr (rw (full, reads) (decode_snapshot S (snapshot_of S rule)))
        ]

    pub write_cache-Anything :
        Ensures Good (Anything Good) (write_cache S (cache_key merchant_id) (snapshot_of S rule))
    unfolding write_cache redis_set
    write_cache-Anything =
        Ensures-catch Good (Anything Good) _ _
          (Ensures-perform Good (Anything Good) _ (IsGood-tick S d merchant_id) (record {
            at = λ w h. (
              tt,
              IsGood-store S d merchant_id (cache_key merchant_id) _ w (λ e. written-Found) h,
            );
          }))
          (λ e. Ensures-pure Good (Anything Good) tt tt)

    set_if_free-Good :
        (w : World S) (o : Option String)
        → Good w
        → Ends Good (Anything Good) (set_if_free S (lock_key merchant_id) "1" w o)
    set_if_free-Good w none h = (
      tt,
      IsGood-store S d merchant_id (lock_key merchant_id) (some "1") w
          (λ e. absurd (lock-apart S d merchant_id e)) h,
    )
    set_if_free-Good w (some old) h = (tt, h)

    pub acquire_lock-Anything : Ensures Good (Anything Good) (acquire_lock S (lock_key merchant_id))
    unfolding acquire_lock redis_set_nx
    acquire_lock-Anything =
        Ensures-catch Good (Anything Good) _ _
          (Ensures-perform Good (Anything Good) _ (IsGood-tick S d merchant_id)
            (record { at = λ w h. set_if_free-Good w (cached S (lock_key merchant_id) w) h }))
          (λ e. Ensures-pure Good (Anything Good) false tt)

    pub release_if-Anything :
        (got : Bool) → Ensures Good (Anything Good) (release_if S got (lock_key merchant_id))
    unfolding release_if release_lock redis_del
    release_if-Anything false = Ensures-pure Good (Anything Good) tt tt
    release_if-Anything true =
        Ensures-catch Good (Anything Good) _ _
          (Ensures-perform Good (Anything Good) _ (IsGood-tick S d merchant_id) (record {
            at = λ w h.
                (tt, IsGood-store S d merchant_id (lock_key merchant_id) none w (λ e. inl refl) h);
          }))
          (λ e. Ensures-pure Good (Anything Good) tt tt)

    pub wait-Anything : Ensures Good (Anything Good) (wait S)
    unfolding wait
    wait-Anything = record {
      at = λ w h. (tt, record { tables = h.tables; coherent = others w.calls w.cache h.coherent });
    }

    pub read_again-Found :
        (got : Bool) → Ensures Good Fits (read_again S got (cache_key merchant_id))
    unfolding read_again
    read_again-Found true = Ensures-pure Good Fits none (inl refl)
    read_again-Found false =
        Ensures-bind Good (Anything Good) Fits _ _ wait-Anything
          (λ done any. read_cache-Found S d merchant_id)

    -- The statement that reads the rule of the tables.
    abbrev pub IsRead : Option (RuleRow S) → Type 0
    IsRead o = o ≡ rule

    noted :
        (x : Result (Option (RuleRow S)) × World S)
        → Ends Good IsRead x
        → Ends Good IsRead (x.0, note_failure S x.0 x.1)
    unfolding note_failure
    noted (ok o, w) h = h
    noted (err e, w) h = record { tables = h.tables; coherent = h.coherent }

    pub found_rule-IsRead :
        Ensures Good IsRead (call S (on_rules S (find_unique S.rules merchant_id)))
    unfolding call
    found_rule-IsRead = Ensures-perform Good IsRead _ (IsGood-tick S d merchant_id) (record {
      at = λ w h. (
        ap (λ (t : Db S). S.rules.find merchant_id t.rules) h.tables,
        record { tables = h.tables; coherent = h.coherent },
      );
    })

    pub statement-IsRead :
        Ensures Good IsRead (statement S (on_rules S (find_unique S.rules merchant_id)))
    unfolding statement
    statement-IsRead = record { at = λ w h. by_aborted w.aborted w h }
      where
        by_aborted :
            (b : Bool) (w : World S)
            → Good w
            → Ends Good IsRead (unless_aborted S b (on_rules S (find_unique S.rules merchant_id)) w)
        by_aborted true w h = (IsGood-tick S d merchant_id) w h
        by_aborted false w h = noted _ (found_rule-IsRead.at w h)

    to_decimal_rule-IsStored : Ensures Good IsStored (to_decimal_rule S (snapshot_of S rule))
    to_decimal_rule-IsStored = record { at = λ w h. rw (snapshot-rule S rule w) (refl, h) }

    load_rule-IsStored : Ensures Good IsStored (load_rule S merchant_id)
    unfolding load_rule
    load_rule-IsStored = Ensures-bind Good IsRead IsStored _ _ statement-IsRead (λ o same. rw same (
        Ensures-bind Good (Anything Good) IsStored _ _ write_cache-Anything
          (λ done any. to_decimal_rule-IsStored)))

    hit-IsStored :
        (o : Option Snapshot) (rest : Io S (DecimalRule S))
        → Fits o
        → Ensures Good IsStored rest
        → Ensures Good IsStored (hit S o rest)
    unfolding hit
    hit-IsStored none rest f k = k
    hit-IsStored (some s) rest (inl absent) k = absurd (cc absent)
    hit-IsStored (some s) rest (inr same) k =
        let same' : s ≡ snapshot_of S rule = cc same in
        Ensures-bind Good (Anything Good) IsStored _ _ (count-Anything count_hit)
          (λ done any. rw same' to_decimal_rule-IsStored)

    pub fill-IsStored : (got : Bool) → Ensures Good IsStored (fill S got merchant_id)
    unfolding fill
    fill-IsStored got =
        Ensures-bind Good Fits IsStored _ _ (read_again-Found got)
          (λ o f. hit-IsStored o _ f load_rule-IsStored)

    -- If `JSON.parse` reads back the text of the merchant's rule, other processes keep the cache
    -- coherent, and the cache is coherent, which is to say that what it holds for the merchant is
    -- read as no rule or as that of the tables: then the rule that the worker gets is the one of
    -- the tables, or the default, and the cache is still coherent, whatever calls fail.
    pub get_cashback_rule-IsStored : Ensures Good IsStored (get_cashback_rule S merchant_id)
    unfolding get_cashback_rule
    get_cashback_rule-IsStored =
        Ensures-bind Good Fits IsStored _ _ (read_cache-Found S d merchant_id) (λ o f.
          hit-IsStored o _ f (
            Ensures-bind Good (Anything Good) IsStored _ _ (count-Anything count_miss) (λ done any.
              Ensures-bind Good (Anything Good) IsStored _ _ acquire_lock-Anything (λ got any'.
                Ensures-finally Good IsStored _ _ (fill-IsStored got) (release_if-Anything got)))))
