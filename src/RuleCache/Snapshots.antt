-- ===== src/RuleCache/Snapshots.antt =====
-- The rule that the worker gets from what it wrote to the cache.
use shopback_cashback_ledger.Prelude.{
  String, Option, none, some, ◌≡◌, ◌≢◌, refl, false, arith, eq_iff, text_comparable, ◌==◌,
}
use shopback_cashback_ledger.Effect.{ok, pure, ◌>>=◌}
use shopback_cashback_ledger.Services.{Services}
use shopback_cashback_ledger.World.{Db, World}
use shopback_cashback_ledger.Domain.{RuleRow, rate_of, cap_of}
use shopback_cashback_ledger.RuleCache.{
  DecimalRule, Snapshot, snapshot_json, snapshot_of, text_of_cap, parse_cached, read_decimal,
  decimal_cap, to_decimal_rule, decode, with_cap, cap_json,
}

module _ (S : Services) where
  -- The rule of a merchant in the tables, or the default.
  abbrev pub stored_rule : Db S → String → DecimalRule S
  stored_rule d merchant_id =
      let rule = S.rules.find merchant_id d.rules in
      record { rate = rate_of S rule; cap = cap_of S rule }

  not_empty : (text : String) → text ≢ "" → (text == "") ≡ false
  not_empty text h = ground (arith, eq_iff text "")

  read_decimal-text :
      (d : S.Decimal) (w : World S) → read_decimal S (S.decimal_to_text d) w ≡ (ok d, w)
  unfolding read_decimal pure
  read_decimal-text d w = rw (S.decimal_of_text-to_text d) refl

  decimal_cap-text :
      (limit : Option S.Decimal) (w : World S)
      → decimal_cap S (text_of_cap S limit) w ≡ (ok limit, w)
  unfolding decimal_cap ◌>>=◌
  decimal_cap-text none w = refl
  decimal_cap-text (some limit) w =
      rw (not_empty (S.decimal_to_text limit) (S.decimal_to_text_nonempty limit))
        (rw (read_decimal-text limit w) refl)

  with_cap_json :
      (rate : String) (limit : Option String)
      → with_cap S rate (some (cap_json S limit)) ≡ some (record { rate = rate; cap = limit })
  with_cap_json rate none = refl
  with_cap_json rate (some text) = refl

  pub decode_snapshot : (rule : Snapshot) → decode S (some (snapshot_json S rule)) ≡ some rule
  decode_snapshot rule = with_cap_json rule.rate rule.cap

  pub snapshot-rule :
      (rule : Option (RuleRow S)) (w : World S)
      → to_decimal_rule S (snapshot_of S rule) w
        ≡ (ok (record { rate = rate_of S rule; cap = cap_of S rule }), w)
  unfolding to_decimal_rule ◌>>=◌
  snapshot-rule rule w =
      rw (read_decimal-text (rate_of S rule) w) (rw (decimal_cap-text (cap_of S rule) w) refl)

  -- If `JSON.parse` reads back what `JSON.stringify` wrote for a rule of the database, or for its
  -- absence, then that text of the cache is read as the snapshot of it, and the snapshot gives just
  -- the rate and the cap that packages/domain takes from the database.
  pub parse_cached-snapshot :
      (rule : Option (RuleRow S)) (w : World S)
      → S.parse (S.stringify (snapshot_json S (snapshot_of S rule)))
        ≡ some (snapshot_json S (snapshot_of S rule))
      → (parse_cached S (S.stringify (snapshot_json S (snapshot_of S rule)))
          ≡ some (snapshot_of S rule))
        × (to_decimal_rule S (snapshot_of S rule) w
            ≡ (ok (record { rate = rate_of S rule; cap = cap_of S rule }), w))
  unfolding parse_cached
  parse_cached-snapshot rule w reads =
      (rw reads (decode_snapshot (snapshot_of S rule)), snapshot-rule rule w)
