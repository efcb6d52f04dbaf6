-- ===== src/RuleCache/Fallback.antt =====
-- The worker's `getCashbackRule` when no call of Redis succeeds.
use shopback_cashback_ledger.Prelude.{suc, String, Bool, true, false, Option, none, ◌≡◌, refl, ◌∙◌}
use shopback_cashback_ledger.Errors.{Fault, success, lost}
use shopback_cashback_ledger.Effect.{ok, pure, catch, finally, ◌>>=◌}
use shopback_cashback_ledger.Services.{Services}
use shopback_cashback_ledger.World.{World, Io}
use shopback_cashback_ledger.Calls.{
  statement, unless_aborted, count, redis_get, redis_set, redis_set_nx, wait, tick, call,
}
use shopback_cashback_ledger.Queries.{find_unique, on_rules}
use shopback_cashback_ledger.Domain.{RuleRow}
use shopback_cashback_ledger.RuleCache.{
  Snapshot, count_miss, read_cache, write_cache, acquire_lock, release_if, read_again, hit,
  load_rule, fill, get_cashback_rule,
}
use shopback_cashback_ledger.RuleCache.Snapshots.{snapshot-rule, stored_rule}

module _ (S : Services) where
  read_cache-lost :
      (key : String) (w : World S) {f : Fault}
      → S.outcome w.calls ≡ lost f
      → read_cache S key w ≡ (ok none, tick S w)
  unfolding read_cache redis_get catch ◌>>=◌
  read_cache-lost key w h = rw h refl

  write_cache-lost :
      (key : String) (rule : Snapshot) (w : World S) {f : Fault}
      → S.outcome w.calls ≡ lost f
      → write_cache S key rule w ≡ (ok tt, tick S w)
  unfolding write_cache redis_set catch
  write_cache-lost key rule w h = rw h refl

  acquire_lock-lost :
      (key : String) (w : World S) {f : Fault}
      → S.outcome w.calls ≡ lost f
      → acquire_lock S key w ≡ (ok false, tick S w)
  unfolding acquire_lock redis_set_nx catch
  acquire_lock-lost key w h = rw h refl

  pub bind_ok :
      {A B : Type 0} (m : Io S A) (f : A → Io S B) (w : World S) {a : A} {w' : World S}
      → m w ≡ (ok a, w')
      → (m >>= f) w ≡ f a w'
  unfolding ◌>>=◌
  bind_ok m f w h = rw h refl

  finally_ok :
      {A : Type 0} (m : Io S A) (end : Io S (Unit {0})) (w : World S) {a : A} {w' w'' : World S}
      → m w ≡ (ok a, w')
      → end w' ≡ (ok tt, w'')
      → finally m end w ≡ (ok a, w'')
  unfolding finally
  finally_ok m end w h k = rw h (rw k refl)

  -- The statement that reads the rule of a merchant.
  abbrev find_rule : String → Io S (Option (RuleRow S))
  find_rule merchant_id = statement S (on_rules S (find_unique S.rules merchant_id))

  find_rule-found :
      (merchant_id : String) (w : World S)
      → w.aborted ≡ false
      → S.outcome w.calls ≡ success
      → find_rule merchant_id w ≡ (ok (S.rules.find merchant_id w.db.rules), tick S w)
  unfolding statement call
  find_rule-found merchant_id w healthy calm = by_aborted w.aborted healthy
    where
      by_aborted :
          (b : Bool)
          → b ≡ false
          → unless_aborted S b (on_rules S (find_unique S.rules merchant_id)) w
            ≡ (ok (S.rules.find merchant_id w.db.rules), tick S w)
      by_aborted true h = absurd cc
      by_aborted false h = rw calm refl

  load_rule-lost :
      (merchant_id : String) (w : World S) {f : Fault}
      → w.aborted ≡ false
      → S.outcome w.calls ≡ success
      → S.outcome (suc w.calls) ≡ lost f
      → load_rule S merchant_id w ≡ (ok (stored_rule S w.db merchant_id), tick S (tick S w))
  unfolding load_rule
  load_rule-lost merchant_id w healthy first second =
      bind_ok (find_rule merchant_id) _ w (find_rule-found merchant_id w healthy first)
      ∙ bind_ok (write_cache S _ _) _ (tick S w) (write_cache-lost _ _ (tick S w) second)
      ∙ snapshot-rule S (S.rules.find merchant_id w.db.rules) (tick S (tick S w))

  -- The world when the cache has missed, the lock was not got, and the wait is over.
  abbrev pub waited : World S → World S
  waited w = record w {
    metrics = count_miss w.metrics;
    cache = S.meanwhile (suc (suc w.calls)) w.cache;
    calls = suc (suc (suc w.calls));
  }

  -- If every call of Redis is lost and the statement on the rules succeeds, in a transaction without
  -- a failed statement, the rule is the one of the tables, or the default of five percent without a
  -- cap; the tables, the messages and the transaction stay as they are.
  pub get_cashback_rule-fallback :
      (merchant_id : String) (w : World S) {f f₁ f₂ f₃ : Fault}
      → w.aborted ≡ false
      → S.outcome w.calls ≡ lost f
      → S.outcome (suc w.calls) ≡ lost f₁
      → S.outcome (suc (suc (suc w.calls))) ≡ lost f₂
      → S.outcome (suc (suc (suc (suc w.calls)))) ≡ success
      → S.outcome (suc (suc (suc (suc (suc w.calls))))) ≡ lost f₃
      → get_cashback_rule S merchant_id w
        ≡ (ok (stored_rule S w.db merchant_id), tick S (tick S (tick S (waited w))))
  unfolding get_cashback_rule hit fill read_again release_if count wait pure
  get_cashback_rule-fallback merchant_id w healthy first second fourth fifth sixth =
      let missed = record (tick S w) { metrics = count_miss w.metrics } in
      bind_ok (read_cache S _) _ w (read_cache-lost _ w first)
      ∙ bind_ok (count S count_miss) _ (tick S w) refl
      ∙ bind_ok (acquire_lock S _) _ missed (acquire_lock-lost _ missed second)
      ∙ finally_ok (fill S false merchant_id) _ (tick S missed)
          (bind_ok (read_again S false _) _ (tick S missed)
              (bind_ok (wait S) _ (tick S missed) refl ∙ read_cache-lost _ (waited w) fourth)
            ∙ load_rule-lost merchant_id (tick S (waited w)) healthy fifth sixth)
          refl
