-- ===== src/RuleCache/Answered.antt =====
-- The worker gets a rule when no call fails and the cache is coherent.
use shopback_cashback_ledger.Prelude.{
  ℕ, String, Bool, true, false, Option, none, some, ◌≡◌, refl, ◌∙◌, inl, inr,
}
use shopback_cashback_ledger.Errors.{success}
use shopback_cashback_ledger.Effect.{ok}
use shopback_cashback_ledger.Services.{Services}
use shopback_cashback_ledger.World.{Db, World, Io}
use shopback_cashback_ledger.Calls.{
  cached, set_if_free, redis_get, redis_set, redis_set_nx, redis_del, store,
}
use shopback_cashback_ledger.Calls.Ensures.{Ensures, Anything, Ensures-perform}
use shopback_cashback_ledger.Calls.Answers.{
  Answers, Answers-pure, Answers-catch, Answers-finally, Answers-perform, Answers-statement,
  Answers-bind, Answers-count, Answers-wait,
}
use shopback_cashback_ledger.Domain.{RuleRow}
use shopback_cashback_ledger.RuleCache.{
  Snapshot, DecimalRule, cache_key, lock_key, snapshot_json, snapshot_of, write_cache, read_cache,
  acquire_lock, release_if, release_lock, read_again, hit, load_rule, fill, get_cashback_rule,
  to_decimal_rule, count_hit, count_miss,
}
use shopback_cashback_ledger.RuleCache.Coherent.{Found, IsCoherent, IsGood-tick, read_cache-Found}
use shopback_cashback_ledger.RuleCache.Snapshots.{snapshot-rule}
use shopback_cashback_ledger.RuleCache.Agreed.{
  Good, IsStored, write_cache-Anything, acquire_lock-Anything, wait-Anything, read_again-Found,
  statement-IsRead, count-Anything, fill-IsStored, IsRead,
}

module _ (S : Services) (d : Db S) (merchant_id : String) (calm : (n : ℕ) → S.outcome n ≡ success)
    (reads : let rule = snapshot_of S (S.rules.find merchant_id d.rules) in
      S.parse (S.stringify (snapshot_json S rule)) ≡ some (snapshot_json S rule))
    (others : (n : ℕ) (c : S.cache.Rows)
      → IsCoherent S d merchant_id c
      → IsCoherent S d merchant_id (S.meanwhile n c)) where
  abbrev I : World S → Type 0
  I = Good S d merchant_id

  -- What Redis does when it answers.
  effect-Answers :
      {A : Type 0} (value : World S → A) (change : World S → World S)
      → ((w : World S) → (change w).aborted ≡ w.aborted)
      → Answers I (λ w. (ok (value w), change w))
  effect-Answers value change keeps = record {
    at = λ w i s. record { value = value w; world = change w; same = refl; healthy = keeps w ∙ s };
  }

  redis_get-Anything : (key : String) → Ensures I (Anything I) (redis_get S key)
  unfolding redis_get
  redis_get-Anything key =
      Ensures-perform I (Anything I) _ (IsGood-tick S d merchant_id)
        (record { at = λ w h. (tt, h) })

  redis_get-Answers : (key : String) → Answers I (redis_get S key)
  unfolding redis_get
  redis_get-Answers key =
      Answers-perform I calm _ (effect-Answers (λ w. cached S key w) (λ w. w) (λ w. refl))

  read_cache-Answers : (key : String) → Answers I (read_cache S key)
  unfolding read_cache
  read_cache-Answers key = Answers-catch I _ _ (
      Answers-bind I (Anything I) _ _ (redis_get-Anything key) (redis_get-Answers key)
        (λ raw any. Answers-pure I _))

  write_cache-Answers : (key : String) (rule : Snapshot) → Answers I (write_cache S key rule)
  unfolding write_cache redis_set
  write_cache-Answers key rule = Answers-catch I _ _ (
      Answers-perform I calm _ (
        effect-Answers (λ w. tt) (λ w. store S key (some (S.stringify (snapshot_json S rule))) w)
          (λ w. refl)))

  set_if_free-Answer :
      (key : String) (w : World S) (o : Option String)
      → w.aborted ≡ false
      → (b : Bool) × (w' : World S) × (set_if_free S key "1" w o ≡ (ok b, w'))
        × (w'.aborted ≡ false)
  set_if_free-Answer key w none s = (true, store S key (some "1") w, refl, s)
  set_if_free-Answer key w (some old) s = (false, w, refl, s)

  acquire_lock-Answers : (key : String) → Answers I (acquire_lock S key)
  unfolding acquire_lock redis_set_nx
  acquire_lock-Answers key = Answers-catch I _ _ (
      Answers-perform I calm _ (record {
        at = λ w i s.
            let (b, w', same, healthy) = set_if_free-Answer key w (cached S key w) s in
            record { value = b; world = w'; same = same; healthy = healthy };
      }))

  release_if-Answers : (got : Bool) (key : String) → Answers I (release_if S got key)
  unfolding release_if release_lock redis_del
  release_if-Answers false key = Answers-pure I tt
  release_if-Answers true key =
      Answers-catch I _ _
        (Answers-perform I calm _ (effect-Answers (λ w. tt) (λ w. store S key none w) (λ w. refl)))

  read_again-Answers : (got : Bool) (key : String) → Answers I (read_again S got key)
  unfolding read_again
  read_again-Answers true key = Answers-pure I none
  read_again-Answers false key =
      Answers-bind I (Anything I) _ _ (wait-Anything S d merchant_id reads others) (Answers-wait I)
        (λ done any. read_cache-Answers key)

  to_decimal_rule-Answers :
      (rule : Option (RuleRow S)) → Answers I (to_decimal_rule S (snapshot_of S rule))
  to_decimal_rule-Answers rule = record {
    at = λ w i s. record { value = _; world = w; same = snapshot-rule S rule w; healthy = s };
  }

  hit-Answers :
      (o : Option Snapshot) (rest : Io S (DecimalRule S))
      → Found S d merchant_id o
      → Answers I rest
      → Answers I (hit S o rest)
  unfolding hit
  hit-Answers none rest f k = k
  hit-Answers (some x) rest (inl absent) k = absurd (cc absent)
  hit-Answers (some x) rest (inr same) k =
      let same' : x ≡ snapshot_of S (S.rules.find merchant_id d.rules) = cc same in
      Answers-bind I (Anything I) _ _ (count-Anything S d merchant_id count_hit)
        (Answers-count I count_hit)
        (λ done any. rw same' (to_decimal_rule-Answers (S.rules.find merchant_id d.rules)))

  load_rule-Answers : Answers I (load_rule S merchant_id)
  unfolding load_rule
  load_rule-Answers =
      Answers-bind I (IsRead S d merchant_id reads others) _ _
        (statement-IsRead S d merchant_id reads others)
        (Answers-statement I calm _
          (effect-Answers (λ w. S.rules.find merchant_id w.db.rules) (λ w. w) (λ w. refl)))
        (λ o same. rw same (
          Answers-bind I (Anything I) _ _ (write_cache-Anything S d merchant_id reads others)
            (write_cache-Answers (cache_key merchant_id) _)
            (λ done any. to_decimal_rule-Answers (S.rules.find merchant_id d.rules))))

  fill-Answers : (got : Bool) → Answers I (fill S got merchant_id)
  unfolding fill
  fill-Answers got =
      Answers-bind I (Found S d merchant_id) _ _ (read_again-Found S d merchant_id reads others got)
        (read_again-Answers got (cache_key merchant_id))
        (λ o f. hit-Answers o _ f load_rule-Answers)

  pub get_cashback_rule-Answers : Answers I (get_cashback_rule S merchant_id)
  unfolding get_cashback_rule
  get_cashback_rule-Answers =
      Answers-bind I (Found S d merchant_id) _ _ (read_cache-Found S d merchant_id)
        (read_cache-Answers (cache_key merchant_id))
        (λ o f. hit-Answers o _ f (
          Answers-bind I (Anything I) _ _ (count-Anything S d merchant_id count_miss)
            (Answers-count I count_miss)
            (λ done any.
              Answers-bind I (Anything I) _ _ (acquire_lock-Anything S d merchant_id reads others)
                (acquire_lock-Answers (lock_key merchant_id))
                (λ got any'.
                  Answers-finally I (IsStored S d merchant_id) _ _
                    (fill-IsStored S d merchant_id reads others got) (fill-Answers got)
                    (release_if-Answers got (lock_key merchant_id))))))
