-- ===== src/RuleCache/Quiet.antt =====
-- Reading a rule through the cache leaves the tables alone, and in a transaction it answers only if
-- no statement has failed.
use shopback_cashback_ledger.Prelude.{
  String, Bool, true, false, Option, none, some, ◌≡◌, refl, ◌==◌, text_comparable,
}
use shopback_cashback_ledger.Effect.{Result, ok, err}
use shopback_cashback_ledger.Services.{Services}
use shopback_cashback_ledger.World.{Db, Io}
use shopback_cashback_ledger.Calls.Post.{
  Post, Post-pure, Post-raise, Post-if, Post-bind, Post-catch, Post-statement, Post-weaken,
}
use shopback_cashback_ledger.Calls.Quiet.{
  Post-count, Post-wait, Post-redis_get, Post-redis_set, Post-redis_del, Post-redis_set_nx,
  Post-finally, Concluded,
}
use shopback_cashback_ledger.RuleCache.{
  Snapshot, DecimalRule, read_cache, write_cache, acquire_lock, release_if, read_again, hit,
  load_rule, fill, get_cashback_rule, or_invalid, read_decimal, decimal_cap, to_decimal_rule,
  snapshot_of,
}

module _ (S : Services) where
  -- An answer comes with the tables `d` and no failed statement.
  abbrev pub Unchanged : {A : Type 0} → Db S → Result A → Db S → Bool → Type 0
  Unchanged d (ok a) d' b = (d' ≡ d) × (b ≡ false)
  Unchanged d (err e) d' b = Unit {0}

  module _ (d : Db S) (b : Bool) where
    pub read_cache-Post :
        (key : String) (Q : Result (Option Snapshot) → Db S → Bool → Type 0)
        → ((o : Option Snapshot) → Q (ok o) d b)
        → Post (read_cache S key) d b Q
    unfolding read_cache
    read_cache-Post key Q h = Post-catch _ _ Q (
        Post-bind _ _ _ (
          Post-redis_get key _
            (elim [ ok o ↦ Post-pure _ _ (h _) | err e ↦ Post-pure _ Q (h none) ])))

    pub write_cache-Post :
        (key : String) (rule : Snapshot) (Q : Result (Unit {0}) → Db S → Bool → Type 0)
        → Q (ok tt) d b
        → Post (write_cache S key rule) d b Q
    unfolding write_cache
    write_cache-Post key rule Q h =
        Post-catch _ _ Q (Post-redis_set key _ _ (elim [ ok o ↦ h | err e ↦ Post-pure _ Q h ]))

    pub acquire_lock-Post :
        (key : String) (Q : Result Bool → Db S → Bool → Type 0)
        → ((got : Bool) → Q (ok got) d b)
        → Post (acquire_lock S key) d b Q
    unfolding acquire_lock
    acquire_lock-Post key Q h =
        Post-catch _ _ Q
          (Post-redis_set_nx key _ _ (elim [ ok o ↦ h o | err e ↦ Post-pure _ Q (h false) ]))

    pub release_if-Post :
        (got : Bool) (key : String) (Q : Result (Unit {0}) → Db S → Bool → Type 0)
        → Q (ok tt) d b
        → Post (release_if S got key) d b Q
    unfolding release_if
    release_if-Post false key Q h = Post-pure tt Q h
    release_if-Post true key Q h =
        Post-catch _ _ Q (Post-redis_del key _ (elim [ ok o ↦ h | err e ↦ Post-pure _ Q h ]))

    pub read_again-Post :
        (got : Bool) (key : String) (Q : Result (Option Snapshot) → Db S → Bool → Type 0)
        → ((o : Option Snapshot) → Q (ok o) d b)
        → Post (read_again S got key) d b Q
    unfolding read_again
    read_again-Post true key Q h = Post-pure none Q (h none)
    read_again-Post false key Q h = Post-bind _ _ Q (Post-wait _ (read_cache-Post key Q h))

    read_decimal-Post :
        (text : String) (Q : Result S.Decimal → Db S → Bool → Type 0)
        → ((r : Result S.Decimal) → Q r d b)
        → Post (read_decimal S text) d b Q
    unfolding read_decimal
    read_decimal-Post text Q h = by_value (S.decimal_of_text text)
      where
        by_value : (o : Option S.Decimal) → Post (or_invalid S text o) d b Q
        by_value none = Post-raise _ Q (h _)
        by_value (some v) = Post-pure v Q (h _)

    decimal_cap-Post :
        (o : Option String) (Q : Result (Option S.Decimal) → Db S → Bool → Type 0)
        → ((r : Result (Option S.Decimal)) → Q r d b)
        → Post (decimal_cap S o) d b Q
    unfolding decimal_cap
    decimal_cap-Post none Q h = Post-pure none Q (h _)
    decimal_cap-Post (some text) Q h =
        Post-if (text == "") _ (λ _. Post-pure none Q (h _))
          (λ _.
            Post-bind _ _ Q
              (read_decimal-Post text _ (elim [ ok v ↦ Post-pure _ Q (h _) | err e ↦ h (err e) ])))

    to_decimal_rule-Post :
        (rule : Snapshot) (Q : Result (DecimalRule S) → Db S → Bool → Type 0)
        → ((r : Result (DecimalRule S)) → Q r d b)
        → Post (to_decimal_rule S rule) d b Q
    unfolding to_decimal_rule
    to_decimal_rule-Post rule Q h = Post-bind _ _ Q (
        read_decimal-Post rule.rate _ (elim [
          | ok rate ↦ Post-bind _ _ Q (
              decimal_cap-Post rule.cap _
                (elim [ ok limit ↦ Post-pure _ Q (h _) | err e ↦ h (err e) ]))
          | err e ↦ h (err e)
        ]))

    hit-Post :
        (o : Option Snapshot) (rest : Io S (DecimalRule S))
        (Q : Result (DecimalRule S) → Db S → Bool → Type 0)
        → ((r : Result (DecimalRule S)) → Q r d b)
        → Post rest d b Q
        → Post (hit S o rest) d b Q
    unfolding hit
    hit-Post none rest Q h k = k
    hit-Post (some rule) rest Q h k =
        Post-bind _ _ Q (Post-count _ _ (to_decimal_rule-Post rule Q h))

  unchanged : {A : Type 0} (d : Db S) (r : Result A) → Unchanged d r d false
  unchanged d (ok a) = (refl, refl)
  unchanged d (err e) = tt

  load_rule-Post :
      (d : Db S) (merchant_id : String) → Post (load_rule S merchant_id) d false (Unchanged d)
  unfolding load_rule
  load_rule-Post d merchant_id = Post-bind _ _ _ (
      Post-statement _ d _
        (Post-bind _ _ _ (
          write_cache-Post d false _ _ _ (
            to_decimal_rule-Post d false (snapshot_of S (S.rules.find merchant_id d.rules)) _
              (unchanged d))))
        (λ f. tt) (λ f. tt))

  fill-Post :
      (d : Db S) (got : Bool) (merchant_id : String)
      → Post (fill S got merchant_id) d false (Unchanged d)
  unfolding fill
  fill-Post d got merchant_id = Post-bind _ _ _ (
      read_again-Post d false got _ _
        (λ o. hit-Post d false o _ _ (unchanged d) (load_rule-Post d merchant_id)))

  released :
      (d : Db S) (got : Bool) (key : String) (r : Result (DecimalRule S)) (d' : Db S) (b : Bool)
      → Unchanged d r d' b
      → Post (release_if S got key) d' b (Concluded (Unchanged d) r)
  released d got key r d' b h = release_if-Post d' b got key _ h

  pub get_cashback_rule-Post :
      (d : Db S) (merchant_id : String)
      → Post (get_cashback_rule S merchant_id) d false (Unchanged d)
  unfolding get_cashback_rule
  get_cashback_rule-Post d merchant_id = Post-bind _ _ _ (
      read_cache-Post d false _ _ (λ o. hit-Post d false o _ _ (unchanged d) (
        Post-bind _ _ _ (
          Post-count _ _ (
            Post-bind _ _ _ (
              acquire_lock-Post d false _ _ (λ got.
                Post-finally _ _ _
                  (Post-weaken _ (fill-Post d got merchant_id) (released d got _)))))))))
