-- ===== src/Retry/Rounds.antt =====
-- The rounds of the retry loop about one event that can never be processed: they end.
use shopback_cashback_ledger.Prelude.{
  ℕ, suc, ◌+◌, ◌<◌, String, true, false, some, ◌≡◌, ◌≢◌, refl, ◌∙◌, ◌⊎◌, inl, inr, leb, leb→le,
  leb→lt, Bool-cases, arith, if◌then◌else◌,
}
use shopback_cashback_ledger.Json.{member}
use shopback_cashback_ledger.Schema.{pending, failed}
use shopback_cashback_ledger.Errors.{success, missing_order_id}
use shopback_cashback_ledger.Effect.{ok, err, raise, catch, ◌>>=◌}
use shopback_cashback_ledger.Services.{Services}
use shopback_cashback_ledger.World.{World}
use shopback_cashback_ledger.Calls.{count}
use shopback_cashback_ledger.Queries.{find_written, find_own}
use shopback_cashback_ledger.Outbox.{Settings}
use shopback_cashback_ledger.Consumer.{InboxRow}
use shopback_cashback_ledger.Retry.{
  is_due, is_truthy, set_attempted, set_failed, count_retry, attempt_event, retry_event,
  retry_failed,
}
use shopback_cashback_ledger.Retry.Exhaustion.{attempted, buried, postponed, retry_failed_lem}

module _ (S : Services) (settings : Settings) (id : String) (w : World S) where
  -- The event `id` is retried so many times, each time as a round finds it; between the retries
  -- anything may happen that leaves its row as it is.
  pub data Retried : ℕ → World S → Type 0 where
    start : Retried 0 w
    retry :
        (n : ℕ) (v : World S) (row : InboxRow S) (time : ℕ) (u : World S)
        → Retried n v
        → S.inbox.find id v.db.inbox ≡ some row
        → is_due S time row ≡ true
        → u ≡ (retry_event S settings row v).1
        → Retried (suc n) u
    idle :
        (n : ℕ) (v u : World S)
        → Retried n v
        → S.inbox.find id u.db.inbox ≡ S.inbox.find id v.db.inbox
        → Retried n u

module _ (S : Services) (calm : (n : ℕ) → S.outcome n ≡ success) (settings : Settings) where
  -- An event whose payload names no order.
  abbrev pub IsPoison : InboxRow S → Type 0
  IsPoison row = is_truthy S (member "orderId" row.payload) ≡ false

  attempt_event-poison :
      (row : InboxRow S) (v : World S)
      → IsPoison row
      → attempt_event S row v ≡ (err (missing_order_id row.id), v)
  unfolding attempt_event raise ◌>>=◌
  attempt_event-poison row v h = rw h refl

  abbrev counted : World S → World S
  counted v = record v { metrics = count_retry v.metrics }

  retry_event-poison :
      (row : InboxRow S) (v : World S)
      → IsPoison row
      → retry_event S settings row v
        ≡ retry_failed S settings row (missing_order_id row.id) (counted v)
  unfolding retry_event catch count ◌>>=◌
  retry_event-poison row v h = rw (attempt_event-poison row (counted v) h) refl

  after_retry : InboxRow S → World S → World S
  after_retry row v =
      let r = set_attempted S (missing_order_id row.id) row in
      let v' = attempted S row (missing_order_id row.id) (counted v) in
      if leb settings.max_attempts (suc row.attempts) then buried S r v' else postponed S r v'

  retry_event-after :
      (row : InboxRow S) (v : World S)
      → IsPoison row
      → S.inbox.find row.id v.db.inbox ≡ some row
      → retry_event S settings row v ≡ (ok tt, after_retry row v)
  unfolding after_retry
  retry_event-after row v h found =
      retry_event-poison row v h
      ∙ retry_failed_lem S settings row (missing_order_id row.id) (counted v) found (calm _)
          (calm _) (calm _)

  module _ (id : String) (a : ℕ) where
    -- The row of the event after `n` retries, from `a` attempts.
    pub record IsAfter (n : ℕ) (row : InboxRow S) : Type 0 where
      pub poison : IsPoison row
      pub state :
          ((row.status ≡ pending) × (row.attempts ≡ a + n) × (a + n < settings.max_attempts))
          ⊎ ((row.status ≡ failed) × (a + n ≡ settings.max_attempts))

    abbrev pub Reached : ℕ → World S → Type 0
    Reached n v = (row : InboxRow S) × (S.inbox.find id v.db.inbox ≡ some row) × IsAfter n row

    due-pending : (row : InboxRow S) (time : ℕ) → is_due S time row ≡ true → row.status ≢ failed
    due-pending row time due is_failed = cc (rw is_failed at due)

    over_limit :
        (n : ℕ) (row : InboxRow S)
        → row.attempts ≡ a + n
        → a + n < settings.max_attempts
        → leb settings.max_attempts (suc row.attempts) ≡ true
        → a + suc n ≡ settings.max_attempts
    over_limit n row attempts under over =
        let le = leb→le settings.max_attempts (suc row.attempts) over in
        omega (arith, attempts, under, le)

    under_limit :
        (n : ℕ) (row : InboxRow S)
        → row.attempts ≡ a + n
        → leb settings.max_attempts (suc row.attempts) ≡ false
        → a + suc n < settings.max_attempts
    under_limit n row attempts more =
        let lt = leb→lt settings.max_attempts (suc row.attempts) more in omega (arith, attempts, lt)

    -- The row that is in the table after a retry, by the limit.
    Reached-after :
        (n : ℕ) (row : InboxRow S) (v : World S)
        → row.id ≡ id
        → IsPoison row
        → row.status ≡ pending
        → row.attempts ≡ a + n
        → a + n < settings.max_attempts
        → Reached (suc n) (after_retry row v)
    unfolding after_retry
    Reached-after n row v key h waits attempts under =
        elim (Bool-cases (leb settings.max_attempts (suc row.attempts))) [
          | inl over ↦
              rw (over, ← key)
                (
                  set_failed S (set_attempted S (missing_order_id row.id) row),
                  find_written S.inbox _ _,
                  record { poison = h; state = inr (refl, over_limit n row attempts under over) },
                )
          | inr more ↦
              rw (more, ← key)
                (
                  _,
                  find_written S.inbox _ _,
                  record {
                    poison = h;
                    state = inl (waits, omega (arith, attempts), under_limit n row attempts more);
                  },
                )
        ]

    Reached-retry :
        (n : ℕ) (row : InboxRow S) (time : ℕ) (v : World S)
        → S.inbox.find id v.db.inbox ≡ some row
        → is_due S time row ≡ true
        → IsAfter n row
        → Reached (suc n) (retry_event S settings row v).1
    Reached-retry n row time v here due h =
        let own : S.inbox.find row.id v.db.inbox ≡ some row =
          find_own S.inbox id row v.db.inbox here in
        let same = retry_event-after row v h.poison own in rw same (by_state h.state)
      where
        by_state :
            ((row.status ≡ pending) × (row.attempts ≡ a + n) × (a + n < settings.max_attempts))
              ⊎ ((row.status ≡ failed) × (a + n ≡ settings.max_attempts))
            → Reached (suc n) (after_retry row v)
        by_state (inl (waits, attempts, under)) =
            Reached-after n row v (S.inbox.find-key id row v.db.inbox here) h.poison waits attempts
              under
        by_state (inr (is_failed, end)) = absurd (due-pending row time due is_failed)

  -- With calls that succeed, an event that names no order, pending and below the limit of attempts,
  -- is retried at most as often as its attempts are below the limit, in whatever rounds and
  -- whatever happens between them to all but its row. After fewer retries it is pending with so many
  -- attempts more; after the last one it has failed, and is found by no further round.
  pub Retried-ends :
      (id : String) {w : World S} {row : InboxRow S}
      → S.inbox.find id w.db.inbox ≡ some row
      → IsPoison row
      → row.status ≡ pending
      → row.attempts < settings.max_attempts
      → {n : ℕ} {v : World S} → Retried S settings id w n v
      → Reached id row.attempts n v
  Retried-ends id {w} {row} found h waits under start =
      (row, found, record { poison = h; state = inl (waits, omega arith, omega (arith, under)) })
  Retried-ends id {w} {row} found h waits under (retry n v row' time u k here due same) =
      let (last, found', after) = Retried-ends id found h waits under k in
      let one : last ≡ row' = cc (found', here) in
      rw same (Reached-retry id row.attempts n row' time v here due (rw one at after))
  Retried-ends id {w} {row} found h waits under (idle n v u k same) =
      let (last, found', after) = Retried-ends id found h waits under k in
      (last, same ∙ found', after)
