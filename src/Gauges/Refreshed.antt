-- ===== src/Gauges/Refreshed.antt =====
-- What one tick of the refresh does to the gauges, whatever calls of it fail.
use shopback_cashback_ledger.Prelude.{ℕ, ◌≡◌, refl, ap, ◌⊎◌, inl, inr, length, select}
use shopback_cashback_ledger.Schema.{pending, failed}
use shopback_cashback_ledger.Errors.{Error, Outcome, success, lost, unacknowledged, service}
use shopback_cashback_ledger.Effect.{Result, ok, err, pure, raise, catch, handle, ◌>>=◌}
use shopback_cashback_ledger.Services.{Services}
use shopback_cashback_ledger.World.{Db, World}
use shopback_cashback_ledger.Calls.{Action, call, deliver, count, tick as next_call}
use shopback_cashback_ledger.Queries.{count_rows, on_inbox, on_outbox}
use shopback_cashback_ledger.Gauges.{
  set_gauges, inbox_has, outbox_has, settle, settled, refresh, tick,
}

module _ (S : Services) where
  -- A call that reads gives its value or an error, and leaves all but the number of calls.
  abbrev Reads : {A : Type 0} → A → Result A → Type 0
  Reads a r = (r ≡ ok a) ⊎ ((e : Error) × (r ≡ err e))

  settle-Reads :
      {A : Type 0} (act : Action S A) (a : A) (w : World S)
      → act w.db ≡ (ok a, w.db)
      → (r : Result A) × Reads a r × (settle S (call S act) w ≡ (ok r, next_call S w))
  unfolding settle call deliver catch handle pure ◌>>=◌
  settle-Reads {A} act a w reads = by_outcome (S.outcome w.calls) refl
    where
      by_outcome :
          (o : Outcome)
          → S.outcome w.calls ≡ o
          → (r : Result A) × Reads a r × (settle S (call S act) w ≡ (ok r, next_call S w))
      by_outcome success e = (ok a, inl refl, rw (e, reads) refl)
      by_outcome (lost f) e = (err (service f), inr (service f, refl), rw e refl)
      by_outcome (unacknowledged f) e = (err (service f), inr (service f, refl), rw (e, reads) refl)

  -- The counts of the rows of the tables `d`.
  abbrev pub inbox_pending_of : Db S → ℕ
  inbox_pending_of d = length (select (inbox_has S pending) (S.inbox.rows d.inbox))

  abbrev pub inbox_failed_of : Db S → ℕ
  inbox_failed_of d = length (select (inbox_has S failed) (S.inbox.rows d.inbox))

  abbrev pub outbox_pending_of : Db S → ℕ
  outbox_pending_of d = length (select (outbox_has S pending) (S.outbox.rows d.outbox))

  -- The gauges fit the tables, all three, or all three are as they were.
  abbrev pub Refreshed : World S → Result (Unit {0}) × World S → Type 0
  Refreshed w (r, w') =
      (r ≡ ok tt)
      × (w'.db ≡ w.db)
      × ((w'.metrics ≡ w.metrics)
          ⊎ (w'.metrics
              ≡ set_gauges (inbox_pending_of w.db) (inbox_failed_of w.db) (outbox_pending_of w.db)
                  w.metrics))

  -- What follows the three answers.
  abbrev set_all : Result ℕ → Result ℕ → Result ℕ → World S → Result (Unit {0}) × World S
  set_all first second third =
      catch
        (do
          a ← settled S first
          b ← settled S second
          c ← settled S third
          count S (set_gauges a b c))
        (λ e. pure tt)

  set_all-Refreshed :
      (w v : World S) (r1 r2 r3 : Result ℕ)
      → v.db ≡ w.db
      → v.metrics ≡ w.metrics
      → Reads (inbox_pending_of w.db) r1
      → Reads (inbox_failed_of w.db) r2
      → Reads (outbox_pending_of w.db) r3
      → Refreshed w (set_all r1 r2 r3 v)
  unfolding settled catch handle pure raise count ◌>>=◌
  set_all-Refreshed w v r1 r2 r3 d m (inl a) (inl b) (inl c) =
      rw (a, b, c) (refl, d, inr (ap (set_gauges _ _ _) m))
  set_all-Refreshed w v r1 r2 r3 d m (inl a) (inl b) (inr (e, c)) = rw (a, b, c) (refl, d, inl m)
  set_all-Refreshed w v r1 r2 r3 d m (inl a) (inr (e, b)) c = rw (a, b) (refl, d, inl m)
  set_all-Refreshed w v r1 r2 r3 d m (inr (e, a)) b c = rw a (refl, d, inl m)

  -- Whatever calls fail, a tick throws nothing and changes no table, and either all three gauges are
  -- set, to the numbers of pending and failed events of the inbox and of pending ones of the outbox,
  -- or all metrics are as they were.
  pub tick-Refreshed : (w : World S) → Refreshed w (tick S w)
  unfolding tick refresh catch handle pure ◌>>=◌
  tick-Refreshed w =
      let q1 = on_inbox S (count_rows S.inbox (inbox_has S pending)) in
      let q2 = on_inbox S (count_rows S.inbox (inbox_has S failed)) in
      let q3 = on_outbox S (count_rows S.outbox (outbox_has S pending)) in
      let w1 = next_call S w in
      let w2 = next_call S w1 in
      let (r1, reads1, s1) = settle-Reads q1 (inbox_pending_of w.db) w refl in
      let (r2, reads2, s2) = settle-Reads q2 (inbox_failed_of w.db) w1 refl in
      let (r3, reads3, s3) = settle-Reads q3 (outbox_pending_of w.db) w2 refl in
      rw (s1, s2, s3) (set_all-Refreshed w (next_call S w2) r1 r2 r3 refl refl reads1 reads2 reads3)
