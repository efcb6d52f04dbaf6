-- ===== src/Replay/Pending.antt =====
-- The events of the inbox after a replay.
use shopback_cashback_ledger.Prelude.{
  ℕ, suc, String, Bool, some, List, [], ◌∷◌, ◌≡◌, refl, sym, subst, All-take, All-select, inl, inr,
  Bool-cases, All, take, select, ◌==◌, text_comparable,
}
use shopback_cashback_ledger.Schema.{pending}
use shopback_cashback_ledger.Errors.{success}
use shopback_cashback_ledger.Effect.{Result, ok, pure, ◌>>=◌}
use shopback_cashback_ledger.Services.{Services}
use shopback_cashback_ledger.World.{World}
use shopback_cashback_ledger.Calls.{call, now}
use shopback_cashback_ledger.Queries.{update_found, find_written}
use shopback_cashback_ledger.Consumer.{InboxRow}
use shopback_cashback_ledger.Replay.{
  InboxArgs, limit_or_default, inbox_where, attempts_after, set_inbox_pending, replay_inbox_event,
  replay_inbox_all, replay_inbox,
}

module _ (S : Services) where
  -- The inbox has a row of the id, and it is pending.
  abbrev pub IsStored : String → S.inbox.Rows → Type 0
  IsStored id t = (row : InboxRow S) × (S.inbox.find id t ≡ some row)

  abbrev pub IsPending : String → S.inbox.Rows → Type 0
  IsPending id t = (row : InboxRow S) × (S.inbox.find id t ≡ some row) × (row.status ≡ pending)

  IsStored-write :
      (id : String) (new : InboxRow S) (t : S.inbox.Rows)
      → IsStored id t
      → IsStored id (S.inbox.write new t)
  IsStored-write id new t (row, h) = elim (Bool-cases (new.id == id)) [
    | inl same ↦ (new, rw (S.inbox.find-write id new t, same) refl)
    | inr other ↦ (row, rw (S.inbox.find-write id new t, other) h)
  ]

  IsPending-write :
      (id : String) (new : InboxRow S) (t : S.inbox.Rows)
      → new.status ≡ pending
      → IsPending id t
      → IsPending id (S.inbox.write new t)
  IsPending-write id new t p (row, h, k) = elim (Bool-cases (new.id == id)) [
    | inl same ↦ (new, rw (S.inbox.find-write id new t, same) refl, p)
    | inr other ↦ (row, rw (S.inbox.find-write id new t, other) h, k)
  ]

  pub IsStored-All :
      (rs : List (InboxRow S)) (new : InboxRow S) (t : S.inbox.Rows)
      → All (λ r. IsStored r.id t) rs
      → All (λ r. IsStored r.id (S.inbox.write new t)) rs
  IsStored-All [] new t h = tt
  IsStored-All (r ∷ rs) new t h = (IsStored-write r.id new t h.0, IsStored-All rs new t h.1)

  -- The row of an event that is replayed, and the world after it.
  abbrev pub replayed_row : Bool → InboxRow S → InboxRow S → World S → InboxRow S
  replayed_row reset r row w =
      set_inbox_pending S (S.clock w.calls) (attempts_after reset r.attempts) row

  abbrev pub replayed : Bool → InboxRow S → InboxRow S → World S → World S
  replayed reset r row w = record w {
    db = record w.db { inbox = S.inbox.write (replayed_row reset r row w) w.db.inbox };
    calls = suc w.calls;
  }

  event-replayed :
      (reset : Bool) (r row : InboxRow S) (w : World S)
      → S.inbox.find r.id w.db.inbox ≡ some row
      → S.outcome w.calls ≡ success
      → replay_inbox_event S reset r w ≡ (ok tt, replayed reset r row w)
  unfolding replay_inbox_event call now ◌>>=◌
  event-replayed reset r row w found calm =
      rw
        (
          calm,
          update_found S.inbox r.id
              (set_inbox_pending S (S.clock w.calls) (attempts_after reset r.attempts)) w.db.inbox
              found,
        )
        refl

  written-IsPending :
      (reset : Bool) (r row : InboxRow S) (w : World S)
      → S.inbox.find r.id w.db.inbox ≡ some row
      → IsPending r.id (replayed reset r row w).db.inbox
  written-IsPending reset r row w found = (
    replayed_row reset r row w,
    rw (← S.inbox.find-key r.id row w.db.inbox found)
        (find_written S.inbox (replayed_row reset r row w) w.db.inbox),
    refl,
  )

  -- A replay of stored events has ended without a throw, has kept what was pending, and has left
  -- each event pending.
  abbrev pub AllPending : List (InboxRow S) → World S → Result (Unit {0}) × World S → Type 0
  AllPending rs w (res, w') =
      (res ≡ ok tt)
      × ((id : String) → IsPending id w.db.inbox → IsPending id w'.db.inbox)
      × All (λ r. IsPending r.id w'.db.inbox) rs

  pub first-replayed :
      (reset : Bool) (r row : InboxRow S) (rs : List (InboxRow S)) (w : World S)
      → S.inbox.find r.id w.db.inbox ≡ some row
      → S.outcome w.calls ≡ success
      → replay_inbox_all S reset (r ∷ rs) w ≡ replay_inbox_all S reset rs (replayed reset r row w)
  unfolding replay_inbox_all ◌>>=◌
  first-replayed reset r row rs w found calm = rw (event-replayed reset r row w found calm) refl

  -- The rows that the arguments select.
  abbrev pub selected : InboxArgs → World S → List (InboxRow S)
  selected args w =
      take (limit_or_default args.limit)
        (select (inbox_where S args.source_event_id args.status) (S.inbox.rows w.db.inbox))

  found-IsStored :
      (rs : List (InboxRow S)) (t : S.inbox.Rows)
      → All (λ r. S.inbox.find r.id t ≡ some r) rs
      → All (λ r. IsStored r.id t) rs
  found-IsStored [] t h = tt
  found-IsStored (r ∷ rs) t h = ((r, h.0), found-IsStored rs t h.1)

  pub selected-IsStored :
      (args : InboxArgs) (w : World S) → All (λ r. IsStored r.id w.db.inbox) (selected args w)
  selected-IsStored args w =
      let rows = S.inbox.rows w.db.inbox in
      let p = inbox_where S args.source_event_id args.status in
      found-IsStored (selected args w) w.db.inbox (
        All-take _ (limit_or_default args.limit) (select p rows)
          (All-select _ p rows (S.inbox.find_of_rows w.db.inbox)))

  module _ (calm : (n : ℕ) → S.outcome n ≡ success) where
    pub replay_inbox_all-AllPending :
        (reset : Bool) (rs : List (InboxRow S)) (w : World S)
        → All (λ r. IsStored r.id w.db.inbox) rs
        → AllPending rs w (replay_inbox_all S reset rs w)
    unfolding replay_inbox_all pure
    replay_inbox_all-AllPending reset [] w h = (refl, λ id k. k, tt)
    replay_inbox_all-AllPending reset (r ∷ rs) w ((row, found), h) =
        let w' = replayed reset r row w in
        let new = replayed_row reset r row w in
        let rest = replay_inbox_all-AllPending reset rs w' (IsStored-All rs new w.db.inbox h) in
        subst (AllPending (r ∷ rs) w) (sym (first-replayed reset r row rs w found (calm w.calls))) (
          rest.0,
          λ id k. rest.1 id (IsPending-write id new w.db.inbox refl k),
          (rest.1 r.id (written-IsPending reset r row w found), rest.2),
        )

    pub rows-read :
        (args : InboxArgs) (w : World S)
        → replay_inbox S args w
          ≡ replay_inbox_all S args.reset_attempts
              (selected args w)
              (record w { calls = suc w.calls })
    unfolding replay_inbox call ◌>>=◌
    rows-read args w = rw (calm w.calls) refl

    -- If no call fails, a replay of the inbox ends without a throw, and then each event that was
    -- selected is pending, as is each one that was pending before.
    pub replay_inbox-AllPending :
        (args : InboxArgs) (w : World S) → AllPending (selected args w) w (replay_inbox S args w)
    replay_inbox-AllPending args w =
        subst (AllPending (selected args w) w) (sym (rows-read args w)) (
          replay_inbox_all-AllPending args.reset_attempts (selected args w)
            (record w { calls = suc w.calls }) (selected-IsStored args w))
