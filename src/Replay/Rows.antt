-- ===== src/Replay/Rows.antt =====
-- What a replay does to one row of the inbox, an event at a time.
use mathlib.Core.List.Memᴰ.{not-nil}
use shopback_cashback_ledger.Prelude.{
  ℕ, Bool, Option, none, some, List, [], ◌∷◌, ◌≡◌, ◌≢◌, ◌∙◌, ◌⊎◌, refl, ap, inl, inr, eq_iff, arith,
  Bool-cases, All, Memᴰ, ◌==◌, text_comparable, if◌then◌else◌,
}
use shopback_cashback_ledger.Schema.{pending}
use shopback_cashback_ledger.Errors.{success}
use shopback_cashback_ledger.Effect.{pure}
use shopback_cashback_ledger.Services.{Services}
use shopback_cashback_ledger.World.{World}
use shopback_cashback_ledger.Consumer.{InboxRow}
use shopback_cashback_ledger.Replay.{replay_inbox_all}
use shopback_cashback_ledger.Replay.Pending.{
  IsStored, IsStored-All, replayed_row, replayed, first-replayed,
}

module _ (S : Services) where
  -- The row is pending, without an error, and from some time on; its attempts start again if that is
  -- asked for. Its other columns are as they were.
  abbrev pub Replayed : Bool → InboxRow S → Option (InboxRow S) → Type 0
  Replayed reset row x =
      (time : ℕ) × (x
        ≡ some (record row {
          status = pending;
          attempts = if reset then 0 else row.attempts;
          available_at = time;
          last_error = none;
        }))

  module _ (reset : Bool) (row : InboxRow S) where
    abbrev Stage : S.inbox.Rows → Type 0
    Stage t = (S.inbox.find row.id t ≡ some row) ⊎ Replayed reset row (S.inbox.find row.id t)

    -- The row itself is replayed.
    own_found :
        (cur : InboxRow S) (w : World S)
        → S.inbox.find row.id w.db.inbox ≡ some cur
        → S.inbox.find row.id (replayed S reset row cur w).db.inbox
          ≡ some (replayed_row S reset row cur w)
    own_found cur w found = ground (
      arith,
      S.inbox.find-write row.id (replayed_row S reset row cur w) w.db.inbox,
      S.inbox.find-key row.id cur w.db.inbox found,
      eq_iff cur.id row.id,
    )

    own_step :
        (cur : InboxRow S) (w : World S)
        → S.inbox.find row.id w.db.inbox ≡ some cur
        → Stage w.db.inbox
        → Replayed reset row (S.inbox.find row.id (replayed S reset row cur w).db.inbox)
    own_step cur w found (inl h) =
        let same : cur ≡ row = cc (found, h) in
        (
          S.clock w.calls,
          own_found cur w found ∙ ap (λ (c : InboxRow S). some (replayed_row S reset row c w)) same,
        )
    own_step cur w found (inr (time, h)) =
        let same : cur ≡ record row {
          status = pending;
          attempts = if reset then 0 else row.attempts;
          available_at = time;
          last_error = none;
        } =
          cc (found, h) in
        (
          S.clock w.calls,
          own_found cur w found ∙ ap (λ (c : InboxRow S). some (replayed_row S reset row c w)) same,
        )

    other_step :
        (r cur : InboxRow S) (w : World S)
        → r.id ≢ row.id
        → S.inbox.find r.id w.db.inbox ≡ some cur
        → S.inbox.find row.id (replayed S reset r cur w).db.inbox ≡ S.inbox.find row.id w.db.inbox
    other_step r cur w other found = ground (
      arith,
      S.inbox.find-write row.id (replayed_row S reset r cur w) w.db.inbox,
      S.inbox.find-key r.id cur w.db.inbox found,
      eq_iff cur.id row.id,
    )

    -- Rows that were all read from a table where the row stood: one of its id is the row.
    abbrev ReadSame : List (InboxRow S) → Type 0
    ReadSame rs = All (λ r. r.id ≡ row.id → r ≡ row) rs

    step-Stage :
        (r cur : InboxRow S) (w : World S)
        → (r.id ≡ row.id → r ≡ row)
        → S.inbox.find r.id w.db.inbox ≡ some cur
        → Stage w.db.inbox
        → Stage (replayed S reset r cur w).db.inbox
    step-Stage r cur w read found stage = elim (Bool-cases (r.id == row.id)) [
      | inl own ↦
          let same = read ((eq_iff r.id row.id).0 own) in
          inr (rw same (own_step cur w (rw same at found) stage))
      | inr other ↦
          rw (other_step r cur w (λ same. cc (other, (eq_iff r.id row.id).1 same)) found) stage
    ]

    step-Replayed :
        (r cur : InboxRow S) (w : World S)
        → (r.id ≡ row.id → r ≡ row)
        → S.inbox.find r.id w.db.inbox ≡ some cur
        → Replayed reset row (S.inbox.find row.id w.db.inbox)
        → Replayed reset row (S.inbox.find row.id (replayed S reset r cur w).db.inbox)
    step-Replayed r cur w read found done = elim (Bool-cases (r.id == row.id)) [
      | inl own ↦
          let same = read ((eq_iff r.id row.id).0 own) in
          rw same (own_step cur w (rw same at found) (inr done))
      | inr other ↦
          rw (other_step r cur w (λ same. cc (other, (eq_iff r.id row.id).1 same)) found) done
    ]

    module _ (calm : (n : ℕ) → S.outcome n ≡ success) where
      replay_inbox_all-kept :
          (rs : List (InboxRow S)) (w : World S)
          → All (λ r. IsStored S r.id w.db.inbox) rs
          → ReadSame rs
          → Replayed reset row (S.inbox.find row.id w.db.inbox)
          → Replayed reset row (S.inbox.find row.id (replay_inbox_all S reset rs w).1.db.inbox)
      unfolding replay_inbox_all pure
      replay_inbox_all-kept [] w stored read done = done
      replay_inbox_all-kept (r ∷ rs) w ((cur, found), stored) (same, read) done =
          rw (first-replayed S reset r cur rs w found (calm w.calls)) (
            replay_inbox_all-kept rs (replayed S reset r cur w)
              (IsStored-All S rs (replayed_row S reset r cur w) w.db.inbox stored) read
              (step-Replayed r cur w same found done))

      pub replay_inbox_all-Replayed :
          (rs : List (InboxRow S)) (w : World S)
          → All (λ r. IsStored S r.id w.db.inbox) rs
          → ReadSame rs
          → Stage w.db.inbox
          → Memᴰ row rs
          → Replayed reset row (S.inbox.find row.id (replay_inbox_all S reset rs w).1.db.inbox)
      replay_inbox_all-Replayed [] w stored read stage m = absurd (not-nil m)
      replay_inbox_all-Replayed (r ∷ rs) w ((cur, found), stored) (same, read) stage (Memᴰ.head e) =
          rw (first-replayed S reset r cur rs w found (calm w.calls)) (
            replay_inbox_all-kept rs (replayed S reset r cur w)
              (IsStored-All S rs (replayed_row S reset r cur w) w.db.inbox stored) read
              (rw (← e) (own_step cur w (rw (← e) at found) stage)))
      replay_inbox_all-Replayed (r ∷ rs) w ((cur, found), stored) (same, read) stage (Memᴰ.tail m) =
          rw (first-replayed S reset r cur rs w found (calm w.calls)) (
            replay_inbox_all-Replayed rs (replayed S reset r cur w)
              (IsStored-All S rs (replayed_row S reset r cur w) w.db.inbox stored) read
              (step-Stage r cur w same found stage) m)

      pub replay_inbox_all-other :
          (rs : List (InboxRow S)) (w : World S)
          → All (λ r. IsStored S r.id w.db.inbox) rs
          → All (λ r. r.id ≢ row.id) rs
          → S.inbox.find row.id (replay_inbox_all S reset rs w).1.db.inbox
            ≡ S.inbox.find row.id w.db.inbox
      unfolding replay_inbox_all pure
      replay_inbox_all-other [] w stored other = refl
      replay_inbox_all-other (r ∷ rs) w ((cur, found), stored) (differ, other) =
          rw (first-replayed S reset r cur rs w found (calm w.calls)) (
            replay_inbox_all-other rs (replayed S reset r cur w)
              (IsStored-All S rs (replayed_row S reset r cur w) w.db.inbox stored) other
            ∙ other_step r cur w differ found)
