-- ===== src/Replay/Handled.antt =====
-- Which rows of the inbox a replay changes, and to what.
use shopback_cashback_ledger.Prelude.{
  ℕ, suc, ◌≤◌, Bool, true, false, Option, none, some, List, [], ◌∷◌, ◌≡◌, ◌≢◌, ◌∙◌, ◌⊎◌, ap, inl,
  inr, arith, Bool-cases, All, All-take, All-select, length, select, text_comparable,
}
use shopback_cashback_ledger.Errors.{success}
use shopback_cashback_ledger.Effect.{ok}
use shopback_cashback_ledger.Services.{Services}
use shopback_cashback_ledger.World.{World}
use shopback_cashback_ledger.Consumer.{InboxRow}
use shopback_cashback_ledger.Replay.{InboxArgs, limit_or_default, inbox_where, replay_inbox}
use shopback_cashback_ledger.Replay.Pending.{
  selected, selected-IsStored, rows-read, replay_inbox_all-AllPending,
}
use shopback_cashback_ledger.Replay.Asked.{
  Within, Asked, inbox_where-Asked, select_mem, length-select_le, select_holds, take_mem,
}
use shopback_cashback_ledger.Replay.Rows.{
  Replayed, replay_inbox_all-Replayed, replay_inbox_all-other,
}

module _ (S : Services) where
  limit_enough : (limit : Option ℕ) (n : ℕ) → Within limit n → n ≤ limit_or_default limit
  limit_enough none n h = h
  limit_enough (some limit) n h = h

  module _ (row : InboxRow S) where
    read_same :
        (rs : List (InboxRow S)) (t : S.inbox.Rows)
        → S.inbox.find row.id t ≡ some row
        → All (λ r. S.inbox.find r.id t ≡ some r) rs
        → All (λ r. r.id ≡ row.id → r ≡ row) rs
    read_same [] t stored h = tt
    read_same (r ∷ rs) t stored (found, h) =
        (λ own. cc (ap (λ id. S.inbox.find id t) own, stored, found), read_same rs t stored h)

    none_own :
        (p : InboxRow S → Bool) (rs : List (InboxRow S))
        → p row ≡ false
        → All (λ r. r.id ≡ row.id → r ≡ row) rs
        → All (λ r. p r ≡ true) rs
        → All (λ r. r.id ≢ row.id) rs
    none_own p [] left h k = tt
    none_own p (r ∷ rs) left (same, h) (kept, k) =
        (λ own. cc (ap p (same own), left, kept), none_own p rs left h k)

    -- What has become of the row: it is replayed if it was asked for, and as it was if not.
    abbrev pub IsHandled : InboxArgs → Option (InboxRow S) → Type 0
    IsHandled args x =
        (Asked S args.source_event_id args.status row × Replayed S args.reset_attempts row x)
        ⊎ (¬ Asked S args.source_event_id args.status row × (x ≡ some row))

    -- If no call fails and the inbox has no more rows than the limit, which is 100 if none is given,
    -- a replay of the inbox ends without a throw. Then each row of the inbox that was asked for is
    -- pending, has no error, and has its attempts as they were, or 0 where that is asked for, and its
    -- other columns but the time of the next attempt as they were. Each other row is as it was. Asked
    -- for is the event of the given source, or, if none or an empty one is given, those of the given
    -- status, which is `FAILED` if none is given.
    pub replay_inbox-IsHandled :
        (calm : (n : ℕ) → S.outcome n ≡ success) (args : InboxArgs) (w : World S)
        → S.inbox.find row.id w.db.inbox ≡ some row
        → Within args.limit (length (S.inbox.rows w.db.inbox))
        → let (r, w') = replay_inbox S args w in
          (r ≡ ok tt) × IsHandled args (S.inbox.find row.id w'.db.inbox)
    replay_inbox-IsHandled calm args w stored few =
        let p = inbox_where S args.source_event_id args.status in
        let rows = S.inbox.rows w.db.inbox in
        let limit = limit_or_default args.limit in
        let w1 : World S = record w { calls = suc w.calls } in
        let all_stored = selected-IsStored S args w in
        let iff = inbox_where-Asked S args.source_event_id args.status row in
        let read = read_same (selected S args w) w.db.inbox stored (
          All-take _ limit (select p rows)
            (All-select _ p rows (S.inbox.find_of_rows w.db.inbox))) in
        rw (rows-read S calm args w) (
          (replay_inbox_all-AllPending S calm args.reset_attempts (selected S args w) w1
              all_stored).0,
          elim (Bool-cases (p row)) [
            | inl asked ↦
                let inside =
                  select_mem p row rows asked (S.inbox.rows_of_find row.id row w.db.inbox stored) in
                let enough : length (select p rows) ≤ limit =
                  omega
                    (arith, length-select_le p rows, limit_enough args.limit (length rows) few) in
                inl (
                  iff.0 asked,
                  replay_inbox_all-Replayed S args.reset_attempts row calm (selected S args w) w1
                      all_stored read (inl stored)
                      (take_mem row limit (select p rows) enough inside),
                )
            | inr left ↦
                let others =
                  none_own p (selected S args w) left read
                    (All-take _ limit (select p rows) (select_holds p rows)) in
                inr (
                  λ asked. cc (left, iff.1 asked),
                  replay_inbox_all-other S args.reset_attempts row calm (selected S args w) w1
                        all_stored others
                      ∙ stored,
                )
          ],
        )
