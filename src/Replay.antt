-- ===== src/Replay.antt =====
-- apps/worker/src/replay.ts: the command that puts events of the inbox or of the outbox back to
-- pending. Its arguments are those that Replay.Command reads from the command line.
pub mod Arguments
pub mod Command
pub mod Pending
pub mod Asked
pub mod Rows
pub mod Handled
use shopback_cashback_ledger.Prelude.{
  ℕ, String, Bool, true, false, Option, none, some, List, [], ◌∷◌, ◌==◌, text_comparable,
  if◌then◌else◌,
}
use shopback_cashback_ledger.Schema.{OutboxStatus, InboxStatus, pending, processed, sent, failed}
use shopback_cashback_ledger.Effect.{pure, ◌>>=◌, ◌>>◌}
use shopback_cashback_ledger.Services.{Services}
use shopback_cashback_ledger.World.{Io}
use shopback_cashback_ledger.Calls.{call, now}
use shopback_cashback_ledger.Queries.{update, find_many, on_inbox, on_outbox}
use shopback_cashback_ledger.Orders.{OutboxRow}
use shopback_cashback_ledger.Consumer.{InboxRow, has_source}

abbrev pub same_inbox_status : InboxStatus → InboxStatus → Bool
same_inbox_status pending pending = true
same_inbox_status processed processed = true
same_inbox_status failed failed = true
same_inbox_status _ _ = false

abbrev pub same_outbox_status : OutboxStatus → OutboxStatus → Bool
same_outbox_status pending pending = true
same_outbox_status sent sent = true
same_outbox_status failed failed = true
same_outbox_status _ _ = false

-- `args.status`, `args.limit` and `args.resetAttempts`, where they are given
pub record InboxArgs : Type 0 where
  pub source_event_id : Option String
  pub status : Option InboxStatus
  pub limit : Option ℕ
  pub reset_attempts : Bool

pub record OutboxArgs : Type 0 where
  pub status : Option OutboxStatus
  pub limit : Option ℕ
  pub reset_attempts : Bool

-- `Number(args.limit ?? '100')`
abbrev pub limit_or_default : Option ℕ → ℕ
limit_or_default none = 100
limit_or_default (some n) = n

abbrev pub inbox_status_or_failed : Option InboxStatus → InboxStatus
inbox_status_or_failed none = failed
inbox_status_or_failed (some status) = status

abbrev pub outbox_status_or_failed : Option OutboxStatus → OutboxStatus
outbox_status_or_failed none = failed
outbox_status_or_failed (some status) = status

abbrev pub attempts_after : Bool → ℕ → ℕ
attempts_after reset attempts = if reset then 0 else attempts

module _ (S : Services) where
  abbrev pub has_status : Option InboxStatus → InboxRow S → Bool
  has_status status e = same_inbox_status e.status (inbox_status_or_failed status)

  -- `sourceEventId ? { sourceEventId } : { status }`
  abbrev pub inbox_where : Option String → Option InboxStatus → InboxRow S → Bool
  inbox_where none status e = has_status status e
  inbox_where (some id) status e = if id == "" then has_status status e else has_source S id e

  abbrev pub outbox_where : Option OutboxStatus → OutboxRow S → Bool
  outbox_where status e = same_outbox_status e.status (outbox_status_or_failed status)

  abbrev pub set_inbox_pending : ℕ → ℕ → InboxRow S → InboxRow S
  set_inbox_pending time attempts e = record e {
    status = pending;
    available_at = time;
    last_error = none;
    attempts = attempts;
  }

  abbrev pub set_outbox_pending : ℕ → ℕ → OutboxRow S → OutboxRow S
  set_outbox_pending time attempts e = record e {
    status = pending;
    available_at = time;
    last_error = none;
    attempts = attempts;
    sent_at = none;
  }

  -- The attempts are those of the row as it was read.
  unfoldable pub replay_inbox_event : Bool → InboxRow S → Io S (Unit {0})
  replay_inbox_event reset r = do
    time ← now S
    call S (
        on_inbox S (update S.inbox r.id (set_inbox_pending time (attempts_after reset r.attempts))))
    pure tt

  unfoldable pub replay_outbox_event : Bool → OutboxRow S → Io S (Unit {0})
  replay_outbox_event reset r = do
    time ← now S
    call S (
        on_outbox S
          (update S.outbox r.id (set_outbox_pending time (attempts_after reset r.attempts))))
    pure tt

  unfoldable pub replay_inbox_all : Bool → List (InboxRow S) → Io S (Unit {0})
  replay_inbox_all reset [] = pure tt
  replay_inbox_all reset (r ∷ rs) = replay_inbox_event reset r >> replay_inbox_all reset rs

  unfoldable pub replay_outbox_all : Bool → List (OutboxRow S) → Io S (Unit {0})
  replay_outbox_all reset [] = pure tt
  replay_outbox_all reset (r ∷ rs) = replay_outbox_event reset r >> replay_outbox_all reset rs

  unfoldable pub replay_inbox : InboxArgs → Io S (Unit {0})
  replay_inbox args = do
    rows ← call S (
        on_inbox S (
          find_many S.inbox (limit_or_default args.limit)
            (inbox_where args.source_event_id args.status)))
    replay_inbox_all args.reset_attempts rows

  unfoldable pub replay_outbox : OutboxArgs → Io S (Unit {0})
  replay_outbox args = do
    rows ←
        call S (
          on_outbox S (find_many S.outbox (limit_or_default args.limit) (outbox_where args.status)))
    replay_outbox_all args.reset_attempts rows
