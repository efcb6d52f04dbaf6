-- ===== src/Gauges.antt =====
-- apps/worker/src/metrics-refresh.ts: one tick of startMetricsRefresh, which sets the three gauges
-- to counts of the tables.
pub mod Refreshed
use shopback_cashback_ledger.Prelude.{ℕ, Bool, true, false}
use shopback_cashback_ledger.Schema.{OutboxStatus, InboxStatus, pending, processed, failed, sent}
use shopback_cashback_ledger.Errors.{Error}
use shopback_cashback_ledger.Effect.{Result, ok, err, pure, raise, catch, ◌>>=◌, ◌>>◌}
use shopback_cashback_ledger.Services.{Services}
use shopback_cashback_ledger.World.{Metrics, Io}
use shopback_cashback_ledger.Calls.{call, count}
use shopback_cashback_ledger.Queries.{count_rows, on_inbox, on_outbox}
use shopback_cashback_ledger.Orders.{OutboxRow}
use shopback_cashback_ledger.Consumer.{InboxRow}
use shopback_cashback_ledger.Replay.{same_inbox_status, same_outbox_status}

-- `inboxPendingGauge.set`, `inboxFailedGauge.set` and `outboxPendingGauge.set`
abbrev pub set_gauges : ℕ → ℕ → ℕ → Metrics → Metrics
set_gauges inbox_pending inbox_failed outbox_pending m = record m {
  inbox_pending = inbox_pending;
  inbox_failed = inbox_failed;
  outbox_pending = outbox_pending;
}

module _ (S : Services) where
  abbrev pub inbox_has : InboxStatus → InboxRow S → Bool
  inbox_has status e = same_inbox_status e.status status

  abbrev pub outbox_has : OutboxStatus → OutboxRow S → Bool
  outbox_has status e = same_outbox_status e.status status

  module _ {A : Type 0} where
    -- One promise of `Promise.all`, which goes on whether or not another one has failed.
    unfoldable pub settle : Io S A → Io S (Result A)
    settle m = catch (do a ← m; pure (ok a)) (λ e. pure (err e))

    unfoldable pub settled : Result A → Io S A
    settled (ok a) = pure a
    settled (err e) = raise e

  unfoldable pub refresh : Io S (Unit {0})
  unfolding settle settled
  refresh = do
    first ← settle (call S (on_inbox S (count_rows S.inbox (inbox_has pending))))
    second ← settle (call S (on_inbox S (count_rows S.inbox (inbox_has failed))))
    third ← settle (call S (on_outbox S (count_rows S.outbox (outbox_has pending))))
    inbox_pending ← settled first
    inbox_failed ← settled second
    outbox_pending ← settled third
    count S (set_gauges inbox_pending inbox_failed outbox_pending)

  -- `tick`: a failure is logged.
  unfoldable pub tick : Io S (Unit {0})
  unfolding refresh
  tick = catch refresh (λ e. pure tt)
