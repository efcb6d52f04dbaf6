-- ===== src/Tests/Worker.antt =====
-- The theorem on the worker's process, whose search for due inbox events is lost.
use shopback_cashback_ledger.Prelude.{ℕ, zero, suc, List, [], ◌∷◌}
use shopback_cashback_ledger.Schema.{confirmed}
use shopback_cashback_ledger.Errors.{Outcome, success, lost, other_fault}
use shopback_cashback_ledger.Services.{Services}
use shopback_cashback_ledger.World.{World}
use shopback_cashback_ledger.Effect.{pure, ◌>>=◌}
use shopback_cashback_ledger.Calls.{perform, now, call}
use shopback_cashback_ledger.Retry.{retry_once}
use shopback_cashback_ledger.Worker.{
  start_metrics_server, start_consumer, Turn, EarlyTurn, early_listens, consumer_starts,
  retries_start, retries_poll, gauges_refresh, exited, main,
}
use shopback_cashback_ledger.Worker.Ends.{MainExplained, main-Explained}
use shopback_cashback_ledger.Tests.Toy.{toy_with, parse_event, world_of, settings}

-- The seventh call is lost.
abbrev seventh_lost : ℕ → Outcome
seventh_lost (suc (suc (suc (suc (suc (suc zero)))))) = lost (other_fault "connection reset")
seventh_lost _ = success

abbrev broken : Services
broken = toy_with seventh_lost parse_event

abbrev start : World broken
start = world_of seventh_lost parse_event confirmed

abbrev early : List EarlyTurn
early = early_listens ∷ []

abbrev turns : List Turn
turns = consumer_starts ∷ retries_start ∷ retries_poll settings ∷ gauges_refresh ∷ []

-- The process has ended, and the last turn is not taken.
main-Explained_example :
    MainExplained broken early turns start (exited 1 (record start { calls = 7 }))
unfolding main start_metrics_server perform pure start_consumer ◌>>=◌ retry_once now call
main-Explained_example = main-Explained broken early turns start
