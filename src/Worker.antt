-- ===== src/Worker.antt =====
-- The process of the worker: `main` of apps/worker/src/index.ts, with the start of the consumer
-- (apps/worker/src/consumer.ts), of the retries (apps/worker/src/inbox-retry.ts), of the metrics
-- server (apps/worker/src/metrics-server.ts) and of the refresh (apps/worker/src/metrics-refresh.ts).
-- Node.js runs these loops by turns. The server and the refresh start before the producer is
-- connected.
pub mod Ends
use shopback_cashback_ledger.Prelude.{ℕ, List, [], ◌∷◌, map}
use shopback_cashback_ledger.Effect.{Result, ok, err, pure, ◌>>=◌, ◌>>◌}
use shopback_cashback_ledger.Services.{Services}
use shopback_cashback_ledger.World.{World, Io}
use shopback_cashback_ledger.Calls.{perform}
use shopback_cashback_ledger.Outbox.{Settings, publish_round}
use shopback_cashback_ledger.Retry.{retry_once}
use shopback_cashback_ledger.Consumer.{Delivery, each_message}
use shopback_cashback_ledger.Gauges.{tick}

-- What a loop or a callback does until it waits.
pub data Turn : Type 0 where
  consumer_starts : Turn
  retries_start : Turn
  publisher_polls : Settings → Turn
  retries_poll : Settings → Turn
  message_arrives : Delivery → Turn
  gauges_refresh : Turn
  server_listens : Turn

-- What can happen while `main` waits for the producer.
pub data EarlyTurn : Type 0 where
  early_listens : EarlyTurn
  early_refresh : EarlyTurn

abbrev pub to_turn : EarlyTurn → Turn
to_turn early_listens = server_listens
to_turn early_refresh = gauges_refresh

module _ (S : Services) where
  pub data Process : Type 0 where
    running : World S → Process
    exited : ℕ → World S → Process

  -- `connect()`, `subscribe(...)` and `run(...)` of KafkaJS, which change no state of this model
  unfoldable pub connect : Io S (Unit {0})
  connect = perform S (pure tt)

  unfoldable pub start_consumer : Io S (Unit {0})
  unfolding connect
  start_consumer = connect >> connect >> connect

  -- `server.listen(port, ...)`: nothing listens for the server's event `error`, so that Node.js ends
  -- the process with it, by the code 1, as it does with an error that nothing catches
  unfoldable pub start_metrics_server : Io S (Unit {0})
  start_metrics_server = perform S (pure tt)

  abbrev pub take_turn : Turn → Io S (Unit {0})
  take_turn consumer_starts = start_consumer
  take_turn retries_start = connect
  take_turn (publisher_polls settings) = publish_round S settings
  take_turn (retries_poll settings) = retry_once S settings
  take_turn (message_arrives message) = each_message S message
  take_turn gauges_refresh = tick S
  take_turn server_listens = start_metrics_server

  -- `.catch((e) => { ...; process.exit(1); })`
  abbrev pub or_exit : Result (Unit {0}) × World S → Process
  or_exit (ok done, w) = running w
  or_exit (err e, w) = exited 1 w

  -- The turns in an order, until the process ends.
  unfoldable pub run_turns : List Turn → Process → Process
  run_turns [] p = p
  run_turns (t ∷ ts) (running w) = run_turns ts (or_exit (take_turn t w))
  run_turns (t ∷ ts) (exited code w) = exited code w

  -- `await producer.connect()`, if the process still runs
  unfoldable pub connect_producer : Process → Process
  unfolding connect
  connect_producer (running w) = or_exit (connect w)
  connect_producer (exited code w) = exited code w

  -- `main`: the loops start when the producer is connected.
  unfoldable pub main : List EarlyTurn → List Turn → World S → Process
  unfolding run_turns connect_producer
  main early ts w = run_turns ts (connect_producer (run_turns (map to_turn early) (running w)))
