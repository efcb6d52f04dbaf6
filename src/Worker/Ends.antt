-- ===== src/Worker/Ends.antt =====
-- When the process of the worker ends.
use shopback_cashback_ledger.Prelude.{
  ℕ, Bool, true, false, List, [], ◌∷◌, map, ◌≡◌, refl, ap, ◌⊎◌, inl, inr, Bool-cases,
}
use shopback_cashback_ledger.Errors.{Error, Fault, lost}
use shopback_cashback_ledger.Effect.{Result, ok, err, pure, catch, handle, ◌>>=◌}
use shopback_cashback_ledger.Services.{Services}
use shopback_cashback_ledger.World.{World}
use shopback_cashback_ledger.Calls.{tick as next_call, call, now}
use shopback_cashback_ledger.Outbox.{
  Settings, publish_round, publish_once, due_events as due_outbox,
}
use shopback_cashback_ledger.Retry.{retry_once, due_events as due_inbox}
use shopback_cashback_ledger.Consumer.Messages.{each_message_total}
use shopback_cashback_ledger.Gauges.{tick}
use shopback_cashback_ledger.Worker.{
  Turn, consumer_starts, retries_start, publisher_polls, retries_poll, message_arrives,
  gauges_refresh, server_listens, EarlyTurn, to_turn, connect_producer, Process, running, exited,
  connect, take_turn, or_exit, run_turns, main,
}

-- The turns whose errors nothing catches before `process.exit`.
abbrev pub may_end : Turn → Bool
may_end consumer_starts = true
may_end retries_start = true
may_end (retries_poll settings) = true
may_end server_listens = true
may_end other = false

module _ (S : Services) where
  caught : (r : Result (Unit {0})) (w : World S) → (handle r (λ e. pure tt) w).0 ≡ ok tt
  unfolding handle pure
  caught (ok done) w = refl
  caught (err e) w = refl

  -- A turn of the publisher, of a message or of the refresh throws nothing.
  take_turn_total : (t : Turn) (w : World S) → may_end t ≡ false → (take_turn S t w).0 ≡ ok tt
  unfolding publish_round tick catch
  take_turn_total (publisher_polls settings) w h = caught _ _
  take_turn_total (message_arrives message) w h = each_message_total S message w
  take_turn_total gauges_refresh w h = caught _ _
  take_turn_total consumer_starts w h = absurd cc
  take_turn_total retries_start w h = absurd cc
  take_turn_total server_listens w h = absurd cc
  take_turn_total (retries_poll settings) w h = absurd cc

  -- One of the turns throws where nothing catches it, and it may end the process.
  abbrev pub Throws : List Turn → World S → Type 0
  Throws [] w = ⊥
  Throws (t ∷ ts) w =
      ((may_end t ≡ true) × (e : Error) × ((take_turn S t w).0 ≡ err e))
      ⊎ Throws ts (take_turn S t w).1

  -- The world after turns none of which has ended the process.
  abbrev pub world_after : List Turn → World S → World S
  world_after [] w = w
  world_after (t ∷ ts) w = world_after ts (take_turn S t w).1

  abbrev pub Explained : List Turn → World S → Process S → Type 0
  Explained ts w (running v) = (v ≡ world_after ts w) × ¬ Throws ts w
  Explained ts w (exited code v) = (code ≡ 1) × Throws ts w

  run_exited :
      (ts : List Turn) (code : ℕ) (w : World S) → run_turns S ts (exited code w) ≡ exited code w
  unfolding run_turns
  run_exited [] code w = refl
  run_exited (t ∷ ts) code w = refl

  -- An error that ends the process is one of a turn that may end it.
  ends : (t : Turn) (w : World S) (e : Error) → (take_turn S t w).0 ≡ err e → may_end t ≡ true
  ends t w e h = elim (Bool-cases (may_end t)) [
    | inl ended ↦ ended
    | inr never ↦ absurd (cc (take_turn_total t w never, h))
  ]

  later :
      (t : Turn) (ts : List Turn) (w : World S) (p : Process S)
      → (take_turn S t w).0 ≡ ok tt
      → Explained ts (take_turn S t w).1 p
      → Explained (t ∷ ts) w p
  later t ts w (running v) done (same, none) = (
    same,
    λ throws. elim throws [ inl (ended, e, thrown) ↦ cc (done, thrown) | inr rest ↦ none rest ],
  )
  later t ts w (exited code v) done (one, throws) = (one, inr throws)

  after_turn :
      (t : Turn) (ts : List Turn) (w : World S) (x : Result (Unit {0}) × World S)
      → take_turn S t w ≡ x
      → Explained ts x.1 (run_turns S ts (running x.1))
      → Explained (t ∷ ts) w (run_turns S ts (or_exit S x))
  after_turn t ts w (ok done, v) same h =
      later t ts w _ (ap (λ (x : Result (Unit {0}) × World S). x.0) same) (rw same h)
  after_turn t ts w (err e, v) same h =
      let thrown : (take_turn S t w).0 ≡ err e =
        ap (λ (x : Result (Unit {0}) × World S). x.0) same in
      rw (run_exited ts 1 v) (refl, inl (ends t w e thrown, e, thrown))

  run_turns-Explained : (ts : List Turn) (w : World S) → Explained ts w (run_turns S ts (running w))
  unfolding run_turns
  run_turns-Explained [] w = (refl, λ throws. throws)
  run_turns-Explained (t ∷ ts) w =
      after_turn t ts w (take_turn S t w) refl (run_turns-Explained ts (take_turn S t w).1)

  -- An error that ends the process: before the producer is connected, of the producer, or later.
  abbrev pub Fatal : List EarlyTurn → List Turn → World S → Type 0
  Fatal early ts w =
      let v = world_after (map to_turn early) w in
      Throws (map to_turn early) w
      ⊎ ((e : Error) × ((connect S v).0 ≡ err e))
      ⊎ Throws ts (connect S v).1

  abbrev pub MainExplained : List EarlyTurn → List Turn → World S → Process S → Type 0
  MainExplained early ts w (running v) = ¬ Fatal early ts w
  MainExplained early ts w (exited code v) = (code ≡ 1) × Fatal early ts w

  -- The loops after the producer is connected.
  after_connect :
      (early : List EarlyTurn) (ts : List Turn) (w : World S)
      → ¬ Throws (map to_turn early) w
      → (x : Result (Unit {0}) × World S) → connect S (world_after (map to_turn early) w) ≡ x
      → (p : Process S) → Explained ts x.1 p
      → x.0 ≡ ok tt
      → MainExplained early ts w p
  after_connect early ts w calm x same (running v) (end, none) done = λ fatal. elim fatal [
    | inl thrown ↦ calm thrown
    | inr (inl (e, refused)) ↦ cc (same, done, refused)
    | inr (inr thrown) ↦ none (rw (← same) thrown)
  ]
  after_connect early ts w calm x same (exited code v) (one, throws) done =
      (one, inr (inr (rw same throws)))

  after_early :
      (early : List EarlyTurn) (ts : List Turn) (w : World S)
      → ¬ Throws (map to_turn early) w
      → (x : Result (Unit {0}) × World S) → connect S (world_after (map to_turn early) w) ≡ x
      → MainExplained early ts w (run_turns S ts (or_exit S x))
  after_early early ts w calm (ok done, v) same =
      after_connect early ts w calm (ok done, v) same _ (run_turns-Explained ts v) refl
  after_early early ts w calm (err e, v) same =
      rw (run_exited ts 1 v)
        (refl, inr (inl (e, ap (λ (x : Result (Unit {0}) × World S). x.0) same)))

  started :
      (early : List EarlyTurn) (ts : List Turn) (w : World S) (p : Process S)
      → Explained (map to_turn early) w p
      → MainExplained early ts w (run_turns S ts (connect_producer S p))
  unfolding connect_producer
  started early ts w (running v) (same, calm) =
      rw same (after_early early ts w calm (connect S (world_after (map to_turn early) w)) refl)
  started early ts w (exited code v) (one, throws) = rw (run_exited ts code v) (one, inl throws)

  -- However the worker's loops and callbacks take turns, and whatever calls fail, the errors that
  -- end its process, with the code 1, are just those of the metrics server, of the connection of the
  -- producer, of the start of the consumer or of the retries, and of a round of the retries: it ends
  -- if there is one, and else it runs. The publisher, a message and the refresh of the gauges never
  -- end it.
  pub main-Explained :
      (early : List EarlyTurn) (ts : List Turn) (w : World S)
      → MainExplained early ts w (main S early ts w)
  unfolding main
  main-Explained early ts w = started early ts w _ (run_turns-Explained (map to_turn early) w)

  -- If the search for due events is lost, a turn of the publisher goes on, and a turn of the retries
  -- ends the process with the code 1.
  pub lost_search :
      (settings : Settings) (w : World S) {f : Fault}
      → S.outcome w.calls ≡ lost f
      → (run_turns S (publisher_polls settings ∷ []) (running w) ≡ running (next_call S w))
        × (run_turns S (retries_poll settings ∷ []) (running w) ≡ exited 1 (next_call S w))
  unfolding run_turns publish_round publish_once due_outbox retry_once due_inbox catch call now pure
      ◌>>=◌
  lost_search settings w h = (rw h refl, rw h refl)
