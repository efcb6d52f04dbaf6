-- ===== src/Calls/Quiet.antt =====
-- Postconditions of the effects that leave the tables alone: Redis, Kafka, metrics and time.
use shopback_cashback_ledger.Prelude.{ℕ, String, Bool, Option, none, some}
use shopback_cashback_ledger.Errors.{Error, Outcome, success, lost, unacknowledged, service}
use shopback_cashback_ledger.Effect.{Result, ok, err, after_final, conclude, finally}
use shopback_cashback_ledger.Services.{Services}
use shopback_cashback_ledger.World.{Db, World, Io, Message, Metrics}
use shopback_cashback_ledger.Calls.{
  deliver, append_event, append_dead_letter, send_event, send_dead_letter, count, now, cached,
  store, set_if_free, redis_get, redis_set, redis_set_nx, redis_del, wait,
}
use shopback_cashback_ledger.Calls.Post.{Post}

module _ {S : Services} {A : Type 0} where
  -- A call whose effect leaves the tables and the mark alone has any result at them.
  quiet :
      (o : Outcome) (r : Result A) (w' w : World S) (Q : Result A → Db S → Bool → Type 0)
      → Q r w'.db w'.aborted
      → ((e : Error) → Q (err e) w.db w.aborted)
      → ((e : Error) → Q (err e) w'.db w'.aborted)
      → let (r'', w'') = deliver S o (r, w') w in Q r'' w''.db w''.aborted
  unfolding deliver
  quiet success r w' w Q h k l = h
  quiet (lost f) r w' w Q h k l = k (service f)
  quiet (unacknowledged f) r w' w Q h k l = l (service f)

module _ {S : Services} where
  freed :
      (k v : String) (o : Option String) (w : World S) (Q : Result Bool → Db S → Bool → Type 0)
      → ((r : Result Bool) → Q r w.db w.aborted)
      → let (r', w') = deliver S (S.outcome w.calls) (set_if_free S k v w o) w in
        Q r' w'.db w'.aborted
  freed k v none w Q h =
      quiet (S.outcome w.calls) _ (store S k (some v) w) w Q (h _) (λ e. h _) (λ e. h _)
  freed k v (some old) w Q h = quiet (S.outcome w.calls) _ w w Q (h _) (λ e. h _) (λ e. h _)

module _ {S : Services} {d : Db S} {b : Bool} where
  pub Post-count :
      (f : Metrics → Metrics) (Q : Result (Unit {0}) → Db S → Bool → Type 0)
      → Q (ok tt) d b
      → Post (count S f) d b Q
  unfolding count
  Post-count f Q h = record { at = λ w. h }

  pub Post-now :
      (Q : Result ℕ → Db S → Bool → Type 0) → ((n : ℕ) → Q (ok n) d b) → Post (now S) d b Q
  unfolding now
  Post-now Q h = record { at = λ w. h (S.clock w.calls) }

  pub Post-wait :
      (Q : Result (Unit {0}) → Db S → Bool → Type 0) → Q (ok tt) d b → Post (wait S) d b Q
  unfolding wait
  Post-wait Q h = record { at = λ w. h }

  pub Post-redis_get :
      (k : String) (Q : Result (Option String) → Db S → Bool → Type 0)
      → ((r : Result (Option String)) → Q r d b)
      → Post (redis_get S k) d b Q
  unfolding redis_get
  Post-redis_get k Q h = record {
    at = λ w.
        let w₀ = record w { db = d; aborted = b } in
        quiet (S.outcome w.calls) (ok (cached S k w₀)) w₀ w₀ Q (h _) (λ e. h _) (λ e. h _);
  }

  pub Post-redis_set :
      (k v : String) (Q : Result (Unit {0}) → Db S → Bool → Type 0)
      → ((r : Result (Unit {0})) → Q r d b)
      → Post (redis_set S k v) d b Q
  unfolding redis_set
  Post-redis_set k v Q h = record {
    at = λ w.
        let w₀ = record w { db = d; aborted = b } in
        quiet (S.outcome w.calls) (ok tt) (store S k (some v) w₀) w₀ Q (h _) (λ e. h _) (λ e. h _);
  }

  pub Post-redis_del :
      (k : String) (Q : Result (Unit {0}) → Db S → Bool → Type 0)
      → ((r : Result (Unit {0})) → Q r d b)
      → Post (redis_del S k) d b Q
  unfolding redis_del
  Post-redis_del k Q h = record {
    at = λ w.
        let w₀ = record w { db = d; aborted = b } in
        quiet (S.outcome w.calls) (ok tt) (store S k none w₀) w₀ Q (h _) (λ e. h _) (λ e. h _);
  }

  pub Post-redis_set_nx :
      (k v : String) (Q : Result Bool → Db S → Bool → Type 0)
      → ((r : Result Bool) → Q r d b)
      → Post (redis_set_nx S k v) d b Q
  unfolding redis_set_nx
  Post-redis_set_nx k v Q h = record {
    at = λ w. let w₀ = record w { db = d; aborted = b } in freed k v (cached S k w₀) w₀ Q h;
  }

  pub Post-send_event :
      (m : Message S) (Q : Result (Unit {0}) → Db S → Bool → Type 0)
      → ((r : Result (Unit {0})) → Q r d b)
      → Post (send_event S m) d b Q
  unfolding send_event
  Post-send_event m Q h = record {
    at = λ w.
        let w₀ = record w { db = d; aborted = b } in
        quiet (S.outcome w.calls) (ok tt) (append_event S m w₀).1 w₀ Q (h _) (λ e. h _) (λ e. h _);
  }

  pub Post-send_dead_letter :
      (m : Message S) (Q : Result (Unit {0}) → Db S → Bool → Type 0)
      → ((r : Result (Unit {0})) → Q r d b)
      → Post (send_dead_letter S m) d b Q
  unfolding send_dead_letter
  Post-send_dead_letter m Q h = record {
    at = λ w.
        let w₀ = record w { db = d; aborted = b } in
        quiet (S.outcome w.calls) (ok tt) (append_dead_letter S m w₀).1 w₀ Q (h _) (λ e. h _)
          (λ e. h _);
  }

module _ {S : Services} {A : Type 0} where
  -- What the second part of `finally` must keep: the result of the first, or its own error.
  abbrev pub Concluded :
      (Result A → Db S → Bool → Type 0) → Result A → Result (Unit {0}) → Db S → Bool → Type 0
  Concluded Q r (ok done) d b = Q r d b
  Concluded Q r (err e) d b = Q (err e) d b

  told :
      (Q : Result A → Db S → Bool → Type 0) (r : Result A) (end : Result (Unit {0})) (w : World S)
      → Concluded Q r end w.db w.aborted
      → Q (after_final r end) w.db w.aborted
  unfolding after_final
  told Q r (ok done) w h = h
  told Q r (err e) w h = h

  concluded :
      (Q : Result A → Db S → Bool → Type 0) (r : Result A) (f : Io S (Unit {0})) (w : World S)
      → Post f w.db w.aborted (Concluded Q r)
      → let (r', w') = conclude r f w in Q r' w'.db w'.aborted
  unfolding conclude
  concluded Q r f w k = let (end, w') = f w in told Q r end w' (k.at w)

  pub Post-finally :
      (m : Io S A) (f : Io S (Unit {0})) {d : Db S} {b : Bool} (Q : Result A → Db S → Bool → Type 0)
      → Post m d b (λ r d' b'. Post f d' b' (Concluded Q r))
      → Post (finally m f) d b Q
  unfolding finally
  Post-finally m f {d} {b} Q k = record {
    at = λ w. let (r, w') = m (record w { db = d; aborted = b }) in concluded Q r f w' (k.at w);
  }
