-- ===== src/Calls.antt =====
-- External calls. The code under apps/ and packages/ writes `prisma.x.y(...)` for a call of its own
-- and `tx.x.y(...)` for a statement of a transaction; `redis.x(...)` and `producer.send(...)` are
-- calls too. Each may fail before or after its effect, as the environment decides.
pub mod Respects
pub mod Post
pub mod Quiet
pub mod Ensures
pub mod Answers
use shopback_cashback_ledger.Prelude.{
  suc, ℕ, String, Bool, true, false, Option, none, some, [], ◌∷◌, ◌++◌, if◌then◌else◌,
}
use shopback_cashback_ledger.Errors.{
  Outcome, success, lost, unacknowledged, service, transaction_aborted,
}
use shopback_cashback_ledger.Effect.{Result, ok, err}
use shopback_cashback_ledger.Services.{Services}
use shopback_cashback_ledger.World.{Db, Message, Metrics, World, Io}

-- What a database call does to the tables.
abbrev pub Action : Services → Type 0 → Type 0
Action S A = Db S → Result A × Db S

module _ (S : Services) where
  abbrev pub tick : World S → World S
  tick w = record w { calls = suc w.calls }

  unfoldable pub deliver :
      {A : Type 0} → Outcome → Result A × World S → World S → Result A × World S
  deliver success (r, w') w = (r, tick w')
  deliver (lost f) rw w = (err (service f), tick w)
  deliver (unacknowledged f) (r, w') w = (err (service f), tick w')

  -- One external call, with its effect.
  unfoldable pub perform : {A : Type 0} → Io S A → Io S A
  unfolding deliver
  perform effect w = deliver (S.outcome w.calls) (effect w) w

  abbrev pub on_db : {A : Type 0} → Action S A → Io S A
  on_db act w = let (r, d) = act w.db in (r, record w { db = d })

  -- One call of the database client.
  unfoldable pub call : {A : Type 0} → Action S A → Io S A
  unfolding perform
  call act = perform (on_db act)

  unfoldable pub note_failure : {A : Type 0} → Result A → World S → World S
  note_failure (ok a) w = w
  note_failure (err e) w = record w { aborted = S.aborts }

  unfoldable pub unless_aborted : {A : Type 0} → Bool → Action S A → Io S A
  unfolding call note_failure
  unless_aborted true act w = (err transaction_aborted, tick w)
  unless_aborted false act w = let (r, w') = call act w in (r, note_failure r w')

  -- One statement of a transaction.
  unfoldable pub statement : {A : Type 0} → Action S A → Io S A
  unfolding unless_aborted
  statement act w = unless_aborted w.aborted act w

  abbrev pub roll_back : Db S → World S → World S
  roll_back d w = record w { db = d; aborted = false }

  abbrev pub committed : Db S → World S → World S
  committed d w = if w.aborted then roll_back d w else w

  unfoldable pub commit : {A : Type 0} → Outcome → Db S → A → World S → Result A × World S
  commit success d a w = (ok a, tick (committed d w))
  commit (lost f) d a w = (err (service f), tick (roll_back d w))
  commit (unacknowledged f) d a w = (err (service f), tick (committed d w))

  unfoldable pub finish : {A : Type 0} → Db S → Result A → World S → Result A × World S
  unfolding commit
  finish d (ok a) w = commit (S.outcome w.calls) d a w
  finish d (err e) w = (err e, roll_back d w)

  -- `prisma.$transaction(async (tx) => { ... })`: what throws is rolled back.
  unfoldable pub transaction : {A : Type 0} → Io S A → Io S A
  unfolding finish
  transaction m w = let (r, w') = m (record w { aborted = false }) in finish w.db r w'

  -- `Date.now()`, and the id of a new row, at the next call.
  unfoldable pub now : Io S ℕ
  now w = (ok (S.clock w.calls), w)

  unfoldable pub new_id : Io S String
  new_id w = (ok (S.uuid w.calls), w)

  abbrev pub append_event : Message S → Io S (Unit {0})
  append_event m w = (ok tt, record w { events = w.events ++ m ∷ [] })

  abbrev pub append_dead_letter : Message S → Io S (Unit {0})
  append_dead_letter m w = (ok tt, record w { dead_letters = w.dead_letters ++ m ∷ [] })

  -- `producer.send` to the topic of order events, and to the dead letter topic
  unfoldable pub send_event : Message S → Io S (Unit {0})
  unfolding perform
  send_event m = perform (append_event m)

  unfoldable pub send_dead_letter : Message S → Io S (Unit {0})
  unfolding perform
  send_dead_letter m = perform (append_dead_letter m)

  -- `counter.inc(1)` and `gauge.set(n)`
  unfoldable pub count : (Metrics → Metrics) → Io S (Unit {0})
  count f w = (ok tt, record w { metrics = f w.metrics })

  -- The value under a key of Redis, if it has one that has not expired.
  abbrev pub cached : String → World S → Option String
  cached k w =
      if S.expired w.calls k
      then none
      else elim (S.cache.find k w.cache) [ none ↦ none | some e ↦ e.value ]

  abbrev pub store : String → Option String → World S → World S
  store k v w = record w { cache = S.cache.write (record { key = k; value = v }) w.cache }

  -- `redis.get(k)`
  unfoldable pub redis_get : String → Io S (Option String)
  unfolding perform
  redis_get k = perform (λ w. (ok (cached k w), w))

  -- `redis.set(k, v, 'EX', ttl)`; when the key expires is the environment's choice
  unfoldable pub redis_set : String → String → Io S (Unit {0})
  unfolding perform
  redis_set k v = perform (λ w. (ok tt, store k (some v) w))

  abbrev pub set_if_free : String → String → World S → Option String → Result Bool × World S
  set_if_free k v w none = (ok true, store k (some v) w)
  set_if_free k v w (some old) = (ok false, w)

  -- `redis.set(k, v, 'PX', ttl, 'NX')`: true for the answer 'OK'
  unfoldable pub redis_set_nx : String → String → Io S Bool
  unfolding perform
  redis_set_nx k v = perform (λ w. set_if_free k v w (cached k w))

  -- `redis.del(k)`
  unfoldable pub redis_del : String → Io S (Unit {0})
  unfolding perform
  redis_del k = perform (λ w. (ok tt, store k none w))

  -- `setTimeout`: other processes go on meanwhile
  unfoldable pub wait : Io S (Unit {0})
  wait w = (ok tt, record w { cache = S.meanwhile w.calls w.cache; calls = suc w.calls })
