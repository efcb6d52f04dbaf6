-- ===== src/Calls/Respects.antt =====
-- Relations between the tables before and after an effect, whatever calls of it fail: one rule for
-- each way to build an effect. A relation that is reflexive and transitive and that each database
-- action respects is respected by the whole program.
use shopback_cashback_ledger.Prelude.{String, Bool, true, false, Option, none, some, if◌then◌else◌}
use shopback_cashback_ledger.Errors.{Error, Outcome, success, lost, unacknowledged}
use shopback_cashback_ledger.Effect.{
  Result, ok, err, pure, raise, catch, handle, continue, or_else, finally, ◌>>=◌,
}
use shopback_cashback_ledger.Services.{Services}
use shopback_cashback_ledger.World.{Db, World, Io, Message, Metrics}
use shopback_cashback_ledger.Calls.{
  Action, deliver, on_db, call, note_failure, unless_aborted, statement, roll_back, commit, finish,
  transaction, now, new_id, append_event, append_dead_letter, send_event, send_dead_letter, count,
  cached, store, set_if_free, redis_get, redis_set, redis_set_nx, redis_del, wait,
}

-- A preorder on the tables.
pub record Relation (S : Services) : Type 1 where
  pub Rel : Db S → Db S → Type 0
  pub rel_refl : (d : Db S) → Rel d d
  pub rel_trans : (a b c : Db S) → Rel a b → Rel b c → Rel a c

module _ {S : Services} where
  pub record Respects (R : Relation S) {A : Type 0} (m : Io S A) : Type 0 where
    pub at : (w : World S) → R.Rel w.db (m w).1.db

  pub record ActionRespects (R : Relation S) {A : Type 0} (act : Action S A) : Type 0 where
    pub at : (d : Db S) → R.Rel d (act d).1

module _ {S : Services} (R : Relation S) where
  committed_step :
      (b : Bool) (d : Db S) (w : World S)
      → R.Rel d w.db
      → R.Rel d (if b then roll_back S d w else w).db
  committed_step true d w k = R.rel_refl d
  committed_step false d w k = k

module _ {S : Services} (R : Relation S) {A : Type 0} where
  commit_step :
      (o : Outcome) (d : Db S) (a : A) (w : World S)
      → R.Rel d w.db
      → R.Rel d (commit S o d a w).1.db
  unfolding commit
  commit_step success d a w k = committed_step R w.aborted d w k
  commit_step (lost f) d a w k = R.rel_refl d
  commit_step (unacknowledged f) d a w k = committed_step R w.aborted d w k

  finish_step :
      (r : Result A) (d : Db S) (w : World S) → R.Rel d w.db → R.Rel d (finish S d r w).1.db
  unfolding finish
  finish_step (err e) d w k = R.rel_refl d
  finish_step (ok a) d w k = commit_step (S.outcome w.calls) d a w k

  deliver_step :
      (o : Outcome) (end : Result A × World S) (w : World S)
      → R.Rel w.db end.1.db
      → R.Rel w.db (deliver S o end w).1.db
  unfolding deliver
  deliver_step success end w k = k
  deliver_step (lost f) end w k = R.rel_refl w.db
  deliver_step (unacknowledged f) end w k = k

  note_step :
      (r : Result A) (d : Db S) (w : World S) → R.Rel d w.db → R.Rel d (note_failure S r w).db
  unfolding note_failure
  note_step (ok a) d w k = k
  note_step (err e) d w k = k

  unless_step :
      (act : Action S A) (w : World S) (b : Bool)
      → R.Rel w.db (call S act w).1.db
      → R.Rel w.db (unless_aborted S b act w).1.db
  unfolding unless_aborted
  unless_step act w true k = R.rel_refl w.db
  unless_step act w false k = let (r, w') = call S act w in note_step r w.db w' k

module _ {S : Services} {R : Relation S} {A : Type 0} where
  pub Respects-pure : (a : A) → Respects R (pure a)
  unfolding pure
  Respects-pure a = record { at = λ w. R.rel_refl w.db }

  pub Respects-raise : (e : Error) → Respects R (raise {A = A} e)
  unfolding raise
  Respects-raise e = record { at = λ w. R.rel_refl w.db }

  pub Respects-if :
      (b : Bool) (m n : Io S A) → Respects R m → Respects R n → Respects R (if b then m else n)
  Respects-if true m n km kn = km
  Respects-if false m n km kn = kn

  pub Respects-or_else : (o : Option A) (m : Io S A) → Respects R m → Respects R (or_else o m)
  unfolding or_else
  Respects-or_else none m km = km
  Respects-or_else (some a) m km = Respects-pure a

  handle_step :
      (h : Error → Io S A) (r : Result A) (d : Db S) (w : World S)
      → ((e : Error) → Respects R (h e))
      → R.Rel d w.db
      → R.Rel d (handle r h w).1.db
  unfolding handle pure
  handle_step h (ok a) d w kh k = k
  handle_step h (err e) d w kh k = R.rel_trans d w.db (h e w).1.db k ((kh e).at w)

  pub Respects-catch :
      (m : Io S A) (h : Error → Io S A)
      → Respects R m
      → ((e : Error) → Respects R (h e))
      → Respects R (catch m h)
  unfolding catch
  Respects-catch m h km kh = record {
    at = λ w. let (r, w') = m w in handle_step h r w.db w' kh (km.at w);
  }

  pub Respects-transaction : (m : Io S A) → Respects R m → Respects R (transaction S m)
  unfolding transaction
  Respects-transaction m k = record {
    at = λ w.
        let (r, w') = m (record w { aborted = false }) in
        finish_step R r w.db w' (k.at (record w { aborted = false }));
  }

  pub Respects-call : (act : Action S A) → ActionRespects R act → Respects R (call S act)
  unfolding call
  Respects-call act k = record {
    at = λ w. deliver_step R (S.outcome w.calls) (on_db S act w) w (k.at w.db);
  }

  pub Respects-statement : (act : Action S A) → ActionRespects R act → Respects R (statement S act)
  unfolding statement
  Respects-statement act k = record {
    at = λ w. unless_step R act w w.aborted ((Respects-call act k).at w);
  }

module _ {S : Services} (R : Relation S) where
  set_if_free_step :
      (k v : String) (w : World S) (o : Option String) → R.Rel w.db (set_if_free S k v w o).1.db
  set_if_free_step k v w none = R.rel_refl w.db
  set_if_free_step k v w (some old) = R.rel_refl w.db

-- What does not touch the tables.
module _ {S : Services} {R : Relation S} where
  pub Respects-now : Respects R (now S)
  unfolding now
  Respects-now = record { at = λ w. R.rel_refl w.db }

  pub Respects-new_id : Respects R (new_id S)
  unfolding new_id
  Respects-new_id = record { at = λ w. R.rel_refl w.db }

  pub Respects-count : (f : Metrics → Metrics) → Respects R (count S f)
  unfolding count
  Respects-count f = record { at = λ w. R.rel_refl w.db }

  pub Respects-wait : Respects R (wait S)
  unfolding wait
  Respects-wait = record { at = λ w. R.rel_refl w.db }

  pub Respects-send_event : (m : Message S) → Respects R (send_event S m)
  unfolding send_event
  Respects-send_event m = record {
    at = λ w. deliver_step R (S.outcome w.calls) (append_event S m w) w (R.rel_refl w.db);
  }

  pub Respects-send_dead_letter : (m : Message S) → Respects R (send_dead_letter S m)
  unfolding send_dead_letter
  Respects-send_dead_letter m = record {
    at = λ w. deliver_step R (S.outcome w.calls) (append_dead_letter S m w) w (R.rel_refl w.db);
  }

  pub Respects-redis_get : (k : String) → Respects R (redis_get S k)
  unfolding redis_get
  Respects-redis_get k = record {
    at = λ w. deliver_step R (S.outcome w.calls) (ok (cached S k w), w) w (R.rel_refl w.db);
  }

  pub Respects-redis_set : (k v : String) → Respects R (redis_set S k v)
  unfolding redis_set
  Respects-redis_set k v = record {
    at = λ w. deliver_step R (S.outcome w.calls) (ok tt, store S k (some v) w) w (R.rel_refl w.db);
  }

  pub Respects-redis_del : (k : String) → Respects R (redis_del S k)
  unfolding redis_del
  Respects-redis_del k = record {
    at = λ w. deliver_step R (S.outcome w.calls) (ok tt, store S k none w) w (R.rel_refl w.db);
  }

  pub Respects-redis_set_nx : (k v : String) → Respects R (redis_set_nx S k v)
  unfolding redis_set_nx
  Respects-redis_set_nx k v = record {
    at = λ w.
        deliver_step R (S.outcome w.calls) (set_if_free S k v w (cached S k w)) w
          (set_if_free_step R k v w (cached S k w));
  }

module _ {S : Services} {R : Relation S} {A : Type 0} where
  pub Respects-finally :
      (m : Io S A) (f : Io S (Unit {0})) → Respects R m → Respects R f → Respects R (finally m f)
  unfolding finally
  Respects-finally m f km kf = record {
    at = λ w. let w' = (m w).1 in R.rel_trans w.db w'.db (f w').1.db (km.at w) (kf.at w');
  }

module _ {S : Services} {R : Relation S} {A B : Type 0} where
  continue_step :
      (f : A → Io S B) (r : Result A) (d : Db S) (w : World S)
      → ((a : A) → Respects R (f a))
      → R.Rel d w.db
      → R.Rel d (continue r f w).1.db
  unfolding continue raise
  continue_step f (ok a) d w kf k = R.rel_trans d w.db (f a w).1.db k ((kf a).at w)
  continue_step f (err e) d w kf k = k

  pub Respects-bind :
      (m : Io S A) (f : A → Io S B)
      → Respects R m
      → ((a : A) → Respects R (f a))
      → Respects R (m >>= f)
  unfolding ◌>>=◌
  Respects-bind m f km kf = record {
    at = λ w. let (r, w') = m w in continue_step f r w.db w' kf (km.at w);
  }

pub ruleset respects_rules = (
  Respects-pure, Respects-raise, Respects-if, Respects-or_else, Respects-catch, Respects-bind,
  Respects-transaction, Respects-call, Respects-statement, Respects-now, Respects-new_id,
  Respects-count, Respects-wait, Respects-send_event, Respects-send_dead_letter, Respects-redis_get,
  Respects-redis_set, Respects-redis_del, Respects-redis_set_nx,
)
