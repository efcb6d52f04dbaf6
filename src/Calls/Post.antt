-- ===== src/Calls/Post.antt =====
-- What holds after an effect, whatever calls of it fail: postconditions on the result, the tables
-- and the mark of a failed transaction, one rule for each way to build an effect.
use shopback_cashback_ledger.Prelude.{
  String, Bool, true, false, ◌≡◌, refl, sym, subst, if◌then◌else◌,
}
use shopback_cashback_ledger.Errors.{Error, Outcome, success, lost, unacknowledged, service}
use shopback_cashback_ledger.Effect.{Result, ok, err, pure, raise, catch, handle, continue, ◌>>=◌}
use shopback_cashback_ledger.Services.{Services}
use shopback_cashback_ledger.World.{Db, World, Io}
use shopback_cashback_ledger.Calls.{
  Action, deliver, on_db, call, note_failure, statement, commit, finish, transaction, new_id,
}

module _ {S : Services} where
  -- `Q` holds whenever `m` starts with the tables `d` and the mark `b`.
  pub record Post {A : Type 0} (m : Io S A) (d : Db S) (b : Bool)
      (Q : Result A → Db S → Bool → Type 0) : Type 0 where
    pub at :
        (w : World S) → let (r, w') = m (record w { db = d; aborted = b }) in Q r w'.db w'.aborted

  -- The postcondition of the first of two effects.
  abbrev pub Then :
      {A B : Type 0}
      → (A → Io S B)
      → (Result B → Db S → Bool → Type 0)
      → Result A
      → Db S
      → Bool
      → Type 0
  Then f Q (ok a) d b = Post (f a) d b Q
  Then f Q (err e) d b = Q (err e) d b

  abbrev pub OrCatch :
      {A : Type 0}
      → (Error → Io S A)
      → (Result A → Db S → Bool → Type 0)
      → Result A
      → Db S
      → Bool
      → Type 0
  OrCatch h Q (ok a) d b = Q (ok a) d b
  OrCatch h Q (err e) d b = Post (h e) d b Q

  -- The postcondition of a transaction's body, from tables `d`: what throws is rolled back.
  abbrev pub Committed :
      {A : Type 0} → Db S → (Result A → Db S → Type 0) → Result A → Db S → Bool → Type 0
  Committed d Q (ok a) d' b = (b ≡ false) × Q (ok a) d' × ((e : Error) → Q (err e) d')
  Committed d Q (err e) d' b = Unit {0}

  abbrev pub Anyway : {A : Type 0} → (Result A → Db S → Type 0) → Result A → Db S → Bool → Type 0
  Anyway Q r d b = Q r d

module _ {S : Services} {A : Type 0} where
  pub Post-pure :
      (a : A) {d : Db S} {b : Bool} (Q : Result A → Db S → Bool → Type 0)
      → Q (ok a) d b
      → Post (pure a) d b Q
  unfolding pure
  Post-pure a Q h = record { at = λ w. h }

  pub Post-raise :
      (e : Error) {d : Db S} {b : Bool} (Q : Result A → Db S → Bool → Type 0)
      → Q (err e) d b
      → Post (raise {A = A} e) d b Q
  unfolding raise
  Post-raise e Q h = record { at = λ w. h }

  -- From a world that has the tables and the mark by equations.
  pub Post-from :
      {m : Io S A} {d : Db S} {b : Bool} (Q : Result A → Db S → Bool → Type 0)
      → Post m d b Q
      → (w : World S) → w.db ≡ d
      → w.aborted ≡ b
      → let (r, w') = m w in Q r w'.db w'.aborted
  Post-from {m} Q k w p q =
      subst (λ v. let (r, w') = m v in Q r w'.db w'.aborted)
        (λ i. record w { db = sym p i; aborted = sym q i }) (k.at w)

  pub Post-weaken :
      {m : Io S A} {d : Db S} {b : Bool} {P : Result A → Db S → Bool → Type 0}
      (Q : Result A → Db S → Bool → Type 0)
      → Post m d b P
      → ((r : Result A) (d' : Db S) (b' : Bool) → P r d' b' → Q r d' b')
      → Post m d b Q
  Post-weaken {m} {d} {b} Q k h = record {
    at = λ w. let (r, w') = m (record w { db = d; aborted = b }) in h r w'.db w'.aborted (k.at w);
  }

  pub Post-if :
      (c : Bool) {m n : Io S A} {d : Db S} {b : Bool} (Q : Result A → Db S → Bool → Type 0)
      → (c ≡ true → Post m d b Q)
      → (c ≡ false → Post n d b Q)
      → Post (if c then m else n) d b Q
  Post-if true Q km kn = km refl
  Post-if false Q km kn = kn refl

  pub handled :
      (h : Error → Io S A) (Q : Result A → Db S → Bool → Type 0) (r : Result A) (w : World S)
      → OrCatch h Q r w.db w.aborted
      → let (r', w') = handle r h w in Q r' w'.db w'.aborted
  unfolding handle
  handled h Q (ok a) w k = k
  handled h Q (err e) w k = k.at w

  pub Post-catch :
      (m : Io S A) (h : Error → Io S A) {d : Db S} {b : Bool} (Q : Result A → Db S → Bool → Type 0)
      → Post m d b (OrCatch h Q)
      → Post (catch m h) d b Q
  unfolding catch
  Post-catch m h {d} {b} Q k = record {
    at = λ w. let (r, w') = m (record w { db = d; aborted = b }) in handled h Q r w' (k.at w);
  }

  delivered :
      (act : Action S A) (Q : Result A → Db S → Bool → Type 0) (o : Outcome) (w : World S)
      → Q (act w.db).0 (act w.db).1 w.aborted
      → ((f : Error) → Q (err f) w.db w.aborted)
      → ((f : Error) → Q (err f) (act w.db).1 w.aborted)
      → let (r, w') = deliver S o (on_db S act w) w in Q r w'.db w'.aborted
  unfolding deliver
  delivered act Q success w h none_done done = h
  delivered act Q (lost f) w h none_done done = none_done (service f)
  delivered act Q (unacknowledged f) w h none_done done = done (service f)

  -- A call outside a transaction.
  pub Post-call :
      (act : Action S A) (d : Db S) {b : Bool} (Q : Result A → Db S → Bool → Type 0)
      → Q (act d).0 (act d).1 b
      → ((f : Error) → Q (err f) d b)
      → ((f : Error) → Q (err f) (act d).1 b)
      → Post (call S act) d b Q
  unfolding call
  Post-call act d {b} Q h none_done done = record {
    at = λ w.
        let w' = record w { db = d; aborted = b } in
        delivered act Q (S.outcome w.calls) w' h none_done done;
  }

module _ {S : Services} {A B : Type 0} where
  pub continued :
      (f : A → Io S B) (Q : Result B → Db S → Bool → Type 0) (r : Result A) (w : World S)
      → Then f Q r w.db w.aborted
      → let (r', w') = continue r f w in Q r' w'.db w'.aborted
  unfolding continue raise
  continued f Q (ok a) w k = k.at w
  continued f Q (err e) w k = k

  pub Post-bind :
      (m : Io S A) (f : A → Io S B) {d : Db S} {b : Bool} (Q : Result B → Db S → Bool → Type 0)
      → Post m d b (Then f Q)
      → Post (m >>= f) d b Q
  unfolding ◌>>=◌
  Post-bind m f {d} {b} Q k = record {
    at = λ w. let (r, w') = m (record w { db = d; aborted = b }) in continued f Q r w' (k.at w);
  }

module _ {S : Services} where
  pub Post-new_id :
      {d : Db S} {b : Bool} (Q : Result String → Db S → Bool → Type 0)
      → ((id : String) → Q (ok id) d b)
      → Post (new_id S) d b Q
  unfolding new_id
  Post-new_id Q h = record { at = λ w. h (S.uuid w.calls) }

module _ {S : Services} {A : Type 0} where
  -- A statement: after a failure the transaction is marked, and then each statement fails.
  abbrev pub Marked : (Result A → Db S → Bool → Type 0) → Result A → Db S → Bool → Type 0
  Marked Q (ok a) d b = Q (ok a) d b
  Marked Q (err e) d b = Q (err e) d S.aborts

  marked :
      (Q : Result A → Db S → Bool → Type 0) (r : Result A) (w : World S)
      → Marked Q r w.db w.aborted
      → let w' = note_failure S r w in Q r w'.db w'.aborted
  unfolding note_failure
  marked Q (ok a) w k = k
  marked Q (err e) w k = k

  pub Post-statement :
      (act : Action S A) (d : Db S) (Q : Result A → Db S → Bool → Type 0)
      → Marked Q (act d).0 (act d).1 false
      → ((f : Error) → Q (err f) d S.aborts)
      → ((f : Error) → Q (err f) (act d).1 S.aborts)
      → Post (statement S act) d false Q
  unfolding statement call
  Post-statement act d Q h none_done done = record {
    at = λ w.
        let w₀ = record w { db = d; aborted = false } in
        let (r, w') = call S act w₀ in
        marked Q r w' (delivered act (Marked Q) (S.outcome w.calls) w₀ h none_done done);
  }

  pub Post-statement_aborted :
      (act : Action S A) (d : Db S) (Q : Result A → Db S → Bool → Type 0)
      → ((f : Error) → Q (err f) d true)
      → Post (statement S act) d true Q
  unfolding statement
  Post-statement_aborted act d Q h = record { at = λ w. h _ }

  pub finished :
      (d : Db S) (Q : Result A → Db S → Type 0) (r : Result A) (w : World S)
      → ((f : Error) → Q (err f) d)
      → Committed d Q r w.db w.aborted
      → let (r', w') = finish S d r w in Q r' w'.db
  unfolding finish
  finished d Q (err e) w none_done k = none_done e
  finished d Q (ok a) w none_done k = ended (S.outcome w.calls)
    where
      ended : (o : Outcome) → let (r', w') = commit S o d a w in Q r' w'.db
      ended success = rw k.0 k.1
      ended (lost f) = none_done (service f)
      ended (unacknowledged f) = rw k.0 (k.2 (service f))

  pub Post-transaction :
      (m : Io S A) (d : Db S) {b : Bool} (Q : Result A → Db S → Type 0)
      → ((f : Error) → Q (err f) d)
      → Post m d false (Committed d Q)
      → Post (transaction S m) d b (Anyway Q)
  unfolding transaction
  Post-transaction m d Q none_done k = record {
    at = λ w.
        let (r, w') = m (record w { db = d; aborted = false }) in
        finished d Q r w' none_done (k.at w);
  }
