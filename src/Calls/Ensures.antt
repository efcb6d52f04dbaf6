-- ===== src/Calls/Ensures.antt =====
-- What an effect gives from any state that meets an invariant, and that it keeps the invariant,
-- whatever calls of it fail: one rule for each way to build an effect.
use shopback_cashback_ledger.Prelude.{Bool, true, false}
use shopback_cashback_ledger.Errors.{Error, Outcome, success, lost, unacknowledged}
use shopback_cashback_ledger.Effect.{
  Result, ok, err, pure, raise, catch, handle, continue, finally, conclude, after_final, ◌>>=◌,
}
use shopback_cashback_ledger.Services.{Services}
use shopback_cashback_ledger.World.{Db, World, Io}
use shopback_cashback_ledger.Calls.{
  Action, deliver, perform, tick, on_db, call, statement, unless_aborted, note_failure,
}

module _ {S : Services} (I : World S → Type 0) where
  -- An answer meets `P`; the invariant holds after an error too.
  abbrev pub Ends : {A : Type 0} → (A → Type 0) → Result A × World S → Type 0
  Ends P (ok a, w) = P a × I w
  Ends P (err e, w) = I w

  pub record Ensures {A : Type 0} (P : A → Type 0) (m : Io S A) : Type 0 where
    pub at : (w : World S) → I w → Ends P (m w)

  abbrev pub Anything : {A : Type 0} → A → Type 0
  Anything a = Unit {0}

module _ {S : Services} (I : World S → Type 0) {A : Type 0} where
  pub Ensures-pure : (P : A → Type 0) (a : A) → P a → Ensures I P (pure a)
  unfolding pure
  Ensures-pure P a h = record { at = λ w k. (h, k) }

  pub Ensures-raise : (P : A → Type 0) (e : Error) → Ensures I P (raise {A = A} e)
  unfolding raise
  Ensures-raise P e = record { at = λ w k. k }

  handled :
      (P : A → Type 0) (h : Error → Io S A) (x : Result A × World S)
      → ((e : Error) → Ensures I P (h e))
      → Ends I P x
      → Ends I P (handle x.0 h x.1)
  unfolding handle pure raise
  handled P h (ok a, w) kh k = k
  handled P h (err e, w) kh k = (kh e).at w k

  pub Ensures-catch :
      (P : A → Type 0) (m : Io S A) (h : Error → Io S A)
      → Ensures I P m
      → ((e : Error) → Ensures I P (h e))
      → Ensures I P (catch m h)
  unfolding catch
  Ensures-catch P m h km kh = record { at = λ w k. handled P h (m w) kh (km.at w k) }

  ended :
      (P : A → Type 0) (r : Result A) (x : Result (Unit {0}) × World S) (w : World S)
      → Ends I P (r, w)
      → Ends I (Anything I) x
      → Ends I P (after_final r x.0, x.1)
  unfolding after_final
  ended P (ok a) (ok done, w') w k h = (k.0, h.1)
  ended P (err e) (ok done, w') w k h = h.1
  ended P r (err e, w') w k h = h

  pub held : (P : A → Type 0) (x : Result A × World S) → Ends I P x → I x.1
  held P (ok a, w) k = k.1
  held P (err e, w) k = k

  pub Ensures-finally :
      (P : A → Type 0) (m : Io S A) (f : Io S (Unit {0}))
      → Ensures I P m
      → Ensures I (Anything I) f
      → Ensures I P (finally m f)
  unfolding finally conclude
  Ensures-finally P m f km kf = record {
    at = λ w k.
        let x = m w in ended P x.0 (f x.1) x.1 (km.at w k) (kf.at x.1 (held P x (km.at w k)));
  }

  delivered :
      (P : A → Type 0) (o : Outcome) (x : Result A × World S) (w : World S)
      → ((v : World S) → I v → I (tick S v))
      → I w
      → Ends I P x
      → Ends I P (deliver S o x w)
  unfolding deliver
  delivered P success (ok a, w') w t k h = (h.0, t w' h.1)
  delivered P success (err e, w') w t k h = t w' h
  delivered P (lost f) x w t k h = t w k
  delivered P (unacknowledged f) x w t k h = t x.1 (held P x h)

  -- An external call, by what it does when it takes effect.
  pub Ensures-perform :
      (P : A → Type 0) (effect : Io S A)
      → ((v : World S) → I v → I (tick S v))
      → Ensures I P effect
      → Ensures I P (perform S effect)
  unfolding perform
  Ensures-perform P effect t h = record {
    at = λ w k. delivered P (S.outcome w.calls) (effect w) w t k (h.at w k);
  }

module _ {S : Services} (I : World S → Type 0) {A B : Type 0} where
  continued :
      (P : A → Type 0) (Q : B → Type 0) (f : A → Io S B) (x : Result A × World S)
      → ((a : A) → P a → Ensures I Q (f a))
      → Ends I P x
      → Ends I Q (continue x.0 f x.1)
  unfolding continue raise
  continued P Q f (ok a, w) kf k = (kf a k.0).at w k.1
  continued P Q f (err e, w) kf k = k

  pub Ensures-bind :
      (P : A → Type 0) (Q : B → Type 0) (m : Io S A) (f : A → Io S B)
      → Ensures I P m
      → ((a : A) → P a → Ensures I Q (f a))
      → Ensures I Q (m >>= f)
  unfolding ◌>>=◌
  Ensures-bind P Q m f km kf = record { at = λ w k. continued P Q f (m w) kf (km.at w k) }

-- The database leaves the cache alone.
module _ (S : Services) (I : S.cache.Rows → Type 0) where
  abbrev pub OnCache : World S → Type 0
  OnCache w = I w.cache

module _ {S : Services} (I : S.cache.Rows → Type 0) {A : Type 0} where
  noted :
      (x : Result A × World S)
      → Ends (OnCache S I) (Anything (OnCache S I)) x
      → Ends (OnCache S I) (Anything (OnCache S I)) (x.0, note_failure S x.0 x.1)
  unfolding note_failure
  noted (ok a, w) h = h
  noted (err e, w) h = h

  on_db-Kept : (act : Action S A) → Ensures (OnCache S I) (Anything (OnCache S I)) (on_db S act)
  on_db-Kept act = record { at = λ w h. by_result (act w.db).0 (act w.db).1 w h }
    where
      by_result :
          (r : Result A) (d : Db S) (w : World S)
          → I w.cache
          → Ends (OnCache S I) (Anything (OnCache S I)) (r, record w { db = d })
      by_result (ok a) d w h = (tt, h)
      by_result (err e) d w h = h

  pub Ensures-statement :
      (act : Action S A) → Ensures (OnCache S I) (Anything (OnCache S I)) (statement S act)
  unfolding statement unless_aborted call
  Ensures-statement act = record { at = λ w h. by_aborted w.aborted w h }
    where
      by_aborted :
          (b : Bool) (w : World S)
          → I w.cache
          → Ends (OnCache S I) (Anything (OnCache S I)) (unless_aborted S b act w)
      by_aborted true w h = h
      by_aborted false w h = noted _ (
          (Ensures-perform (OnCache S I) (Anything (OnCache S I)) _ (λ v k. k) (on_db-Kept act)).at
            w h)
