-- ===== src/Calls/Answers.antt =====
-- Effects that answer, when no call fails, from any state that meets an invariant and whose transaction
-- has no failed statement: one rule for each way to build an effect.
use shopback_cashback_ledger.Prelude.{ℕ, Bool, true, suc, false, ◌≡◌, refl, subst}
use shopback_cashback_ledger.Errors.{Error, success}
use shopback_cashback_ledger.Effect.{
  ok, pure, catch, handle, continue, finally, conclude, after_final, ◌>>=◌,
}
use shopback_cashback_ledger.Services.{Services}
use shopback_cashback_ledger.World.{World, Io, Metrics}
use shopback_cashback_ledger.Calls.{
  Action, deliver, perform, tick, on_db, call, statement, unless_aborted, note_failure, count, wait,
}
use shopback_cashback_ledger.Calls.Ensures.{Ends, Ensures}

module _ {S : Services} (I : World S → Type 0) where
  -- How an effect answers from one state.
  pub record Answer {A : Type 0} (m : Io S A) (w : World S) : Type 0 where
    pub value : A
    pub world : World S
    pub same : m w ≡ (ok value, world)
    pub healthy : world.aborted ≡ false

  pub record Answers {A : Type 0} (m : Io S A) : Type 0 where
    pub at : (w : World S) → I w → w.aborted ≡ false → Answer m w

  -- An answer meets what the effect ensures.
  pub Answer-Ends :
      {A : Type 0} (P : A → Type 0) (m : Io S A) (w : World S) (k : Answer m w)
      → Ensures I P m
      → I w
      → P k.value × I k.world
  Answer-Ends P m w k e i = subst (Ends I P) k.same (e.at w i)

module _ {S : Services} (I : World S → Type 0) {A : Type 0} where
  pub Answers-pure : (a : A) → Answers I (pure a)
  unfolding pure
  Answers-pure a = record {
    at = λ w i h. record { value = a; world = w; same = refl; healthy = h };
  }

  pub Answers-catch : (m : Io S A) (h : Error → Io S A) → Answers I m → Answers I (catch m h)
  unfolding catch handle
  Answers-catch m h k = record {
    at = λ w i s.
        let x = k.at w i s in
        record { value = x.value; world = x.world; same = rw x.same refl; healthy = x.healthy };
  }

  pub Answers-finally :
      (P : A → Type 0) (m : Io S A) (f : Io S (Unit {0}))
      → Ensures I P m
      → Answers I m
      → Answers I f
      → Answers I (finally m f)
  unfolding finally conclude after_final
  Answers-finally P m f e km kf = record {
    at = λ w i s.
        let x = km.at w i s in
        let y = kf.at x.world (Answer-Ends I P m w x e i).1 x.healthy in
        record {
          value = x.value;
          world = y.world;
          same = rw x.same (rw y.same refl);
          healthy = y.healthy;
        };
  }

  module _ (calm : (n : ℕ) → S.outcome n ≡ success) where
    pub Answers-perform : (effect : Io S A) → Answers I effect → Answers I (perform S effect)
    unfolding perform deliver
    Answers-perform effect k = record {
      at = λ w i s.
          let x = k.at w i s in
          record {
            value = x.value;
            world = tick S x.world;
            same = rw (calm w.calls, x.same) refl;
            healthy = x.healthy;
          };
    }

    unaborted :
        (action : Action S A) (b : Bool) (w : World S) {a : A} {w' : World S}
        → b ≡ false
        → call S action w ≡ (ok a, w')
        → unless_aborted S b action w ≡ (ok a, w')
    unfolding unless_aborted note_failure
    unaborted action true w s same = absurd cc
    unaborted action false w s same = rw same refl

    pub Answers-call :
        (action : Action S A) → Answers I (on_db S action) → Answers I (call S action)
    unfolding call
    Answers-call action = Answers-perform (on_db S action)

    pub Answers-statement :
        (action : Action S A) → Answers I (on_db S action) → Answers I (statement S action)
    unfolding statement
    Answers-statement action k = record {
      at = λ w i s.
          let x = (Answers-call action k).at w i s in
          record {
            value = x.value;
            world = x.world;
            same = unaborted action w.aborted w s x.same;
            healthy = x.healthy;
          };
    }

module _ {S : Services} (I : World S → Type 0) {A B : Type 0} where
  pub Answers-bind :
      (P : A → Type 0) (m : Io S A) (f : A → Io S B)
      → Ensures I P m
      → Answers I m
      → ((a : A) → P a → Answers I (f a))
      → Answers I (m >>= f)
  unfolding ◌>>=◌ continue
  Answers-bind P m f e km kf = record {
    at = λ w i s.
        let x = km.at w i s in
        let held = Answer-Ends I P m w x e i in
        let y = (kf x.value held.0).at x.world held.1 x.healthy in
        record { value = y.value; world = y.world; same = rw x.same y.same; healthy = y.healthy };
  }

module _ {S : Services} (I : World S → Type 0) where
  pub Answers-count : (f : Metrics → Metrics) → Answers I (count S f)
  unfolding count
  Answers-count f = record {
    at = λ w i s. record {
      value = tt;
      world = record w { metrics = f w.metrics };
      same = refl;
      healthy = s;
    };
  }

  pub Answers-wait : Answers I (wait S)
  unfolding wait
  Answers-wait = record {
    at = λ w i s. record {
      value = tt;
      world = record w { cache = S.meanwhile w.calls w.cache; calls = suc w.calls };
      same = refl;
      healthy = s;
    };
  }
