-- ===== src/Http/Serve.antt =====
-- A request through the API as apps/api/src/main.ts and apps/api/src/app.module.ts put the parts
-- together: the middleware, the guard, the interceptors around the handler, and the filter. The
-- order is that of the request lifecycle of NestJS, where the interceptors end before the filter
-- answers.
use shopback_cashback_ledger.Prelude.{ℕ, String, Bool, true, false, some}
use shopback_cashback_ledger.Errors.{Error, conflict}
use shopback_cashback_ledger.Effect.{Effect, Result, ok, err}
use shopback_cashback_ledger.Platform.{Platform}
use shopback_cashback_ledger.Http.{
  Request, Response, Exception, http, other, object, one, use_request_id, catch_exception, envelope,
}
use shopback_cashback_ledger.Http.Throttle.{throttler_exception}
use shopback_cashback_ledger.Http.Metrics.{ApiMetrics, intercept_metrics, count_refused}

-- `new ConflictException(message)`, the only exception of the controllers with a status
abbrev pub exception_of : Error → Exception
exception_of (conflict message) = http 409 (object (some (one message))) message
exception_of _ = other

-- What the client gets, and the state that is left.
pub record Served (A W : Type 0) : Type 0 where
  -- the header `x-request-id`
  pub id_header : String
  pub response : Response A
  pub metrics : ApiMetrics
  pub state : W

module _ (P : Platform) {A : Type 0} where
  abbrev pub answer_of : Request P → ℕ → Result A → Response A
  answer_of req status (ok a) = record { status = status; body = envelope P req (some a) }
  answer_of req status (err e) = catch_exception P req (exception_of e)

module _ (P : Platform) {A W : Type 0} where
  -- A request that the throttler lets through or not, with the status that NestJS gives a response
  -- before its handler runs.
  unfoldable pub serve : Request P → String → Bool → ℕ → Effect W A → ApiMetrics → W → Served A W
  unfolding use_request_id catch_exception envelope intercept_metrics count_refused
  serve req uuid false status handler m w =
      let (req', id) = use_request_id P req uuid in
      record {
        id_header = id;
        response = catch_exception P req' throttler_exception;
        metrics = count_refused P req' m;
        state = w;
      }
  serve req uuid true status handler m w =
      let (req', id) = use_request_id P req uuid in
      let (r, w') = handler w in
      record {
        id_header = id;
        response = answer_of P req' status r;
        metrics = intercept_metrics P req' status m;
        state = w';
      }
