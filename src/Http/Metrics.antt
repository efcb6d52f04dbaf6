-- ===== src/Http/Metrics.antt =====
-- The two metrics of apps/api/src/metrics/metrics.ts, apps/api/src/metrics/metrics.interceptor.ts,
-- and the count of refused requests in apps/api/src/common/throttle/user-throttler.guard.ts.
use shopback_cashback_ledger.Prelude.{
  ℕ, String, Bool, false, Option, none, some, List, [], ◌∷◌, ◌++◌, ◌==◌, text_append,
  text_comparable, if◌then◌else◌,
}
use shopback_cashback_ledger.Platform.{Platform}
use shopback_cashback_ledger.Http.{Request, or_else_text}
use shopback_cashback_ledger.Http.Throttle.{or_root, refused_method, refused_route}

-- The labels of one increment of `http_requests_total`.
pub record Counted : Type 0 where
  pub method : String
  pub route : String
  pub status : String

-- The increments of `http_requests_total`, and the labels of the observations of
-- `http_request_duration_seconds`.
pub record ApiMetrics : Type 0 where
  pub requests : List Counted
  pub durations : List (String × String)

module _ (P : Platform) where
  abbrev pub route_or_path : Request P → Option String → String
  route_or_path req none = or_else_text req.path "unknown"
  route_or_path req (some path) = path

  -- `getRoute` of the interceptor
  abbrev pub get_route : Request P → String
  get_route req =
      or_root (text_append (or_else_text req.base_url "") (route_or_path req req.route_path))

  abbrev pub method_of : Request P → String
  method_of req = P.to_upper_case (or_else_text req.method "UNKNOWN")

  abbrev pub is_metrics_path : Option String → Bool
  is_metrics_path none = false
  is_metrics_path (some path) = path == "/metrics"

  -- What `finalize` records, with the status that the response has then.
  abbrev pub finalized : Request P → ℕ → ApiMetrics → ApiMetrics
  finalized req status m = record {
    requests =
        m.requests
        ++ record { method = method_of req; route = get_route req; status = P.nat_text status }
          ∷ [];
    durations = m.durations ++ (method_of req, get_route req) ∷ [];
  }

  -- `MetricsInterceptor.intercept`, around a handler that has ended
  unfoldable pub intercept_metrics : Request P → ℕ → ApiMetrics → ApiMetrics
  intercept_metrics req status m = if is_metrics_path req.path then m else finalized req status m

  -- `throwThrottlingException`, before the exception
  unfoldable pub count_refused : Request P → ApiMetrics → ApiMetrics
  count_refused req m = record m {
    requests =
        m.requests
        ++ record {
          method = refused_method P req.method;
          route = refused_route P req;
          status = "429";
        }
          ∷ [];
  }
