-- ===== src/Tests/Api.antt =====
-- The theorems about configuration, HTTP and balances at concrete
-- inputs.
use shopback_cashback_ledger.Prelude.{ℕ, ◌∷◌, [], ◌++◌, true, none, some, ◌≡◌, refl, ◌⊎◌}
use shopback_cashback_ledger.Json.{Json}
use shopback_cashback_ledger.Schema.{created}
use shopback_cashback_ledger.Errors.{conflict}
use shopback_cashback_ledger.Effect.{ok, ◌>>=◌}
use shopback_cashback_ledger.Orders.Confirmed.{Confirmed}
use shopback_cashback_ledger.Orders.{confirm, confirm_and_outbox}
use shopback_cashback_ledger.Calls.{transaction, statement, new_id, now}
use shopback_cashback_ledger.Config.{load_config}
use shopback_cashback_ledger.Config.Loading.{Explained, IsConfigured, load_config-Explained}
use shopback_cashback_ledger.Http.{catch_exception}
use shopback_cashback_ledger.Http.Throttle.{throttler_exception}
use shopback_cashback_ledger.Http.Reports.{IsReport, catch_exception-IsReport}
use shopback_cashback_ledger.Http.Metrics.{Counted}
use shopback_cashback_ledger.Http.Serve.{serve}
use shopback_cashback_ledger.Http.Answers.{
  IsAnswer, serve-IsAnswer, serve_error-counted, confirm_request, confirm_request-Confirmed,
}
use shopback_cashback_ledger.Tests.Toy.{toy, world_with, unary}
use shopback_cashback_ledger.Tests.Platform.{
  toy_platform, full_environment, request_of, no_requests,
}

load_config-Explained_example :
    Explained toy_platform full_environment
      (IsConfigured toy_platform full_environment)
      (load_config toy_platform full_environment)
load_config-Explained_example = load_config-Explained toy_platform full_environment

catch_exception-IsReport_example :
    IsReport toy_platform {A = ℕ}
      (request_of "a" none)
      (catch_exception toy_platform (request_of "a" none) throttler_exception)
catch_exception-IsReport_example =
    catch_exception-IsReport toy_platform (request_of "a" none) throttler_exception

serve-IsAnswer_example :
    IsAnswer true 201 (confirm toy none "o2" (world_with created)).0 (world_with created) (
      serve toy_platform
        (request_of "a" none)
        "u1"
        true
        201
        (confirm toy none "o2")
        no_requests
        (world_with created))
serve-IsAnswer_example =
    serve-IsAnswer toy_platform (request_of "a" none) "u1" true 201 (confirm toy none "o2")
      no_requests (world_with created)

-- The order `o2` does not exist.
serve_error-counted_example :
    let s =
      serve toy_platform
        (request_of "a" none)
        "u1"
        true
        201
        (confirm toy none "o2")
        no_requests
        (world_with created) in
    ((s.response.status ≡ 409) ⊎ (s.response.status ≡ 500))
    × ((c : Counted) × (s.metrics.requests ≡ no_requests.requests ++ c ∷ [])
        × (c.status ≡ unary 201))
unfolding confirm confirm_and_outbox transaction ◌>>=◌ statement
serve_error-counted_example =
    serve_error-counted toy_platform (request_of "a" none) "u1" 201 (confirm toy none "o2")
      no_requests (world_with created) (conflict "Order not found") refl refl

confirm_request-Confirmed_example :
    let s =
      confirm_request toy_platform toy
        (request_of "a" none)
        "u1"
        true
        "o1"
        no_requests
        (world_with created) in
    (j : Json ℕ) × (s.response.body.payload ≡ some j)
    × Confirmed toy (world_with created).db "o1" (ok j) s.state.db
unfolding serve confirm confirm_and_outbox transaction ◌>>=◌ statement new_id now
confirm_request-Confirmed_example =
    confirm_request-Confirmed toy_platform toy (request_of "a" none) "u1" true "o1" no_requests
      (world_with created) refl
