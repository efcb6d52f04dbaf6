-- ===== src/Tests/Platform.antt =====
-- A concrete platform, with numbers in tenths.
use shopback_cashback_ledger.Prelude.{
  [], ◌≡◌, inl, inr, Bool-cases, ℕ, ◌*◌, ◌/◌, String, Option, none, some, refl, ltb, ◌==◌,
  text_comparable, if◌then◌else◌,
}
use shopback_cashback_ledger.Json.{str, obj, field, end}
use shopback_cashback_ledger.Platform.{Platform}
use shopback_cashback_ledger.Config.{Environment}
use shopback_cashback_ledger.Http.{Request}
use shopback_cashback_ledger.Http.Metrics.{ApiMetrics}
use shopback_cashback_ledger.Tests.Toy.{unary, size}

-- A padded text of one letter is the only one with white space around it.
abbrev pub toy_trim : String → String
toy_trim s = if s == " a " then "a" else s

pub toy_trim_trim : (s : String) → toy_trim (toy_trim s) ≡ toy_trim s
toy_trim_trim s = elim (Bool-cases (s == " a ")) [
  | inl padded ↦ rw padded refl
  | inr other ↦ rw (other, other) refl
]

abbrev pub toy_platform : Platform
toy_platform = record {
  Number = ℕ;
  number_of_nat = λ n. n * 10;
  number_of_text = size;
  is_finite = λ n. ltb n 100;
  is_positive = λ n. ltb 0 n;
  floor = λ n. n / 10 * 10;
  trim = toy_trim;
  trim_trim = toy_trim_trim;
  trim_empty = refl;
  to_upper_case = λ s. s;
  nat_text = unary;
}

-- Every variable is set, the ports too.
abbrev pub full_environment : Environment
full_environment name = some "iii"

abbrev pub request_of : String → Option String → Request toy_platform
request_of user ip = record {
  request_id = none;
  incoming_id = some "r1";
  headers = some (obj (field "x-user-id" (str user) end));
  ip = ip;
  method = some "POST";
  base_url = some "";
  path = some "/orders/o1/confirm";
  original_url = none;
  route_path = some "/orders/:id/confirm";
}

abbrev pub no_requests : ApiMetrics
no_requests = record { requests = []; durations = [] }
