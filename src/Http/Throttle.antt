-- ===== src/Http/Throttle.antt =====
-- apps/api/src/common/throttle/user-throttler.guard.ts: by what a request is limited, and how a
-- refused request is counted. The limit itself is that of `@nestjs/throttler`.
use shopback_cashback_ledger.Prelude.{
  String, Option, none, some, ◌==◌, text_append, text_comparable, if◌then◌else◌,
}
use shopback_cashback_ledger.Json.{Json, null, str, member}
use shopback_cashback_ledger.Platform.{Platform}
use shopback_cashback_ledger.Http.{text, Request, Exception, http, or_else_text}

-- `a ?? b`
abbrev pub nullish : {N : Type 0} → Option (Json N) → Option (Json N) → Option (Json N)
nullish none b = b
nullish (some null) b = b
nullish (some v) b = some v

-- `headers?.[name]`
abbrev pub header_value : {N : Type 0} → Option (Json N) → String → Option (Json N)
header_value none name = none
header_value (some headers) name = member name headers

-- `typeof v === 'string'`
abbrev pub text_of : {N : Type 0} → Option (Json N) → Option String
text_of (some (str s)) = some s
text_of _ = none

-- `route === '' ? '/' : route`
abbrev pub or_root : String → String
or_root route = if route == "" then "/" else route

-- The text `Too Many Requests` of `ThrottlerException`
abbrev pub too_many_requests : String
too_many_requests = "ThrottlerException: Too Many Requests"

abbrev pub throttler_exception : Exception
throttler_exception = http 429 (text too_many_requests) too_many_requests

module _ (P : Platform) where
  abbrev pub path_or_url : Request P → Option String → String
  path_or_url req none = or_else_text req.original_url "unknown"
  path_or_url req (some path) = path

  -- `getRoute` of the guard
  abbrev pub refused_route : Request P → String
  refused_route req =
      or_root (text_append (or_else_text req.base_url "") (path_or_url req req.path))

  abbrev pub user_header : Request P → Option (Json P.Number)
  user_header req =
      let h = header_value req.headers in
      nullish (h "x-user-id") (nullish (h "X-User-Id") (nullish (h "x-userid") (h "X-UserId")))

  abbrev pub ip_tracker : Option String → String
  ip_tracker none = "unknown"
  ip_tracker (some ip) = if P.trim ip == "" then "unknown" else ip

  abbrev pub user_tracker : Option String → Option String → String
  user_tracker none ip = ip_tracker ip
  user_tracker (some user) ip = if P.trim user == "" then ip_tracker ip else P.trim user

  unfoldable pub get_tracker : Request P → String
  get_tracker req = user_tracker (text_of (user_header req)) req.ip

  abbrev pub refused_method : Option String → String
  refused_method none = "UNKNOWN"
  refused_method (some m) = P.to_upper_case m
