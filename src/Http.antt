-- ===== src/Http.antt =====
-- The layer between Express and the controllers of the API, apps/api/src/common: request ids
-- (middleware/request-id.middleware.ts), the envelope of an answer
-- (interceptors/response-envelope.interceptor.ts, contracts/api-response.ts), the answer to an
-- exception (filters/http-exception.filter.ts, errors/error-codes.ts).
pub mod Throttle
pub mod Metrics
pub mod Serve
pub mod Reports
pub mod Answers
use shopback_cashback_ledger.Prelude.{
  ℕ, String, Bool, true, false, Option, none, some, List, [], ◌∷◌, ◌==◌, text_append,
  text_comparable, if◌then◌else◌, eqb,
}
use shopback_cashback_ledger.Json.{Json}
use shopback_cashback_ledger.Platform.{Platform}

-- The parts of an Express request that the layer reads. A value that the code tests with `typeof`
-- is `none` if it is no text.
pub record Request (P : Platform) : Type 0 where
  pub request_id : Option String
  -- `req.header('x-request-id')`
  pub incoming_id : Option String
  pub headers : Option (Json P.Number)
  pub ip : Option String
  pub method : Option String
  pub base_url : Option String
  pub path : Option String
  pub original_url : Option String
  -- `req.route?.path`
  pub route_path : Option String

-- `message?: string | string[]`
pub data Message : Type 0 where
  one : String → Message
  many : List String → Message

-- What `exception.getResponse()` returns: a text, or an object with or without a message.
pub data Reply : Type 0 where
  text : String → Reply
  object : Option Message → Reply

-- An `HttpException` with its status, reply and message, or anything else that is thrown.
pub data Exception : Type 0 where
  http : ℕ → Reply → String → Exception
  other : Exception

pub data Details : Type 0 where
  no_details : Details
  message_details : Message → Details
  reply_details : Reply → Details

pub record ApiError : Type 0 where
  pub code : String
  pub message : String
  pub details : Details

-- `ApiResponse<T>`
pub record ApiResponse (A : Type 0) : Type 0 where
  pub request_id : String
  -- `data`
  pub payload : Option A
  pub error : Option ApiError

pub record Response (A : Type 0) : Type 0 where
  pub status : ℕ
  pub body : ApiResponse A

-- `ErrorCodes`
abbrev pub err_validation : String
err_validation = "ERR_VALIDATION"

abbrev pub err_not_found : String
err_not_found = "ERR_NOT_FOUND"

abbrev pub err_conflict : String
err_conflict = "ERR_CONFLICT"

abbrev pub err_internal : String
err_internal = "ERR_INTERNAL"

-- `a ?? b`
abbrev pub or_else_text : Option String → String → String
or_else_text none b = b
or_else_text (some a) b = a

-- `parts.join('; ')`
abbrev pub join_more : String → List String → String
join_more a [] = a
join_more a (b ∷ bs) = text_append (text_append a "; ") (join_more b bs)

abbrev pub join_all : List String → String
join_all [] = ""
join_all (a ∷ bs) = join_more a bs

abbrev pub reply_message : Reply → Option Message
reply_message (text s) = some (one s)
reply_message (object m) = m

abbrev pub normalized : Option Message → Option String
normalized none = none
normalized (some (one s)) = some s
normalized (some (many parts)) = some (join_all parts)

-- `responseMessage ?? resp`
abbrev pub message_or_reply : Option Message → Reply → Details
message_or_reply none reply = reply_details reply
message_or_reply (some m) reply = message_details m

-- The code, the message and the details for an `HttpException`.
unfoldable pub http_error : ℕ → Reply → String → ApiError
http_error status reply message =
    let said = normalized (reply_message reply) in
    if eqb status 400
    then record {
      code = err_validation;
      message = "Validation failed";
      details = message_or_reply (reply_message reply) reply;
    }
    else if eqb status 404
    then record {
      code = err_not_found;
      message = or_else_text said "Not found";
      details = no_details;
    }
    else if eqb status 409
    then record {
      code = err_conflict;
      message = or_else_text said "Conflict";
      details = no_details;
    }
    else record {
      code = err_internal;
      message = or_else_text said message;
      details = reply_details reply;
    }

abbrev pub internal_error : ApiError
internal_error = record {
  code = err_internal;
  message = "Internal server error";
  details = no_details;
}

module _ (P : Platform) where
  -- `req.requestId ?? req.header('x-request-id') ?? 'unknown'`
  abbrev pub id_of : Request P → String
  id_of req = or_else_text req.request_id (or_else_text req.incoming_id "unknown")

  -- `incoming && incoming.trim().length > 0 ? incoming.trim() : randomUUID()`
  abbrev pub id_or_new : Option String → String → String
  id_or_new none uuid = uuid
  id_or_new (some incoming) uuid =
      if incoming == "" then uuid else if P.trim incoming == "" then uuid else P.trim incoming

  -- `RequestIdMiddleware.use`: the request, and the header `x-request-id` of the response
  unfoldable pub use_request_id : Request P → String → Request P × String
  use_request_id req uuid =
      let id = id_or_new req.incoming_id uuid in (record req { request_id = some id }, id)

  module _ {A : Type 0} where
    -- `HttpExceptionToApiResponseFilter.catch`
    unfoldable pub catch_exception : Request P → Exception → Response A
    unfolding http_error
    catch_exception req (http status reply message) = record {
      status = status;
      body = record {
        request_id = id_of req;
        payload = none;
        error = some (http_error status reply message);
      };
    }
    catch_exception req other = record {
      status = 500;
      body = record { request_id = id_of req; payload = none; error = some internal_error };
    }

    -- `ResponseEnvelopeInterceptor.intercept`, for the value of a handler
    unfoldable pub envelope : Request P → Option A → ApiResponse A
    envelope req value = record { request_id = id_of req; payload = value; error = none }
