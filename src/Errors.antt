-- ===== src/Errors.antt =====
-- Failures of the services that the program calls, and what the program throws.
use shopback_cashback_ledger.Prelude.{String}
use shopback_cashback_ledger.Schema.{OrderStatus}

-- What a database or broker call reports, by the classes that the code tells apart: Prisma's
-- known request errors with their code, its initialization error, and all others.
pub data Fault : Type 0 where
  known_request : String → Fault
  initialization : Fault
  other_fault : String → Fault

-- How an external call ends: it takes effect, or it fails before or after its effect.
pub data Outcome : Type 0 where
  success : Outcome
  lost : Fault → Outcome
  unacknowledged : Fault → Outcome

pub data Error : Type 0 where
  service : Fault → Error
  -- a statement refused because an earlier one of its transaction failed
  transaction_aborted : Error
  -- `PrismaClientValidationError`: a unique argument that is no text
  invalid_argument : Error
  -- `DecimalError`: a text that is no decimal number
  invalid_decimal : String → Error
  -- `JSON.parse` failed
  syntax_error : Error
  order_not_found : String → Error
  order_not_confirmed : String → OrderStatus → Error
  missing_order_id : String → Error
  -- a command line that is refused
  usage : String → Error
  conflict : String → Error

-- `PrismaClientKnownRequestError` with the code of a unique constraint that failed, or of a
-- record to update that was not found.
abbrev pub unique_violation : Error
unique_violation = service (known_request "P2002")

abbrev pub record_not_found : Error
record_not_found = service (known_request "P2025")
