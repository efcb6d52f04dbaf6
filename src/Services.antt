-- ===== src/Services.antt =====
-- What the program calls and does not implement: the database, decimal numbers, the clock, the
-- faults of the services, and text functions of the platform. They are fields of one record that
-- every definition of the model takes; the laws are documented behaviour of those parts.
pub mod Table
use shopback_cashback_ledger.Prelude.{
  ℕ, String, Bool, false, Option, some, ◌≡◌, ◌≢◌, text_comparable, pair_comparable,
}
use shopback_cashback_ledger.Json.{Json}
use shopback_cashback_ledger.Errors.{Error, Outcome}
use shopback_cashback_ledger.Schema.{
  Order, CacheEntry, CashbackRule, LedgerEntry, IdempotencyKey, OutboxEvent, InboxEvent, entry_key,
  key_scope, entry_type_comparable,
}
use Table.{Table as RowTable}

pub record Services : Type 1 where
  -- `Prisma.Decimal` (decimal.js) and JavaScript's numbers
  pub Decimal : Type 0
  pub Number : Type 0
  pub mul : Decimal → Decimal → Decimal
  pub greater_than : Decimal → Decimal → Bool
  pub to_decimal_places : ℕ → Decimal → Decimal
  -- what a column of so many decimal places stores of a number
  pub to_scale : ℕ → Decimal → Decimal
  pub to_number : Decimal → Number
  pub number_of_nat : ℕ → Number
  -- `!n` is false
  pub truthy_number : Number → Bool
  -- `Number(text)` where it is a natural number, as Prisma's `take` wants one
  pub count_of_text : String → Option ℕ
  pub decimal_of_number : Number → Decimal
  -- `new Prisma.Decimal(text)` where it does not throw, and `new Prisma.Decimal('0.05')`
  pub decimal_of_text : String → Option Decimal
  pub five_percent : Decimal
  pub decimal_to_text : Decimal → String
  -- printing a decimal and reading it back gives the same decimal
  pub decimal_of_text-to_text : (d : Decimal) → decimal_of_text (decimal_to_text d) ≡ some d
  -- a printed decimal has a digit
  pub decimal_to_text_nonempty : (d : Decimal) → decimal_to_text d ≢ ""
  pub greater_than_irrefl : (a : Decimal) → greater_than a a ≡ false
  -- rounding keeps the order
  pub rounding_mono :
      (n : ℕ) (a b : Decimal)
      → greater_than a b ≡ false
      → greater_than (to_decimal_places n a) (to_decimal_places n b) ≡ false
  -- the tables
  pub orders : RowTable (Order.id {Decimal = Decimal})
  pub rules : RowTable (CashbackRule.merchant_id {Decimal = Decimal})
  pub ledger : RowTable (entry_key Decimal)
  pub keys : RowTable (key_scope Number)
  pub outbox : RowTable (OutboxEvent.id {Number = Number})
  pub inbox : RowTable (InboxEvent.id {Number = Number})
  -- the keys of Redis; an entry without a value is an absent key
  pub cache : RowTable CacheEntry.key
  -- whether a key has expired at the n-th call, and what other processes do to Redis while the
  -- program waits at it
  pub expired : ℕ → String → Bool
  pub meanwhile : ℕ → cache.Rows → cache.Rows
  -- how the n-th external call ends, the time at it in milliseconds, and the id of a row it makes
  pub outcome : ℕ → Outcome
  pub clock : ℕ → ℕ
  pub uuid : ℕ → String
  -- whether a failed statement makes the database refuse the rest of its transaction
  pub aborts : Bool
  -- `JSON.stringify`, and `JSON.parse` where it does not throw
  pub stringify : Json Number → String
  pub parse : String → Option (Json Number)
  -- `Date.prototype.toISOString`, `String(error)`, `String(json)` of a value
  -- that is no text, `toUpperCase`, and SHA-256 in hexadecimal
  pub iso_text : ℕ → String
  pub error_text : Error → String
  pub json_text : Json Number → String
  pub to_upper_case : String → String
  pub sha256 : String → String
