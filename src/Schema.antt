-- ===== src/Schema.antt =====
-- The rows of packages/db/prisma/schema.prisma, with the columns that the code reads or writes.
-- Ids, user ids, merchant ids and currencies are texts; a `DateTime` is a number of milliseconds.
use shopback_cashback_ledger.Prelude.{
  ℕ, String, Option, Comparable, Bool, true, false, ◌≡◌, ◌↔◌, arith,
}
use shopback_cashback_ledger.Json.{Json}

pub data OrderStatus : Type 0 where
  created confirmed cancelled : OrderStatus

pub data LedgerEntryType : Type 0 where
  credit debit : LedgerEntryType

pub data OutboxStatus : Type 0 where
  pending sent failed : OutboxStatus

pub data InboxStatus : Type 0 where
  pending processed failed : InboxStatus

abbrev pub entry_type_beq : LedgerEntryType → LedgerEntryType → Bool
entry_type_beq credit credit = true
entry_type_beq debit debit = true
entry_type_beq _ _ = false

pub entry_type_beq_iff : (s t : LedgerEntryType) → (entry_type_beq s t ≡ true) ↔ (s ≡ t)
entry_type_beq_iff s t = ground arith

instance abbrev pub entry_type_comparable : Comparable LedgerEntryType
entry_type_comparable = record { equal = entry_type_beq; equal_iff = entry_type_beq_iff }

-- What Redis holds under a key, if anything.
pub record CacheEntry : Type 0 where
  pub key : String
  pub value : Option String

module _ (Decimal : Type 0) where
  pub record Order : Type 0 where
    pub id : String
    pub user_id : String
    pub merchant_id : String
    pub amount : Decimal
    pub currency : String
    pub status : OrderStatus
    pub created_at : ℕ

  -- The rule of a merchant, found by the unique `merchantId`; its own id is never read.
  pub record CashbackRule : Type 0 where
    pub merchant_id : String
    pub rate : Decimal
    pub cap : Option Decimal

  pub record LedgerEntry : Type 0 where
    pub id : String
    pub user_id : String
    pub order_id : String
    pub type : LedgerEntryType
    pub amount : Decimal
    pub currency : String

  -- `@@unique([orderId, type])`
  abbrev pub entry_key : LedgerEntry → String × LedgerEntryType
  entry_key e = (e.order_id, e.type)

module _ (Number : Type 0) where
  pub record IdempotencyKey : Type 0 where
    pub key : String
    pub scope : String
    pub request_hash : String
    pub response_body : Json Number
    pub expires_at : Option ℕ

  -- `@@id([key, scope])`
  abbrev pub key_scope : IdempotencyKey → String × String
  key_scope k = (k.key, k.scope)

  pub record OutboxEvent : Type 0 where
    pub id : String
    pub aggregate_id : String
    pub type : String
    pub payload : Json Number
    pub status : OutboxStatus
    pub attempts : ℕ
    pub available_at : ℕ
    pub created_at : ℕ
    pub sent_at : Option ℕ
    pub last_error : Option String

  pub record InboxEvent : Type 0 where
    pub id : String
    pub source_event_id : String
    pub type : String
    pub payload : Json Number
    pub status : InboxStatus
    pub attempts : ℕ
    pub available_at : ℕ
    pub last_error : Option String
    pub processed_at : Option ℕ
