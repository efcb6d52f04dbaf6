-- ===== src/Spec.antt =====
-- What the program promises, without tables, calls and failures: a book of orders, credits and events
-- that changes by four kinds of steps. apps/api/src/orders/orders.controller.ts places and confirms
-- orders, packages/domain and apps/worker credit them, and the worker's loops move events on.
pub mod Maps
pub mod Kept
pub mod Announced
use shopback_cashback_ledger.Prelude.{
  ℕ, String, Bool, Option, none, some, Comparable, ◌==◌, text_comparable, pair_comparable,
  if◌then◌else◌, ◌≡◌, arith,
}
use shopback_cashback_ledger.Spec.Maps.{put}
use shopback_cashback_ledger.Schema.{
  LedgerEntryType, entry_type_comparable, created, confirmed, credit,
}
use shopback_cashback_ledger.Services.{Services}
use shopback_cashback_ledger.Cashback.{OrderRow, EntryRow, cashback, credit_entry}
use shopback_cashback_ledger.Orders.{OutboxRow, set_confirmed, confirmed_event}

module _ (S : Services) where
  pub record Book : Type 0 where
    pub orders : String → Option (OrderRow S)
    pub ledger : String × LedgerEntryType → Option (EntryRow S)
    pub outbox : String → Option (OutboxRow S)

  -- The later row of an event says the same to the consumer.
  pub record SameMessage (e e' : OutboxRow S) : Type 0 where
    pub id : e'.id ≡ e.id
    pub aggregate_id : e'.aggregate_id ≡ e.aggregate_id
    pub type : e'.type ≡ e.type
    pub payload : e'.payload ≡ e.payload
    pub created_at : e'.created_at ≡ e.created_at

  pub SameMessage-refl : (e : OutboxRow S) → SameMessage e e
  SameMessage-refl e = ground arith

  -- The book after each kind of step.
  abbrev pub with_order : Book → OrderRow S → Book
  with_order b o = record b { orders = put o.id o b.orders }

  abbrev pub with_event : Book → OrderRow S → String → ℕ → Book
  with_event b o id time = record b {
    orders = put o.id (set_confirmed S o) b.orders;
    outbox = put id (confirmed_event S id time (set_confirmed S o)) b.outbox;
  }

  abbrev pub with_entry : Book → OrderRow S → String → S.Decimal → Book
  with_entry b o id amount = record b {
    ledger = put (o.id, credit) (credit_entry S id o amount) b.ledger;
  }

  abbrev pub with_move : Book → OutboxRow S → OutboxRow S → Book
  with_move b e e' = record b { outbox = put e.id e' b.outbox }

  -- An order is placed once; an order in `CREATED` is confirmed together with a new event of its
  -- own; a confirmed order without a credit gets one, of its cashback under some rule; an event changes in what the consumer does not
  -- see.
  pub data Step (b b' : Book) : Type 0 where
    place :
        (o : OrderRow S)
        → b.orders o.id ≡ none
        → o.status ≡ created
        → b' ≡ with_order b o
        → Step b b'
    confirm :
        (o : OrderRow S) (id : String) (time : ℕ)
        → b.orders o.id ≡ some o
        → o.status ≡ created
        → b.outbox id ≡ none
        → b' ≡ with_event b o id time
        → Step b b'
    give :
        (o : OrderRow S) (id : String) (rate : S.Decimal) (limit : Option S.Decimal)
        → b.orders o.id ≡ some o
        → o.status ≡ confirmed
        → b.ledger (o.id, credit) ≡ none
        → b' ≡ with_entry b o id (cashback S o.amount rate limit)
        → Step b b'
    move :
        (e e' : OutboxRow S)
        → b.outbox e.id ≡ some e
        → SameMessage e e'
        → b' ≡ with_move b e e'
        → Step b b'

  pub data Steps (a : Book) : Book → Type 0 where
    here : Steps a a
    next : {b c : Book} → Steps a b → Step b c → Steps a c

  pub Steps-trans : {a b c : Book} → Steps a b → Steps b c → Steps a c
  Steps-trans h here = h
  Steps-trans h (next k s) = next (Steps-trans h k) s

  pub Steps-one : {a b : Book} → Step a b → Steps a b
  Steps-one s = next here s

  -- A property that each step keeps, and a preorder that each step is in.
  pub Steps-keep :
      (P : Book → Type 0)
      → ((b c : Book) → Step b c → P b → P c)
      → {b c : Book} → Steps b c
      → P b
      → P c
  Steps-keep P keep here h = h
  Steps-keep P keep (next k s) h = keep _ _ s (Steps-keep P keep k h)
