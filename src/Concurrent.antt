-- ===== src/Concurrent.antt =====
-- Requests and messages at the same time, a statement at a time: `create` and `confirmAndOutbox` of
-- apps/api/src/orders/orders.controller.ts, `processOrderConfirmed` of packages/domain and of the
-- worker, and the updates of events by the worker's loops, interleaved in any order. The database
-- runs a transaction as PostgreSQL does by default (READ COMMITTED): a statement sees what is
-- committed, a write is seen by others when its transaction commits, and from the write to the
-- commit the row or the unique key is locked.
pub mod Changes
pub mod Invariant
pub mod Runs
pub mod Safety
pub mod Schedules
pub mod Turns
pub mod Twice
use shopback_cashback_ledger.Prelude.{
  ℕ, String, Option, none, some, ◌≡◌, ◌≢◌, ◌⊎◌, eqb, if◌then◌else◌, text_comparable,
  pair_comparable,
}
use shopback_cashback_ledger.Schema.{created, confirmed, credit, entry_key, entry_type_comparable}
use shopback_cashback_ledger.Services.{Services}
use shopback_cashback_ledger.Cashback.{OrderRow, EntryRow, cashback, credit_entry}
use shopback_cashback_ledger.Orders.{OutboxRow, set_confirmed, confirmed_event}
use shopback_cashback_ledger.Spec.Maps.{put}
use shopback_cashback_ledger.Spec.{Book, SameMessage, with_order, with_move}

-- What a write locks until its transaction ends.
pub data Lock : Type 0 where
  order_row : String → Lock
  credit_key : String → Lock
  event_key : String → Lock

module _ (S : Services) where
  -- Where a session stands, with what it has read or written and not committed.
  pub data Pc : Type 0 where
    idle : Pc
    -- before `order.create`
    placing : OrderRow S → Pc
    -- `confirmAndOutbox`: before it reads the order; after it was read in CREATED; after the update
    -- of the order, with the row that was returned; after the insertion of the event
    confirming : String → Pc
    seen : String → Pc
    updated : OrderRow S → Pc
    announced : OrderRow S → OutboxRow S → Pc
    -- `processOrderConfirmed`: before it reads the order; after it was read as confirmed; after the
    -- cashback is known; after the insertion of the credit
    crediting : String → Pc
    found : OrderRow S → Pc
    ruled : OrderRow S → S.Decimal → Pc
    entered : EntryRow S → Pc

  -- The writes of a transaction, at its commit.
  abbrev pub with_confirmation : Book S → OrderRow S → OutboxRow S → Book S
  with_confirmation b o e = record b { orders = put o.id o b.orders; outbox = put e.id e b.outbox }

  abbrev pub with_credit : Book S → EntryRow S → Book S
  with_credit b x = record b { ledger = put (x.order_id, x.type) x b.ledger }

  -- One step of one session. Any session may also end without an effect: it returns early, its
  -- statement is refused, or a call fails and the transaction is rolled back.
  pub data Move (b : Book S) : Pc → Book S → Pc → Type 0 where
    ask_create : (o : OrderRow S) → o.status ≡ created → Move b idle b (placing o)
    ask_confirm : (id : String) → Move b idle b (confirming id)
    ask_credit : (id : String) → Move b idle b (crediting id)
    stop : (p : Pc) → Move b p b idle
    store :
        (o : OrderRow S) (b' : Book S)
        → o.status ≡ created
        → b.orders o.id ≡ none
        → b' ≡ with_order S b o
        → Move b (placing o) b' idle
    read_created :
        (id : String) (o : OrderRow S)
        → b.orders id ≡ some o
        → o.status ≡ created
        → Move b (confirming id) b (seen id)
    -- The update waits for the lock, and then writes over the row that is committed.
    update_order :
        (id : String) (o : OrderRow S)
        → b.orders id ≡ some o
        → o.id ≡ id
        → Move b (seen id) b (updated (set_confirmed S o))
    create_event :
        (o : OrderRow S) (id : String) (time : ℕ)
        → b.outbox id ≡ none
        → Move b (updated o) b (announced o (confirmed_event S id time o))
    commit_confirm :
        (o : OrderRow S) (e : OutboxRow S) (b' : Book S)
        → b' ≡ with_confirmation b o e
        → Move b (announced o e) b' idle
    read_confirmed :
        (id : String) (o : OrderRow S)
        → b.orders id ≡ some o
        → o.id ≡ id
        → o.status ≡ confirmed
        → Move b (crediting id) b (found o)
    -- The rule may come from the database or from the cache.
    read_rule :
        (o : OrderRow S) (rate : S.Decimal) (limit : Option S.Decimal)
        → Move b (found o) b (ruled o (cashback S o.amount rate limit))
    create_entry :
        (o : OrderRow S) (amount : S.Decimal) (id : String)
        → b.ledger (o.id, credit) ≡ none
        → Move b (ruled o amount) b (entered (credit_entry S id o amount))
    commit_credit :
        (x : EntryRow S) (b' : Book S) → b' ≡ with_credit b x → Move b (entered x) b' idle
    -- An update of an event by the publisher or by a replay
    mark_event :
        (e e' : OutboxRow S) (b' : Book S)
        → b.outbox e.id ≡ some e
        → SameMessage S e e'
        → b' ≡ with_move S b e e'
        → Move b idle b' idle

  abbrev pub Holds : Pc → Lock → Type 0
  Holds idle l = ⊥
  Holds (placing o) l = ⊥
  Holds (confirming id) l = ⊥
  Holds (seen id) l = ⊥
  Holds (updated o) l = l ≡ order_row o.id
  Holds (announced o e) l = (l ≡ order_row o.id) ⊎ (l ≡ event_key e.id)
  Holds (crediting id) l = ⊥
  Holds (found o) l = ⊥
  Holds (ruled o amount) l = ⊥
  Holds (entered x) l = l ≡ credit_key x.order_id

  abbrev pub Apart : Pc → Pc → Type 0
  Apart p q = (l : Lock) → Holds p l → ¬ Holds q l

  pub record Shared : Type 0 where
    pub book : Book S
    pub pc : ℕ → Pc

  abbrev pub set_pc : (ℕ → Pc) → ℕ → Pc → ℕ → Pc
  set_pc pc i p j = if eqb i j then p else pc j

  -- A session moves if no other one holds a lock that it then holds.
  pub data Turn (s : Shared) : Shared → Type 0 where
    pick :
        (i : ℕ) (b : Book S) (p : Pc)
        → Move s.book (s.pc i) b p
        → ((j : ℕ) → i ≢ j → Apart p (s.pc j))
        → Turn s (record { book = b; pc = set_pc s.pc i p })

  pub data Reach (s : Shared) : Shared → Type 0 where
    start : Reach s s
    later : {t u : Shared} → Reach s t → Turn t u → Reach s u
