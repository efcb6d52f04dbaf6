-- ===== src/History.antt =====
-- The tables of orders, of the ledger and of the outbox as a book, and that every operation of the
-- program changes them by steps of the book, whatever calls of it fail.
pub mod Actions
pub mod Outbox
pub mod Api
pub mod Worker
pub mod Upkeep
use shopback_cashback_ledger.Services.{Services}
use shopback_cashback_ledger.World.{Db}
use shopback_cashback_ledger.Calls.Respects.{Relation}
use shopback_cashback_ledger.Spec.{Book, Steps, here, Steps-trans}

module _ (S : Services) where
  -- A book forgets the order of rows and how a table holds them.
  abbrev pub view : Db S → Book S
  view d = record {
    orders = λ id. S.orders.find id d.orders;
    ledger = λ k. S.ledger.find k d.ledger;
    outbox = λ id. S.outbox.find id d.outbox;
  }

  abbrev pub Follows : Relation S
  Follows = record {
    Rel = λ d d'. Steps S (view d) (view d');
    rel_refl = λ d. here;
    rel_trans = λ a b c. Steps-trans S;
  }
