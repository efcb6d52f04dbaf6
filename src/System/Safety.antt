-- ===== src/System/Safety.antt =====
-- What holds of the ledger, of orders and of events after any operations, whatever calls of them fail.
use shopback_cashback_ledger.Prelude.{String, some, List, ◌≡◌}
use shopback_cashback_ledger.Schema.{credit}
use shopback_cashback_ledger.Services.{Services}
use shopback_cashback_ledger.World.{World}
use shopback_cashback_ledger.Cashback.{OrderRow, EntryRow}
use shopback_cashback_ledger.Spec.Kept.{
  IsBacked, SameTerms, SameTerms-refl, Steps-KeepsEntry, Steps-KeepsOrder, Steps-IsBacked,
}
use shopback_cashback_ledger.Spec.Announced.{IsAnnounced, Steps-IsAnnounced}
use shopback_cashback_ledger.History.{view}
use shopback_cashback_ledger.System.{Operation, run}
use shopback_cashback_ledger.System.Refinement.{run-Steps}

module _ (S : Services) where
  -- Once the ledger holds a credit for an order, any operations, in any order and with any of their
  -- calls failing, leave exactly that credit: the order is not credited again, and the entry is
  -- neither changed nor removed.
  pub credited_once :
      (ops : List (Operation S)) (w : World S) (order_id : String) (e : EntryRow S)
      → S.ledger.find (order_id, credit) w.db.ledger ≡ some e
      → S.ledger.find (order_id, credit) (run S ops w).db.ledger ≡ some e
  credited_once ops w order_id e h = Steps-KeepsEntry S (order_id, credit) e (run-Steps S ops w) h

  -- If every credit belongs to a stored order that is confirmed, has the user and the currency of
  -- the credit, and has an amount whose cashback under some rate and cap is the credit's amount, that
  -- is so after any operations too, whatever calls of them fail.
  pub run-IsBacked :
      (ops : List (Operation S)) (w : World S)
      → IsBacked S (view S w.db)
      → IsBacked S (view S (run S ops w).db)
  run-IsBacked ops w = Steps-IsBacked S (run-Steps S ops w)

  -- If each confirmed order has exactly one event in the outbox, and each event is of a confirmed
  -- order, that is so after any operations too, whatever calls of them fail.
  pub run-IsAnnounced :
      (ops : List (Operation S)) (w : World S)
      → IsAnnounced S (view S w.db)
      → IsAnnounced S (view S (run S ops w).db)
  run-IsAnnounced ops w = Steps-IsAnnounced S (run-Steps S ops w)

  -- After any operations, whatever calls of them fail, an order is still stored under its id with
  -- the same user, merchant, amount and currency, and if it was confirmed it is confirmed.
  pub run-SameTerms :
      (ops : List (Operation S)) (w : World S) (id : String) (o : OrderRow S)
      → S.orders.find id w.db.orders ≡ some o
      → (o' : OrderRow S) × (S.orders.find id (run S ops w).db.orders ≡ some o') × SameTerms S o o'
  run-SameTerms ops w id o h =
      Steps-KeepsOrder S id o (run-Steps S ops w) (o, h, SameTerms-refl S o)
