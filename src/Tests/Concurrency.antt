-- ===== src/Tests/Concurrency.antt =====
-- The theorems on sessions that take turns, at concrete schedules.
use shopback_cashback_ledger.Prelude.{
  ℕ, String, none, some, ◌≡◌, ◌≢◌, refl, text_comparable, eq_iff,
}
use mathlib.Core.Bool.{false≢true}
use shopback_cashback_ledger.Schema.{Order, created, confirmed, credit}
use shopback_cashback_ledger.Cashback.{cashback}
use shopback_cashback_ledger.Effect.{ok}
use shopback_cashback_ledger.Idempotency.{get_cached_response}
use shopback_cashback_ledger.Orders.{order_json}
use shopback_cashback_ledger.Orders.Raced.{unsaved, order_at, create_raced}
use shopback_cashback_ledger.Spec.{Book, with_order, with_entry}
use shopback_cashback_ledger.Spec.Kept.{KeepsEntry, IsBacked}
use shopback_cashback_ledger.Spec.Announced.{IsMatched, HasEvent}
use shopback_cashback_ledger.History.{view}
use shopback_cashback_ledger.Concurrent.{
  crediting, found, ruled, placing, ask_create, store, ask_credit, read_confirmed, read_rule,
  create_entry, commit_credit, stop, Reach,
}
use shopback_cashback_ledger.Concurrent.Safety.{Reach-KeepsEntry, Reach-IsBacked, Reach-IsMatched}
use shopback_cashback_ledger.Concurrent.Schedules.{
  at_rest, from_rest, to_rest, first, second, alone,
}
use shopback_cashback_ledger.Concurrent.Twice.{twice_confirmed, confirmed_twice}
use shopback_cashback_ledger.Tests.Toy.{
  toy, world_with, credited_world, credit_row, order_with, dto,
}
use shopback_cashback_ledger.Tests.Witnesses.{nothing-IsAnnounced}

abbrev new_order : Order ℕ
new_order = record (order_with created) { id = "o2" }

abbrev credited : Book toy
credited = view toy credited_world.db

-- One session tries to credit `o1` again, and between its steps another one places `o2`.
credited-Reach : Reach toy (at_rest toy credited) (at_rest toy (with_order toy credited new_order))
credited-Reach =
    let order : Order ℕ = order_with confirmed in
    let asked = alone toy (from_rest toy credited) (ask_credit "o1") in
    let read = alone toy asked (read_confirmed "o1" order refl refl refl) in
    let other = second toy (found order) read (ask_create new_order refl) (λ l h k. h) in
    let amount = first toy (placing new_order) other (read_rule order 10 none) (λ l h k. h) in
    let stored =
      second toy (ruled order _) amount (store new_order _ refl refl refl) (λ l h k. h) in
    to_rest toy (alone toy stored (stop _))

Reach-KeepsEntry_example :
    KeepsEntry toy ("o1", credit) credit_row (with_order toy credited new_order)
Reach-KeepsEntry_example =
    Reach-KeepsEntry toy (at_rest toy credited) (at_rest toy (with_order toy credited new_order))
      ("o1", credit) credit_row (λ i. refl) credited-Reach refl

abbrev due : Book toy
due = view toy (world_with confirmed).db

abbrev after_credit : Book toy
after_credit =
    with_entry toy due (order_with confirmed) "l1"
      (cashback toy (order_with confirmed).amount 10 none)

-- Two sessions credit `o1`: both see that it has no credit, and one of them enters it.
due-Reach : Reach toy (at_rest toy due) (at_rest toy after_credit)
due-Reach =
    let order : Order ℕ = order_with confirmed in
    let asked = alone toy (from_rest toy due) (ask_credit "o1") in
    let both = second toy (crediting "o1") asked (ask_credit "o1") (λ l h k. h) in
    let read =
      first toy (crediting "o1") both (read_confirmed "o1" order refl refl refl) (λ l h k. h) in
    let read' =
      second toy (found order) read (read_confirmed "o1" order refl refl refl) (λ l h k. h) in
    let amount = first toy (found order) read' (read_rule order 10 none) (λ l h k. h) in
    let amount' = second toy (ruled order _) amount (read_rule order 20 none) (λ l h k. h) in
    let written = second toy (ruled order _) amount' (stop _) (λ l h k. h) in
    let enter = alone toy written (create_entry order _ "l1" refl) in
    to_rest toy (alone toy enter (commit_credit _ after_credit refl))

Reach-IsBacked_example : IsBacked toy after_credit
Reach-IsBacked_example =
    Reach-IsBacked toy (at_rest toy due) (at_rest toy after_credit) (λ i. refl) due-Reach
      (λ id x h. cc)

abbrev unconfirmed : Book toy
unconfirmed = view toy (world_with created).db

different_ids : ◌≢◌ {A = String} "e1" "e2"
different_ids h = false≢true ((eq_iff "e1" "e2").1 h)

confirmed_twice_example :
    Reach toy
      (at_rest toy unconfirmed)
      (at_rest toy (twice_confirmed toy unconfirmed (order_with created) "e1" "e2" 3 4))
    × HasEvent toy "o1" "e1" (twice_confirmed toy unconfirmed (order_with created) "e1" "e2" 3 4)
    × HasEvent toy "o1" "e2" (twice_confirmed toy unconfirmed (order_with created) "e1" "e2" 3 4)
confirmed_twice_example =
    confirmed_twice toy unconfirmed (order_with created) "e1" "e2" 3 4 refl refl refl refl
      different_ids

twice-Reach :
    Reach toy
      (at_rest toy unconfirmed)
      (at_rest toy (twice_confirmed toy unconfirmed (order_with created) "e1" "e2" 3 4))
twice-Reach =
    let order : Order ℕ = order_with created in
    (confirmed_twice toy unconfirmed order "e1" "e2" 3 4 refl refl refl refl different_ids).0

Reach-IsMatched_example :
    IsMatched toy (twice_confirmed toy unconfirmed (order_with created) "e1" "e2" 3 4)
Reach-IsMatched_example =
    Reach-IsMatched toy (at_rest toy unconfirmed)
      (at_rest toy (twice_confirmed toy unconfirmed (order_with created) "e1" "e2" 3 4)) (λ i. refl)
      twice-Reach nothing-IsAnnounced.matched

create_raced_example :
    let (cached, w1) = get_cached_response toy "k" "POST:/orders" (world_with created) in
    let (cached', w2) = get_cached_response toy "k" "POST:/orders" w1 in
    let (r, w3) = unsaved toy "k" "hash" dto w2 in
    let (r', w4) = unsaved toy "k" "hash" dto w3 in
    (cached ≡ ok none)
    × (cached' ≡ ok none)
    × (r ≡ ok (order_json toy (order_at toy 2 dto)))
    × (r' ≡ ok (order_json toy (order_at toy 4 dto)))
    × (toy.orders.find (toy.uuid 2) w4.db.orders ≡ some (order_at toy 2 dto))
    × (toy.orders.find (toy.uuid 4) w4.db.orders ≡ some (order_at toy 4 dto))
create_raced_example =
    create_raced toy (λ n. refl) "k" "hash" dto (world_with created) refl refl refl
      (λ e. false≢true ((eq_iff (toy.uuid 2) (toy.uuid 4)).1 e))
