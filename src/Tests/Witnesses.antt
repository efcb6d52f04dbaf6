-- ===== src/Tests/Witnesses.antt =====
-- The theorems at concrete inputs.
use shopback_cashback_ledger.Prelude.{
  Bool-cases, inl, inr, ◌==◌, text_comparable, ◌≢◌, true, ℕ, zero, suc, String, false, some, ◌≡◌,
  refl,
}
use shopback_cashback_ledger.Json.{str}
use shopback_cashback_ledger.Schema.{created, confirmed, credit}
use shopback_cashback_ledger.Errors.{Outcome, success, lost, service, other_fault, conflict}
use shopback_cashback_ledger.Effect.{ok, err}
use shopback_cashback_ledger.Services.{Services}
use shopback_cashback_ledger.Calls.{tick}
use shopback_cashback_ledger.Cashback.{OrderRow, cashback}
use shopback_cashback_ledger.Cashback.Amount.{cashback-le-cap}
use shopback_cashback_ledger.Domain
use shopback_cashback_ledger.Domain.Credits.{Processed, process_order_confirmed-Processed}
use shopback_cashback_ledger.Domain.Duplicates.{Unanswered, duplicate-Unanswered}
use shopback_cashback_ledger.Handler
use shopback_cashback_ledger.Handler.Credits.{
  ProcessedByRule, process_order_confirmed-ProcessedByRule,
}
use shopback_cashback_ledger.Handler.Resilient.{process_order_confirmed-resilient}
use shopback_cashback_ledger.Orders.{CreateOrderDto, create, confirm_and_outbox, order_json}
use shopback_cashback_ledger.Orders.Confirmed.{Confirmed, confirm_and_outbox-Confirmed}
use shopback_cashback_ledger.Orders.Conflict.{create_conflict}
use shopback_cashback_ledger.Orders.Idempotent.{create_gap, create_twice, created_row, with_order}
use shopback_cashback_ledger.Spec.{Steps}
use shopback_cashback_ledger.Spec.Kept.{IsBacked, SameTerms}
use shopback_cashback_ledger.Spec.Announced.{IsAnnounced}
use shopback_cashback_ledger.History.{view}
use shopback_cashback_ledger.System.Refinement.{run-Steps}
use shopback_cashback_ledger.System.{run}
use shopback_cashback_ledger.System.Safety.{
  run-IsAnnounced, credited_once, run-IsBacked, run-SameTerms,
}
use shopback_cashback_ledger.Tests.Toy.{
  toy, toy_with, parse_event, world_of, world_with, credited_world, credit_row, order_with, life,
  dto, dto_of,
}

credited_once_example :
    toy.ledger.find ("o1", credit) (run toy life credited_world).db.ledger ≡ some credit_row
credited_once_example = credited_once toy life credited_world "o1" credit_row refl

run-IsBacked_example : IsBacked toy (view toy (run toy life (world_with created)).db)
run-IsBacked_example = run-IsBacked toy life (world_with created) (λ order_id e h. cc)

run-SameTerms_example :
    (o' : OrderRow toy) × (toy.orders.find "o1" (run toy life (world_with created)).db.orders
      ≡ some o')
    × SameTerms toy (order_with created) o'
run-SameTerms_example = run-SameTerms toy life (world_with created) "o1" (order_with created) refl

process_order_confirmed-Processed_example :
    Processed toy
      (world_with confirmed).db
      "o1"
      (Domain.process_order_confirmed toy "o1" (world_with confirmed)).0
      (Domain.process_order_confirmed toy "o1" (world_with confirmed)).1.db
process_order_confirmed-Processed_example =
    process_order_confirmed-Processed toy "o1" (world_with confirmed)

process_order_confirmed-ProcessedByRule_example :
    ProcessedByRule toy
      (world_with confirmed).db
      "o1"
      (Handler.process_order_confirmed toy "o1" (world_with confirmed)).0
      (Handler.process_order_confirmed toy "o1" (world_with confirmed)).1.db
process_order_confirmed-ProcessedByRule_example =
    process_order_confirmed-ProcessedByRule toy "o1" (world_with confirmed)

duplicate-Unanswered_example :
    Unanswered toy refl credited_world.db
      (Domain.process_order_confirmed toy "o1" credited_world).0
      (Domain.process_order_confirmed toy "o1" credited_world).1.db
duplicate-Unanswered_example =
    duplicate-Unanswered toy refl "o1" credited_world {order = order_with confirmed}
      {e = credit_row} (record { found = refl; has_credit = refl })

cashback-le-cap_example : toy.greater_than (cashback toy 200 10 (some 15)) 15 ≡ false
cashback-le-cap_example = cashback-le-cap toy 200 10 15 refl

confirm_and_outbox-Confirmed_example :
    Confirmed toy
      (world_with created).db
      "o1"
      (confirm_and_outbox toy "o1" (world_with created)).0
      (confirm_and_outbox toy "o1" (world_with created)).1.db
confirm_and_outbox-Confirmed_example = confirm_and_outbox-Confirmed toy "o1" (world_with created)

create_twice_example :
    let (r, w') = create toy (some "k") dto (world_with created) in
    (r ≡ ok (order_json toy (created_row toy (world_with created) dto)))
    × (create toy (some "k") dto w' ≡ (r, tick toy w'))
create_twice_example =
    create_twice toy "k" dto (world_with created) (λ h. cc) refl refl refl refl refl refl

-- The same order asked for with another body.
abbrev other_dto : CreateOrderDto toy
other_dto = record dto { body = str "other" }

create_conflict_example :
    let (r, w') = create toy (some "k") dto (world_with created) in
    create toy (some "k") other_dto w'
    ≡ (err (conflict "Idempotency-Key reused with different request body"), tick toy w')
create_conflict_example =
    create_conflict toy "k" dto other_dto (world_with created) (λ h. cc) refl refl refl refl refl
      refl (λ h. cc) (λ same. same)

-- The third call is lost.
abbrev third_lost : ℕ → Outcome
third_lost (suc (suc zero)) = lost (other_fault "connection reset")
third_lost _ = success

abbrev shaky : Services
shaky = toy_with third_lost parse_event

abbrev shaky_dto : CreateOrderDto shaky
shaky_dto = dto_of third_lost parse_event

create_gap_example :
    let w = world_of third_lost parse_event created in
    create shaky (some "k") shaky_dto w ≡ (
      err (service (other_fault "connection reset")),
      record w { db = with_order shaky w shaky_dto; calls = 3 },
    )
create_gap_example =
    create_gap shaky "k" shaky_dto (world_of third_lost parse_event created) (λ h. cc) refl refl
      refl refl refl

-- The second, third, fifth and seventh call are lost: those of Redis.
abbrev redis_down : ℕ → Outcome
redis_down (suc zero) = lost (other_fault "redis down")
redis_down (suc (suc zero)) = lost (other_fault "redis down")
redis_down (suc (suc (suc (suc zero)))) = lost (other_fault "redis down")
redis_down (suc (suc (suc (suc (suc (suc zero)))))) = lost (other_fault "redis down")
redis_down _ = success

abbrev without_redis : Services
without_redis = toy_with redis_down parse_event

process_order_confirmed-resilient_example :
    let w = world_of redis_down parse_event confirmed in
    let (r, w') = Handler.process_order_confirmed without_redis "o1" w in
    (r
      ≡ ok (record {
        order_id = "o1";
        credited = true;
        ledger_entry_id = some (without_redis.uuid 7);
        amount = 15;
        currency = "SGD";
      }))
    × (without_redis.ledger.find ("o1", credit) w'.db.ledger
        ≡ some (record credit_row { id = without_redis.uuid 7 }))
unfolding cashback
process_order_confirmed-resilient_example =
    process_order_confirmed-resilient without_redis "o1" (order_with confirmed)
      (world_of redis_down parse_event confirmed) (refl, refl) refl refl refl refl refl refl refl
      refl refl

run-Steps_example :
    Steps toy (view toy (world_with created).db) (view toy (run toy life (world_with created)).db)
run-Steps_example = run-Steps toy life (world_with created)

unconfirmed :
    (id : String) (o : OrderRow toy)
    → toy.orders.find id (world_with created).db.orders ≡ some o
    → o.status ≢ confirmed
unconfirmed id o found is = elim (Bool-cases ("o1" == id)) [
  | inl same ↦ cc (rw same at found, is)
  | inr other ↦ absurd (cc (rw other at found))
]

-- The order is not confirmed yet, and there is no event.
pub nothing-IsAnnounced : IsAnnounced toy (view toy (world_with created).db)
nothing-IsAnnounced = record {
  matched = record {
    has_event = λ id (o, found, is_confirmed). absurd (unconfirmed id o found is_confirmed);
    of_confirmed = λ id i (e, found, k). absurd cc;
  };
  one_event = λ id i j (e, found, k) e'. absurd cc;
}

run-IsAnnounced_example : IsAnnounced toy (view toy (run toy life (world_with created)).db)
run-IsAnnounced_example = run-IsAnnounced toy life (world_with created) nothing-IsAnnounced
