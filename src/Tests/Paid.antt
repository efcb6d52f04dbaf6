-- ===== src/Tests/Paid.antt =====
-- The way of `o1` from its confirmation to its cashback.
use shopback_cashback_ledger.Prelude.{
  ℕ, String, Option, some, [], ◌∷◌, ◌++◌, ◌≡◌, refl, ◌==◌, text_comparable, pair_comparable,
  if◌then◌else◌,
}
use shopback_cashback_ledger.Json.{Json, str}
use shopback_cashback_ledger.Schema.{created, confirmed, credit, entry_type_comparable}
use shopback_cashback_ledger.Effect.{ok}
use shopback_cashback_ledger.Services.{Services}
use shopback_cashback_ledger.World.{World}
use shopback_cashback_ledger.Cashback.{credit_entry}
use shopback_cashback_ledger.Domain.Credits.{due}
use shopback_cashback_ledger.RuleCache.{snapshot_json, snapshot_of}
use shopback_cashback_ledger.Orders.{confirm_json, confirm_and_outbox}
use shopback_cashback_ledger.Outbox.{event_message, publish_event}
use shopback_cashback_ledger.Consumer.{each_message}
use shopback_cashback_ledger.System.Paid.{event_of, order_paid}
use shopback_cashback_ledger.Tests.Toy.{
  toy, toy_with, calm, order_with, rule, world_of, world_with, settings, delivery,
}

-- The text of the message is read as the event of `o1`, any other as the rule of its merchant.
abbrev parse_both : String → Option (Json ℕ)
parse_both text =
    if text == "event"
    then some (event_message toy (event_of toy (order_with created) (world_with created))).value
    else some (snapshot_json toy (snapshot_of toy (some rule)))

abbrev payer : Services
payer = toy_with calm parse_both

abbrev payer_world : World payer
payer_world = world_of calm parse_both created

order_paid_example :
    let e = event_of payer (order_with created) payer_world in
    let (r, w1) = confirm_and_outbox payer "o1" payer_world in
    let (r', w2) = publish_event payer settings e w1 in
    let (r'', w3) = each_message payer delivery w2 in
    (r ≡ ok (confirm_json payer "o1" confirmed (str e.id)))
    × (r' ≡ ok tt)
    × (w2.events ≡ payer_world.events ++ event_message payer e ∷ [])
    × ((id : String) × (payer.ledger.find ("o1", credit) w3.db.ledger
          ≡ some (
              credit_entry payer id
                (order_with created)
                (due payer payer_world.db (order_with created)))))
order_paid_example =
    order_paid payer (λ n. refl) settings delivery "o1" (order_with created) payer_world refl refl
      refl refl refl (record { reads = refl; coherent = λ e h. absurd cc; others = λ n c h. h })
      refl
