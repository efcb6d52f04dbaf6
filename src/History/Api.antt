-- ===== src/History/Api.antt =====
-- The API keeps to the history of the tables.
use shopback_cashback_ledger.Prelude.{String, Option, none, some, inl, inr}
use shopback_cashback_ledger.Json.{Json}
use shopback_cashback_ledger.Effect.{Result, ok, err}
use shopback_cashback_ledger.Services.{Services}
use shopback_cashback_ledger.World.{Db, Io}
use shopback_cashback_ledger.Calls.Respects.{Respects, respects_rules}
use shopback_cashback_ledger.Idempotency.{KeyRow, get_cached_response, save_response}
use shopback_cashback_ledger.Orders.{
  CreateOrderDto, or_saved, once, create_response, create_with_key, create, confirm_and_outbox,
  confirm_with_key, confirm, truthy,
}
use shopback_cashback_ledger.Orders.Confirmed.{Confirmed, confirm_and_outbox-Confirmed}
use shopback_cashback_ledger.Spec.{Steps, here}
use shopback_cashback_ledger.History.{view, Follows}
use shopback_cashback_ledger.History.Actions.{
  on_keys-follows, create_order-follows, Transition-follows,
}

ruleset api_rules = (respects_rules, on_keys-follows, create_order-follows)

module _ (S : Services) where
  or_saved-follows :
      (message key scope hash : String) (work : Io S (Json S.Number)) (o : Option (KeyRow S))
      → Respects (Follows S) work
      → Respects (Follows S) (or_saved S message key scope hash work o)
  unfolding or_saved save_response
  or_saved-follows message key scope hash work none k = search api_rules depth 8
  or_saved-follows message key scope hash work (some row) k = search api_rules

  once-follows :
      (message key scope hash : String) (work : Io S (Json S.Number))
      → Respects (Follows S) work
      → Respects (Follows S) (once S message key scope hash work)
  unfolding once get_cached_response
  once-follows message key scope hash work k = search (api_rules, or_saved-follows)

  create_response-follows : (dto : CreateOrderDto S) → Respects (Follows S) (create_response S dto)
  unfolding create_response
  create_response-follows dto = search api_rules depth 8

  create_with_key-follows :
      (key : Option String) (dto : CreateOrderDto S)
      → Respects (Follows S) (create_with_key S key dto)
  unfolding create_with_key
  create_with_key-follows none dto = create_response-follows dto
  create_with_key-follows (some key) dto = once-follows _ _ _ _ _ (create_response-follows dto)

  pub create-follows :
      (key : Option String) (dto : CreateOrderDto S) → Respects (Follows S) (create S key dto)
  unfolding create
  create-follows key dto = create_with_key-follows (truthy key) dto

  -- Confirming an order is no step, or the step that confirms it with its event.
  Confirmed-step :
      (d : Db S) (order_id : String) (r : Result (Json S.Number)) (d' : Db S)
      → Confirmed S d order_id r d'
      → Steps S (view S d) (view S d')
  Confirmed-step d order_id (ok response) d' (inl (order, found, is, answer, same)) = rw same here
  Confirmed-step d order_id (ok response) d' (inr (id, time, order, t, answer)) =
      Transition-follows d d' order_id id time order t
  Confirmed-step d order_id (err e) d' (inl same) = rw same here
  Confirmed-step d order_id (err e) d' (inr (id, time, order, t)) =
      Transition-follows d d' order_id id time order t

  confirm_and_outbox-follows :
      (order_id : String) → Respects (Follows S) (confirm_and_outbox S order_id)
  confirm_and_outbox-follows order_id = record {
    at = λ w.
        let (r, w') = confirm_and_outbox S order_id w in
        Confirmed-step w.db order_id r w'.db (confirm_and_outbox-Confirmed S order_id w);
  }

  confirm_with_key-follows :
      (key : Option String) (id : String) → Respects (Follows S) (confirm_with_key S key id)
  unfolding confirm_with_key
  confirm_with_key-follows none id = confirm_and_outbox-follows id
  confirm_with_key-follows (some key) id = once-follows _ _ _ _ _ (confirm_and_outbox-follows id)

  pub confirm-follows :
      (key : Option String) (id : String) → Respects (Follows S) (confirm S key id)
  unfolding confirm
  confirm-follows key id = confirm_with_key-follows (truthy key) id
