-- ===== src/Orders/Conflict.antt =====
-- `create` with an idempotency key that was used for another body.
use text.Mathlib.TextLemmas.{append_cancel_left}
use shopback_cashback_ledger.Prelude.{
  suc, String, none, some, ◌≡◌, ◌≢◌, ap, ◌∙◌, text_append, text_comparable, pair_comparable,
}
use shopback_cashback_ledger.Json.{Json}
use shopback_cashback_ledger.Errors.{success, conflict}
use shopback_cashback_ledger.Effect.{Result, err}
use shopback_cashback_ledger.Services.{Services}
use shopback_cashback_ledger.World.{World}
use shopback_cashback_ledger.Calls.{tick}
use shopback_cashback_ledger.Idempotency.{hash_request}
use shopback_cashback_ledger.Orders.{CreateOrderDto, create}
use shopback_cashback_ledger.Orders.Idempotent.{
  create_saves, create_replay, saved_answer_other, saved_found, after_create, saved_row,
}

module _ (S : Services) where
  -- The text whose hash stands for a request to create an order.
  abbrev pub hashed_text : CreateOrderDto S → String
  hashed_text dto =
      text_append (S.to_upper_case "POST")
        (text_append "|" (text_append "/orders" (text_append "|" (S.stringify dto.body))))

  hashed_text-cancel :
      (dto other : CreateOrderDto S)
      → hashed_text dto ≡ hashed_text other
      → S.stringify dto.body ≡ S.stringify other.body
  hashed_text-cancel dto other h = append_cancel_left "|" _ _ (
      append_cancel_left "/orders" _ _
        (append_cancel_left "|" _ _ (append_cancel_left (S.to_upper_case "POST") _ _ h)))

  -- If a request with a new key is answered, its first three calls succeeding and the id of its
  -- order being new, and the key comes again with a body that `JSON.stringify` writes otherwise, the
  -- call of this second request succeeding and `sha256` telling apart the two texts, each of the
  -- method, the path and the body, the second request throws a conflict and changes no table.
  pub create_conflict :
      (key : String) (dto other : CreateOrderDto S) (w : World S)
      → key ≢ ""
      → S.outcome w.calls ≡ success
      → S.outcome (suc w.calls) ≡ success
      → S.outcome (suc (suc w.calls)) ≡ success
      → S.outcome (suc (suc (suc w.calls))) ≡ success
      → S.keys.find (key, "POST:/orders") w.db.keys ≡ none
      → S.orders.find (S.uuid (suc w.calls)) w.db.orders ≡ none
      → S.stringify dto.body ≢ S.stringify other.body
      → (S.sha256 (hashed_text dto) ≡ S.sha256 (hashed_text other)
          → hashed_text dto ≡ hashed_text other)
      → let (r, w') = create S (some key) dto w in
        create S (some key) other w'
        ≡ (err (conflict "Idempotency-Key reused with different request body"), tick S w')
  unfolding hash_request
  create_conflict key dto other w given first second third fourth no_key absent differ tells =
      rw (create_saves S key dto w given first second third no_key absent) (
        create_replay S key other (after_create S w key dto) given fourth (saved_found S key dto w)
        ∙ ap (λ (r : Result (Json S.Number)). (r, tick S (after_create S w key dto)))
            (saved_answer_other S _ (saved_row S w key dto)
              (λ same. differ (hashed_text-cancel dto other (tells same)))))
