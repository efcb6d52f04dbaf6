-- ===== src/Concurrent/Twice.antt =====
-- Two confirmations of one order at the same time.
use shopback_cashback_ledger.Prelude.{ℕ, String, none, some, ◌≡◌, ◌≢◌, refl, ◌∙◌, text_comparable}
use shopback_cashback_ledger.Schema.{created}
use shopback_cashback_ledger.Services.{Services}
use shopback_cashback_ledger.Cashback.{OrderRow}
use shopback_cashback_ledger.Orders.{set_confirmed, confirmed_event}
use shopback_cashback_ledger.Spec.Maps.{put-ne, put-here, put-kept}
use shopback_cashback_ledger.Spec.{Book, with_event}
use shopback_cashback_ledger.Spec.Announced.{HasEvent}
use shopback_cashback_ledger.Concurrent.{
  idle, confirming, seen, ask_confirm, read_created, update_order, create_event, commit_confirm,
  Reach,
}
use shopback_cashback_ledger.Concurrent.Schedules.{
  duo, at_rest, from_rest, to_rest, first, second, alone,
}

module _ (S : Services) (b : Book S) (o : OrderRow S) (i j : String) (time time' : ℕ) where
  -- The book after the first confirmation, and after the second.
  abbrev pub once_confirmed : Book S
  once_confirmed = with_event S b o i time

  abbrev pub twice_confirmed : Book S
  twice_confirmed = with_event S once_confirmed (set_confirmed S o) j time'

  module _ (found : b.orders o.id ≡ some o) (was : o.status ≡ created) (free : b.outbox i ≡ none)
      (free' : b.outbox j ≡ none) (other : i ≢ j) where
    -- Both sessions have read the order in CREATED.
    both_seen : Reach S (at_rest S b) (duo S b (seen o.id) (seen o.id))
    both_seen =
        let asked = alone S (from_rest S b) (ask_confirm o.id) in
        let both = second S (confirming o.id) asked (ask_confirm o.id) (λ l h k. h) in
        second S (seen o.id)
          (first S (confirming o.id) both (read_created o.id o found was) (λ l h k. h))
          (read_created o.id o found was) (λ l h k. h)

    first_done : Reach S (at_rest S b) (duo S once_confirmed idle (seen o.id))
    first_done =
        let written = first S (seen o.id) both_seen (update_order o.id o found refl) (λ l h k. k) in
        let event = first S (seen o.id) written (create_event _ i time free) (λ l h k. k) in
        first S (seen o.id) event (commit_confirm _ _ once_confirmed refl) (λ l h k. k)

    both_done : Reach S (at_rest S b) (duo S twice_confirmed idle idle)
    both_done =
        let stored = put-here o.id (set_confirmed S o) b.orders in
        let written = second S idle first_done (update_order o.id _ stored refl) (λ l h k. k) in
        let absent =
          put-ne i j (confirmed_event S i time (set_confirmed S o)) b.outbox other ∙ free' in
        let event = second S idle written (create_event _ j time' absent) (λ l h k. k) in
        second S idle event (commit_confirm _ _ twice_confirmed refl) (λ l h k. k)

    -- When two requests confirm an order in `CREATED` at the same time, and both read it before
    -- either commits, both can succeed: the sessions reach a state in which none is left and the
    -- order has two events of different ids.
    pub confirmed_twice :
        Reach S (at_rest S b) (at_rest S twice_confirmed)
        × HasEvent S o.id i twice_confirmed
        × HasEvent S o.id j twice_confirmed
    confirmed_twice = (
      to_rest S both_done,
      (
        _,
        put-kept j i _ once_confirmed.outbox
            (put-ne i j (confirmed_event S i time (set_confirmed S o)) b.outbox other ∙ free')
            (put-here i _ b.outbox),
        refl,
      ),
      (_, put-here j _ once_confirmed.outbox, refl),
    )
