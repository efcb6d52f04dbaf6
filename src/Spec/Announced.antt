-- ===== src/Spec/Announced.antt =====
-- The steps of the book keep the orders and the events together: one event for each confirmed order.
use shopback_cashback_ledger.Prelude.{
  ℕ, String, none, some, ◌≡◌, refl, sym, ap, subst, ◌∙◌, ◌⊎◌, inl, inr, Bool-cases, ◌==◌,
  text_comparable, eq_iff,
}
use shopback_cashback_ledger.Schema.{created, confirmed}
use shopback_cashback_ledger.Services.{Services}
use shopback_cashback_ledger.Cashback.{OrderRow}
use shopback_cashback_ledger.Orders.{OutboxRow, set_confirmed, confirmed_event}
use shopback_cashback_ledger.Spec.Maps.{put-some, put-here, put-kept}
use shopback_cashback_ledger.Spec.{
  Book, Step, Steps, place, confirm, give, move, with_order, with_event, with_move, SameMessage,
  Steps-keep,
}

module _ (S : Services) where
  -- The order `id` of the book is confirmed; it has the event `i`.
  abbrev pub IsConfirmed : String → Book S → Type 0
  IsConfirmed id b = (o : OrderRow S) × (b.orders id ≡ some o) × (o.status ≡ confirmed)

  abbrev pub HasEvent : String → String → Book S → Type 0
  HasEvent id i b = (e : OutboxRow S) × (b.outbox i ≡ some e) × (e.aggregate_id ≡ id)

  -- Each confirmed order has an event, and each event is of a confirmed order.
  pub record IsMatched (b : Book S) : Type 0 where
    pub has_event : (id : String) → IsConfirmed id b → (i : String) × HasEvent id i b
    pub of_confirmed : (id i : String) → HasEvent id i b → IsConfirmed id b

  -- Besides, no order has two events.
  pub record IsAnnounced (b : Book S) : Type 0 where
    pub matched : IsMatched b
    pub one_event : (id i j : String) → HasEvent id i b → HasEvent id j b → i ≡ j

  -- A step that keeps which orders are confirmed, and which events they have.
  record SameEvents (b c : Book S) : Type 0 where
    there : (id i : String) → HasEvent id i b → HasEvent id i c
    back : (id i : String) → HasEvent id i c → HasEvent id i b
    to : (id : String) → IsConfirmed id b → IsConfirmed id c
    from : (id : String) → IsConfirmed id c → IsConfirmed id b

  IsMatched-along : (b c : Book S) → SameEvents b c → IsMatched b → IsMatched c
  IsMatched-along b c same h = record {
    has_event = λ id k. let (i, e) = h.has_event id (same.from id k) in (i, same.there id i e);
    of_confirmed = λ id i e. same.to id (h.of_confirmed id i (same.back id i e));
  }

  IsAnnounced-along : (b c : Book S) → SameEvents b c → IsAnnounced b → IsAnnounced c
  IsAnnounced-along b c same h = record {
    matched = IsMatched-along b c same h.matched;
    one_event = λ id i j e e'. h.one_event id i j (same.back id i e) (same.back id j e');
  }

  module _ (b : Book S) (o : OrderRow S) (absent : b.orders o.id ≡ none)
      (fresh : o.status ≡ created) where
    IsConfirmed-before_placed : (id : String) → IsConfirmed id (with_order S b o) → IsConfirmed id b
    IsConfirmed-before_placed id (x, f, k) = elim (put-some o.id id o b.orders f) [
      | inl (same, new) ↦ absurd (cc (fresh, new, k))
      | inr (other, old) ↦ (x, old, k)
    ]

    with_order-SameEvents : SameEvents b (with_order S b o)
    with_order-SameEvents = record {
      there = λ id i e. e;
      back = λ id i e. e;
      to = λ id (x, f, k). (x, put-kept o.id id o b.orders absent f, k);
      from = IsConfirmed-before_placed;
    }

  module _ (b : Book S) (e e' : OutboxRow S) (found : b.outbox e.id ≡ some e)
      (same : SameMessage S e e') where
    HasEvent-with_move : (id i : String) → HasEvent id i b → HasEvent id i (with_move S b e e')
    HasEvent-with_move id i (x, f, k) = elim (Bool-cases (e.id == i)) [
      | inl here ↦
          let old : e ≡ x = cc (found, (eq_iff e.id i).0 here, f) in
          (e', rw here refl, same.aggregate_id ∙ ap (λ (y : OutboxRow S). y.aggregate_id) old ∙ k)
      | inr other ↦ (x, rw other f, k)
    ]

    HasEvent-before_moved : (id i : String) → HasEvent id i (with_move S b e e') → HasEvent id i b
    HasEvent-before_moved id i (x, f, k) = elim (put-some e.id i e' b.outbox f) [
      | inl (here, new) ↦ (
        e,
        (rw (← here) found),
        sym same.aggregate_id ∙ ap (λ (y : OutboxRow S). y.aggregate_id) new ∙ k,
      )
      | inr (other, old) ↦ (x, old, k)
    ]

    with_move-SameEvents : SameEvents b (with_move S b e e')
    with_move-SameEvents = record {
      there = HasEvent-with_move;
      back = HasEvent-before_moved;
      to = λ id k. k;
      from = λ id k. k;
    }

  module _ (b : Book S) (o : OrderRow S) (eid : String) (time : ℕ)
      (absent : b.outbox eid ≡ none) where
    abbrev after : Book S
    after = with_event S b o eid time

    new_event : HasEvent o.id eid after
    new_event = (
      confirmed_event S eid time (set_confirmed S o),
      put-here eid (confirmed_event S eid time (set_confirmed S o)) b.outbox,
      refl,
    )

    old_event : (id i : String) → HasEvent id i b → HasEvent id i after
    old_event id i (x, f, k) =
        (x, put-kept eid i (confirmed_event S eid time (set_confirmed S o)) b.outbox absent f, k)

    -- An event is the new one, of this order, or an old one.
    event-cases :
        (id i : String) → HasEvent id i after → ((eid ≡ i) × (o.id ≡ id)) ⊎ HasEvent id i b
    event-cases id i (x, f, k) =
        elim (put-some eid i (confirmed_event S eid time (set_confirmed S o)) b.outbox f) [
          | inl (here, new) ↦ inl (here, ap (λ (y : OutboxRow S). y.aggregate_id) new ∙ k)
          | inr (other, old) ↦ inr (x, old, k)
        ]

    IsConfirmed-new : (id : String) → o.id ≡ id → IsConfirmed id after
    IsConfirmed-new id e =
        (set_confirmed S o, rw (← e) (put-here o.id (set_confirmed S o) b.orders), refl)

    IsConfirmed-old : (id : String) → IsConfirmed id b → IsConfirmed id after
    IsConfirmed-old id (x, f, k) = elim (Bool-cases (o.id == id)) [
      | inl same ↦ IsConfirmed-new id ((eq_iff o.id id).0 same)
      | inr other ↦ (x, rw other f, k)
    ]

    with_event-HasEvent :
        IsMatched b → (id : String) → IsConfirmed id after → (i : String) × HasEvent id i after
    with_event-HasEvent h id (x, f, k) = elim (put-some o.id id (set_confirmed S o) b.orders f) [
      | inl (same, new) ↦ (eid, subst (λ j. HasEvent j eid after) same new_event)
      | inr (other, old) ↦ let (i, e) = h.has_event id (x, old, k) in (i, old_event id i e)
    ]

    with_event-IsConfirmed :
        IsMatched b → (id i : String) → HasEvent id i after → IsConfirmed id after
    with_event-IsConfirmed h id i e = elim (event-cases id i e) [
      | inl (here, same) ↦ IsConfirmed-new id same
      | inr old ↦ IsConfirmed-old id (h.of_confirmed id i old)
    ]

    pub with_event-IsMatched : IsMatched b → IsMatched after
    with_event-IsMatched h = record {
      has_event = with_event-HasEvent h;
      of_confirmed = with_event-IsConfirmed h;
    }

    module _ (found : b.orders o.id ≡ some o) (was : o.status ≡ created) (h : IsAnnounced b) where
      -- The order had no event before.
      no_event : (id i : String) → o.id ≡ id → ¬ HasEvent id i b
      no_event id i own e =
          let (x, f, k) = h.matched.of_confirmed id i e in cc (found, own, f, was, k)

      with_event_one :
          (id i j : String)
          → ((eid ≡ i) × (o.id ≡ id)) ⊎ HasEvent id i b
          → ((eid ≡ j) × (o.id ≡ id)) ⊎ HasEvent id j b
          → i ≡ j
      with_event_one id i j (inl (x, same)) (inl (y, same')) = sym x ∙ y
      with_event_one id i j (inl (x, same)) (inr e) = absurd (no_event id j same e)
      with_event_one id i j (inr e) (inl (y, same)) = absurd (no_event id i same e)
      with_event_one id i j (inr e) (inr e') = h.one_event id i j e e'

      with_event-IsAnnounced : IsAnnounced after
      with_event-IsAnnounced = record {
        matched = with_event-IsMatched h.matched;
        one_event = λ id i j e e'. with_event_one id i j (event-cases id i e) (event-cases id j e');
      }

  pub Step-IsMatched : (b c : Book S) → Step S b c → IsMatched b → IsMatched c
  Step-IsMatched b c (place o absent fresh e) h =
      subst IsMatched (sym e)
        (IsMatched-along b (with_order S b o) (with_order-SameEvents b o absent fresh) h)
  Step-IsMatched b c (confirm o eid time found was absent e) h =
      subst IsMatched (sym e) (with_event-IsMatched b o eid time absent h)
  Step-IsMatched b c (give o eid rate limit found is absent e) h =
      subst IsMatched (sym e) (record { has_event = h.has_event; of_confirmed = h.of_confirmed })
  Step-IsMatched b c (move x y found same e) h =
      subst IsMatched (sym e)
        (IsMatched-along b (with_move S b x y) (with_move-SameEvents b x y found same) h)

  Step-IsAnnounced : (b c : Book S) → Step S b c → IsAnnounced b → IsAnnounced c
  Step-IsAnnounced b c (place o absent fresh e) h =
      subst IsAnnounced (sym e)
        (IsAnnounced-along b (with_order S b o) (with_order-SameEvents b o absent fresh) h)
  Step-IsAnnounced b c (confirm o eid time found was absent e) h =
      subst IsAnnounced (sym e) (with_event-IsAnnounced b o eid time absent found was h)
  Step-IsAnnounced b c (give o eid rate limit found is absent e) h =
      subst IsAnnounced (sym e) (record {
        matched = record { has_event = h.matched.has_event; of_confirmed = h.matched.of_confirmed };
        one_event = h.one_event;
      })
  Step-IsAnnounced b c (move x y found same e) h =
      subst IsAnnounced (sym e)
        (IsAnnounced-along b (with_move S b x y) (with_move-SameEvents b x y found same) h)

  pub Steps-IsAnnounced : {b c : Book S} → Steps S b c → IsAnnounced b → IsAnnounced c
  Steps-IsAnnounced = Steps-keep S IsAnnounced Step-IsAnnounced
