-- ===== src/Concurrent/Invariant.antt =====
-- What holds of every session at every moment, whatever the order of the sessions' steps.
use shopback_cashback_ledger.Prelude.{
  ℕ, String, Option, none, some, ◌≡◌, ◌≢◌, sym, ap, ◌∙◌, inl, inr, text_comparable, pair_comparable,
}
use shopback_cashback_ledger.Schema.{entry_type_comparable, created, confirmed, cancelled, credit}
use shopback_cashback_ledger.Services.{Services}
use shopback_cashback_ledger.Cashback.{OrderRow, EntryRow, cashback, credit_entry}
use shopback_cashback_ledger.Orders.{OutboxRow, set_confirmed, confirmed_event}
use shopback_cashback_ledger.Spec.Maps.{put-ne, put-kept}
use shopback_cashback_ledger.Spec.{Book}
use shopback_cashback_ledger.Spec.Kept.{KeepsOrder}
use shopback_cashback_ledger.Concurrent.{
  order_row, credit_key, event_key, Pc, idle, placing, confirming, seen, updated, announced,
  crediting, found, ruled, entered, Move, ask_create, ask_confirm, ask_credit, stop, store,
  read_created, update_order, create_event, commit_confirm, read_confirmed, read_rule, create_entry,
  commit_credit, mark_event, Holds, Apart, Shared,
}
use shopback_cashback_ledger.Concurrent.Changes.{IsLive}

module _ (S : Services) where
  -- An order that a transaction has confirmed and not committed: the row it was read from is there.
  pub record IsPending (b : Book S) (o o' : OrderRow S) : Type 0 where
    pub stored : b.orders o'.id ≡ some o'
    pub row : o ≡ set_confirmed S o'
    pub live : o'.status ≢ cancelled

  pub record IsAnnouncing (b : Book S) (o : OrderRow S) (e : OutboxRow S) (id : String) (time : ℕ)
      : Type 0 where
    pub event : e ≡ confirmed_event S id time o
    pub free : b.outbox id ≡ none

  -- An order that was read as confirmed.
  pub record IsDue (b : Book S) (o : OrderRow S) : Type 0 where
    pub kept : KeepsOrder S o.id o b
    pub is_confirmed : o.status ≡ confirmed

  abbrev pub IsRuled : OrderRow S → S.Decimal → Type 0
  IsRuled o amount =
      (rate : S.Decimal) × (limit : Option S.Decimal) × (amount ≡ cashback S o.amount rate limit)

  pub record IsEntering (b : Book S) (x : EntryRow S) (o : OrderRow S) (id : String)
      (rate : S.Decimal) (limit : Option S.Decimal) : Type 0 where
    pub due : IsDue b o
    pub entry : x ≡ credit_entry S id o (cashback S o.amount rate limit)
    pub free : b.ledger (o.id, credit) ≡ none

  -- What a session knows of the book where it stands.
  abbrev pub Fits : Book S → Pc S → Type 0
  Fits b idle = Unit {0}
  Fits b (placing o) = o.status ≡ created
  Fits b (confirming id) = Unit {0}
  Fits b (seen id) = IsLive S id b
  Fits b (updated o) = (o' : OrderRow S) × IsPending b o o'
  Fits b (announced o e) =
      (o' : OrderRow S) × (id : String) × (time : ℕ) × IsPending b o o' × IsAnnouncing b o e id time
  Fits b (crediting id) = Unit {0}
  Fits b (found o) = IsDue b o
  Fits b (ruled o amount) = IsDue b o × IsRuled o amount
  Fits b (entered x) =
      (o : OrderRow S) × (id : String) × (rate : S.Decimal) × (limit : Option S.Decimal)
      × IsEntering b x o id rate limit

  pub record Inv (s : Shared S) : Type 0 where
    pub fits : (i : ℕ) → Fits s.book (s.pc i)
    pub apart : (i j : ℕ) → i ≢ j → Apart S (s.pc i) (s.pc j)

  -- The book after a step of a session, but for what that session has locked.
  pub record IsLocal (b : Book S) (p : Pc S) (b' : Book S) : Type 0 where
    pub orders :
        (id : String) (o : OrderRow S)
        → ¬ Holds S p (order_row id)
        → b.orders id ≡ some o
        → b'.orders id ≡ some o
    pub outbox :
        (id : String) → ¬ Holds S p (event_key id) → b.outbox id ≡ none → b'.outbox id ≡ none
    pub ledger :
        (id : String)
        → ¬ Holds S p (credit_key id)
        → b.ledger (id, credit) ≡ none
        → b'.ledger (id, credit) ≡ none

  IsLocal-same : (b : Book S) (p : Pc S) → IsLocal b p b
  IsLocal-same b p = record { orders = λ id o n h. h; outbox = λ id n h. h; ledger = λ id n h. h }

  pub Move-IsLocal : {b b' : Book S} {p p' : Pc S} → Move S b p b' p' → IsLocal b p b'
  Move-IsLocal {b} (ask_create o h) = IsLocal-same b _
  Move-IsLocal {b} (ask_confirm id) = IsLocal-same b _
  Move-IsLocal {b} (ask_credit id) = IsLocal-same b _
  Move-IsLocal {b} (stop p) = IsLocal-same b _
  Move-IsLocal {b} (store o b' fresh absent e) = rw e (record {
    orders = λ id x n h. put-kept o.id id o b.orders absent h;
    outbox = λ id n h. h;
    ledger = λ id n h. h;
  })
  Move-IsLocal {b} (read_created id o h k) = IsLocal-same b _
  Move-IsLocal {b} (update_order id o h k) = IsLocal-same b _
  Move-IsLocal {b} (create_event o id time h) = IsLocal-same b _
  Move-IsLocal {b} (commit_confirm o e b' same) = rw same (record {
    orders = λ id x n h. put-ne o.id id o b.orders (λ k. n (inl (ap order_row (sym k)))) ∙ h;
    outbox = λ id n h. put-ne e.id id e b.outbox (λ k. n (inr (ap event_key (sym k)))) ∙ h;
    ledger = λ id n h. h;
  })
  Move-IsLocal {b} (read_confirmed id o h k c) = IsLocal-same b _
  Move-IsLocal {b} (read_rule o rate limit) = IsLocal-same b _
  Move-IsLocal {b} (create_entry o amount id h) = IsLocal-same b _
  Move-IsLocal {b} (commit_credit x b' same) = rw same (record {
    orders = λ id o n h. h;
    outbox = λ id n h. h;
    ledger = λ id n h.
        put-ne (x.order_id, x.type) (id, credit) x b.ledger
          (λ k. n (ap (λ q. credit_key q.0) (sym k)))
        ∙ h;
  })
  Move-IsLocal {b} (mark_event e e' b' h same k) = rw k (record {
    orders = λ id o n g. g;
    outbox = λ id n g. put-ne e.id id e' b.outbox (λ q. cc (h, q, g)) ∙ g;
    ledger = λ id n g. g;
  })
