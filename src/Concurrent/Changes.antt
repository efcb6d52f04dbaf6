-- ===== src/Concurrent/Changes.antt =====
-- How the sessions change the book: by its steps, or by one more event for a confirmed order; and what
-- both keep.
use shopback_cashback_ledger.Prelude.{
  ℕ, String, none, some, ◌≡◌, ◌≢◌, refl, sym, subst, inl, inr, Bool-cases, ◌==◌, text_comparable,
  pair_comparable,
}
use shopback_cashback_ledger.Schema.{
  LedgerEntryType, entry_type_comparable, created, confirmed, cancelled,
}
use shopback_cashback_ledger.Services.{Services}
use shopback_cashback_ledger.Cashback.{OrderRow, EntryRow}
use shopback_cashback_ledger.Orders.{set_confirmed}
use shopback_cashback_ledger.Spec.Maps.{put}
use shopback_cashback_ledger.Spec.{Book, Step, place, confirm, give, move, with_event}
use shopback_cashback_ledger.Spec.Kept.{
  KeepsOrder, KeepsOrder-put, KeepsEntry, confirmed-SameTerms, Step-KeepsOrder, Step-KeepsEntry,
  IsBacked, BackedBy-along, Step-IsBacked,
}
use shopback_cashback_ledger.Spec.Announced.{IsMatched, Step-IsMatched, with_event-IsMatched}

module _ (S : Services) where
  pub data Change (b b' : Book S) : Type 0 where
    still : b' ≡ b → Change b b'
    along : Step S b b' → Change b b'
    again :
        (o : OrderRow S) (id : String) (time : ℕ)
        → b.orders o.id ≡ some o
        → o.status ≡ confirmed
        → b.outbox id ≡ none
        → b' ≡ with_event S b o id time
        → Change b b'

  pub Change-KeepsOrder :
      (id : String) (o : OrderRow S) (b c : Book S)
      → Change b c
      → KeepsOrder S id o b
      → KeepsOrder S id o c
  Change-KeepsOrder id o b c (still e) h = subst (KeepsOrder S id o) (sym e) h
  Change-KeepsOrder id o b c (along s) h = Step-KeepsOrder S id o b c s h
  Change-KeepsOrder id o b c (again old eid time found was absent e) h =
      subst (λ (x : Book S). KeepsOrder S id o x) (sym e)
        (KeepsOrder-put S b (set_confirmed S old) id o
          (λ old' found'.
            let same : old' ≡ old = cc (found, found') in rw same (confirmed-SameTerms S old))
          h)

  pub Change-KeepsEntry :
      (k : String × LedgerEntryType) (x : EntryRow S) (b c : Book S)
      → Change b c
      → KeepsEntry S k x b
      → KeepsEntry S k x c
  Change-KeepsEntry k x b c (still e) h = rw e h
  Change-KeepsEntry k x b c (along s) h = Step-KeepsEntry S k x b c s h
  Change-KeepsEntry k x b c (again old eid time found was absent e) h = rw e h

  pub Change-IsBacked : (b c : Book S) → Change b c → IsBacked S b → IsBacked S c
  Change-IsBacked b c (still e) h = subst (IsBacked S) (sym e) h
  Change-IsBacked b c (along s) h = Step-IsBacked S b c s h
  Change-IsBacked b c (again old eid time found was absent e) h = λ id x f.
      BackedBy-along S b c id x
        (λ o. Change-KeepsOrder id o b c (again old eid time found was absent e))
        (h id x (rw e at f))

  pub Change-IsMatched : (b c : Book S) → Change b c → IsMatched S b → IsMatched S c
  Change-IsMatched b c (still e) h = subst (IsMatched S) (sym e) h
  Change-IsMatched b c (along s) h = Step-IsMatched S b c s h
  Change-IsMatched b c (again o eid time found was absent e) h =
      subst (IsMatched S) (sym e) (with_event-IsMatched S b o eid time absent h)

  -- An order that is stored and not cancelled.
  abbrev pub IsLive : String → Book S → Type 0
  IsLive id b = (o : OrderRow S) × (b.orders id ≡ some o) × (o.status ≢ cancelled)

  IsLive-put :
      (b : Book S) (new : OrderRow S) (id : String)
      → new.status ≢ cancelled
      → IsLive id b
      → IsLive id (record b { orders = put new.id new b.orders })
  IsLive-put b new id live (o, h, k) = elim (Bool-cases (new.id == id)) [
    | inl same ↦ (new, rw same refl, live)
    | inr other ↦ (o, rw other h, k)
  ]

  created-ne-cancelled : (o : OrderRow S) → o.status ≡ created → o.status ≢ cancelled
  created-ne-cancelled o h k = cc (h, k)

  pub Change-IsLive : (id : String) (b c : Book S) → Change b c → IsLive id b → IsLive id c
  Change-IsLive id b c (still e) h = subst (IsLive id) (sym e) h
  Change-IsLive id b c (along (place new absent fresh e)) h =
      subst (IsLive id) (sym e) (IsLive-put b new id (created-ne-cancelled new fresh) h)
  Change-IsLive id b c (along (confirm o eid time found was absent e)) h =
      subst (λ (x : Book S). IsLive id x) (sym e)
        (IsLive-put b (set_confirmed S o) id (λ k. cc k) h)
  Change-IsLive id b c (along (give o eid rate limit found is absent e)) h = rw e h
  Change-IsLive id b c (along (move x y found same e)) h = rw e h
  Change-IsLive id b c (again o eid time found was absent e) h =
      subst (λ (x : Book S). IsLive id x) (sym e)
        (IsLive-put b (set_confirmed S o) id (λ k. cc k) h)
