-- ===== src/Spec/Kept.antt =====
-- What the steps of the book keep: credits for good, and orders with their terms.
use shopback_cashback_ledger.Prelude.{
  String, Option, some, ◌≡◌, sym, ap, subst, inl, inr, Bool-cases, ◌==◌, text_comparable,
  pair_comparable, pair_beq, pair_beq_iff, eq_iff, arith, ◌∙◌,
}
use shopback_cashback_ledger.Schema.{LedgerEntryType, entry_type_comparable, confirmed, credit}
use shopback_cashback_ledger.Services.{Services}
use shopback_cashback_ledger.Cashback.{OrderRow, EntryRow, cashback, credit_entry}
use shopback_cashback_ledger.Orders.{set_confirmed}
use shopback_cashback_ledger.Spec.Maps.{put}
use shopback_cashback_ledger.Spec.{Book, Step, Steps, place, confirm, give, move, Steps-keep}

module _ (S : Services) where
  -- The later row of an order has the terms of the earlier one, and stays confirmed.
  pub record SameTerms (o o' : OrderRow S) : Type 0 where
    pub id : o'.id ≡ o.id
    pub user_id : o'.user_id ≡ o.user_id
    pub merchant_id : o'.merchant_id ≡ o.merchant_id
    pub amount : o'.amount ≡ o.amount
    pub currency : o'.currency ≡ o.currency
    pub stays_confirmed : o.status ≡ confirmed → (o'.status ≡ confirmed)

  pub SameTerms-refl : (o : OrderRow S) → SameTerms o o
  SameTerms-refl o = ground arith

  pub SameTerms-trans : (a b c : OrderRow S) → SameTerms a b → SameTerms b c → SameTerms a c
  SameTerms-trans a b c h k = ground arith

  pub confirmed-SameTerms : (o : OrderRow S) → SameTerms o (set_confirmed S o)
  confirmed-SameTerms o = ground arith

  -- The order `id` is still there, with the terms of `o`.
  abbrev pub KeepsOrder : String → OrderRow S → Book S → Type 0
  KeepsOrder id o b = (o' : OrderRow S) × (b.orders id ≡ some o') × SameTerms o o'

  -- One order is written over another of the same terms, if there is one.
  pub KeepsOrder-put :
      (b : Book S) (new : OrderRow S) (id : String) (o : OrderRow S)
      → ((old : OrderRow S) → b.orders new.id ≡ some old → SameTerms old new)
      → KeepsOrder id o b
      → KeepsOrder id o (record b { orders = put new.id new b.orders })
  KeepsOrder-put b new id o same (o', h, k) = elim (Bool-cases (new.id == id)) [
    | inl e ↦
        let found : b.orders new.id ≡ some o' = rw ((eq_iff new.id id).0 e) h in
        (new, rw e, SameTerms-trans o o' new k (same o' found))
    | inr e ↦ (o', rw e h, k)
  ]

  pub Step-KeepsOrder :
      (id : String) (o : OrderRow S) (b c : Book S)
      → Step S b c
      → KeepsOrder id o b
      → KeepsOrder id o c
  Step-KeepsOrder id o b c (place new absent fresh e) h =
      subst (KeepsOrder id o) (sym e) (KeepsOrder-put b new id o (λ old found. absurd cc) h)
  Step-KeepsOrder id o b c (confirm old eid time found was absent e) h =
      subst (λ (x : Book S). KeepsOrder id o x) (sym e)
        (KeepsOrder-put b (set_confirmed S old) id o
          (λ old' found'.
            let same : old' ≡ old = cc (found, found') in rw same (confirmed-SameTerms old))
          h)
  Step-KeepsOrder id o b c (give old eid rate limit found is absent e) h = rw e h
  Step-KeepsOrder id o b c (move old new found same e) h = rw e h

  -- The entry `x` stands under its key.
  abbrev pub KeepsEntry : String × LedgerEntryType → EntryRow S → Book S → Type 0
  KeepsEntry k x b = b.ledger k ≡ some x

  pub Step-KeepsEntry :
      (k : String × LedgerEntryType) (x : EntryRow S) (b c : Book S)
      → Step S b c
      → KeepsEntry k x b
      → KeepsEntry k x c
  Step-KeepsEntry k x b c (place new absent fresh e) h = rw e h
  Step-KeepsEntry k x b c (confirm old eid time found was absent e) h = rw e h
  Step-KeepsEntry k x b c (move old new found same e) h = rw e h
  Step-KeepsEntry k x b c (give o id rate limit found is absent e) h =
      subst (λ (y : Book S). y.ledger k ≡ some x) (sym e)
        (elim (Bool-cases (pair_beq (o.id, credit) k)) [
          | inl same ↦ cc (absent, (pair_beq_iff (o.id, credit) k).0 same, h)
          | inr other ↦ rw other h
        ])

  -- An amount of a credit that some rule gives for the order.
  abbrev pub IsCashback : OrderRow S → S.Decimal → Type 0
  IsCashback o amount =
      (rate : S.Decimal) × (limit : Option S.Decimal) × (amount
        ≡ S.to_scale 2 (cashback S o.amount rate limit))

  -- The order of a credit: confirmed, of the same user and currency, and with the cashback.
  pub record BackedBy (b : Book S) (order_id : String) (x : EntryRow S) (o : OrderRow S)
      : Type 0 where
    pub found : b.orders order_id ≡ some o
    pub is_confirmed : o.status ≡ confirmed
    pub user_id : x.user_id ≡ o.user_id
    pub currency : x.currency ≡ o.currency
    pub amount : IsCashback o x.amount

  -- Every credit of the ledger belongs to a confirmed order.
  abbrev pub IsBacked : Book S → Type 0
  IsBacked b =
      (order_id : String) (x : EntryRow S)
      → b.ledger (order_id, credit) ≡ some x
      → (o : OrderRow S) × BackedBy b order_id x o

  -- A credit that is backed stays so when the orders keep their terms.
  pub BackedBy-along :
      (b c : Book S) (id : String) (x : EntryRow S)
      → ((o : OrderRow S) → KeepsOrder id o b → KeepsOrder id o c)
      → (o : OrderRow S) × BackedBy b id x o
      → (o : OrderRow S) × BackedBy c id x o
  BackedBy-along b c id x keeps (o, h) =
      let (o', found, same) = keeps o (o, h.found, SameTerms-refl o) in
      (
        o',
        record {
          found = found;
          is_confirmed = same.stays_confirmed h.is_confirmed;
          user_id = h.user_id ∙ sym same.user_id;
          currency = h.currency ∙ sym same.currency;
          amount = rw same.amount h.amount;
        },
      )

  BackedBy-kept :
      (b c : Book S) (id : String) (x : EntryRow S)
      → Step S b c
      → (o : OrderRow S) × BackedBy b id x o
      → (o : OrderRow S) × BackedBy c id x o
  BackedBy-kept b c id x s = BackedBy-along b c id x (λ o. Step-KeepsOrder id o b c s)

  given-BackedBy :
      (b : Book S) (o : OrderRow S) (eid id : String) (rate : S.Decimal) (limit : Option S.Decimal)
      (x : EntryRow S)
      → b.orders o.id ≡ some o
      → o.status ≡ confirmed
      → o.id ≡ id
      → credit_entry S eid o (cashback S o.amount rate limit) ≡ x
      → BackedBy b id x o
  given-BackedBy _ o eid id rate limit x found is own entry = record {
    found = rw (← own) found;
    is_confirmed = is;
    user_id = ap (λ (y : EntryRow S). y.user_id) (sym entry);
    currency = ap (λ (y : EntryRow S). y.currency) (sym entry);
    amount = (rate, limit, ap (λ (y : EntryRow S). y.amount) (sym entry));
  }

  pub Step-IsBacked : (b c : Book S) → Step S b c → IsBacked b → IsBacked c
  Step-IsBacked b c (place new absent fresh e) h id x f =
      BackedBy-kept b c id x (place new absent fresh e) (h id x (rw e at f))
  Step-IsBacked b c (confirm old eid time found was absent e) h id x f =
      BackedBy-kept b c id x (confirm old eid time found was absent e) (h id x (rw e at f))
  Step-IsBacked b c (move old new found same e) h id x f =
      BackedBy-kept b c id x (move old new found same e) (h id x (rw e at f))
  Step-IsBacked b c (give o eid rate limit found is absent e) h id x f =
      elim (Bool-cases (pair_beq (o.id, credit) (id, credit))) [
        | inl same ↦
            let key = (pair_beq_iff (o.id, credit) (id, credit)).0 same in
            let entry : credit_entry S eid o (cashback S o.amount rate limit) ≡ x =
              cc (rw (e, same) at f) in
            (o, rw e (given-BackedBy _ o eid id rate limit x found is (cc key) entry))
        | inr other ↦
            BackedBy-kept b c id x (give o eid rate limit found is absent e)
              (h id x (rw (e, other) at f))
      ]

  pub Steps-KeepsEntry :
      (k : String × LedgerEntryType) (x : EntryRow S) {b c : Book S}
      → Steps S b c
      → KeepsEntry k x b
      → KeepsEntry k x c
  Steps-KeepsEntry k x = Steps-keep S (KeepsEntry k x) (Step-KeepsEntry k x)

  pub Steps-KeepsOrder :
      (id : String) (o : OrderRow S) {b c : Book S}
      → Steps S b c
      → KeepsOrder id o b
      → KeepsOrder id o c
  Steps-KeepsOrder id o = Steps-keep S (KeepsOrder id o) (Step-KeepsOrder id o)

  pub Steps-IsBacked : {b c : Book S} → Steps S b c → IsBacked b → IsBacked c
  Steps-IsBacked = Steps-keep S IsBacked Step-IsBacked
