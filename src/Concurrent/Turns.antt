-- ===== src/Concurrent/Turns.antt =====
-- Each step of a session keeps the invariant, and changes the book as Changes says.
use shopback_cashback_ledger.Prelude.{
  ℕ, String, Option, none, some, ◌≡◌, ◌≢◌, refl, sym, ap, subst, ◌∙◌, inl, inr, Bool-cases, eqb,
  eqb→eq, eqb→ne, text_comparable, pair_comparable,
}
use shopback_cashback_ledger.Schema.{
  OrderStatus, entry_type_comparable, created, confirmed, cancelled, credit,
}
use shopback_cashback_ledger.Services.{Services}
use shopback_cashback_ledger.Cashback.{OrderRow, EntryRow, cashback, credit_entry}
use shopback_cashback_ledger.Orders.{OutboxRow}
use shopback_cashback_ledger.Spec.{Book, place, confirm, give, move, with_event}
use shopback_cashback_ledger.Spec.Kept.{SameTerms-refl}
use shopback_cashback_ledger.Concurrent.{
  order_row, credit_key, event_key, Pc, idle, placing, confirming, seen, updated, announced,
  crediting, found, ruled, entered, Move, ask_create, ask_confirm, ask_credit, stop, store,
  read_created, update_order, create_event, commit_confirm, read_confirmed, read_rule, create_entry,
  commit_credit, mark_event, Holds, Apart, Shared, set_pc, Turn, pick, with_confirmation,
  with_credit,
}
use shopback_cashback_ledger.Concurrent.Changes.{
  Change, still, along, again, Change-KeepsOrder, Change-IsLive,
}
use shopback_cashback_ledger.Concurrent.Invariant.{
  IsPending, IsAnnouncing, IsDue, IsEntering, Fits, Inv, IsLocal, Move-IsLocal,
}

module _ (S : Services) where
  -- The commit of a confirmation is the step of the book, or announces a confirmed order again.
  confirmation-Change :
      (b b' : Book S) (o o' : OrderRow S) (e : OutboxRow S) (id : String) (time : ℕ)
      → IsPending S b o o'
      → IsAnnouncing S b o e id time
      → b' ≡ with_confirmation S b o e
      → Change S b b'
  confirmation-Change b b' o o' e id time h k same = by_status o'.status refl
    where
      after : b' ≡ with_event S b o' id time
      after = cc (same, h.row, k.event)

      by_status : (status : OrderStatus) → o'.status ≡ status → Change S b b'
      by_status created s = along (confirm o' id time h.stored s k.free after)
      by_status confirmed s = again o' id time h.stored s k.free after
      by_status cancelled s = absurd (h.live s)

  -- The commit of a credit is the step of the book.
  credit-Change :
      (b b' : Book S) (x : EntryRow S) (o : OrderRow S) (id : String) (rate : S.Decimal)
      (limit : Option S.Decimal)
      → IsEntering S b x o id rate limit
      → b' ≡ with_credit S b x
      → Change S b b'
  credit-Change b b' x o id rate limit h same =
      let (o', stored, terms) = h.due.kept in
      let own : b.orders o'.id ≡ some o' = ap b.orders terms.id ∙ stored in
      let free : b.ledger (o'.id, credit) ≡ none = rw terms.id h.free in
      let entry : x ≡ credit_entry S id o' (cashback S o'.amount rate limit) =
        rw terms.amount (cc (h.entry, terms.id, terms.user_id, terms.currency)) in
      along (
        give o' id rate limit own (terms.stays_confirmed h.due.is_confirmed) free
          (same ∙ ap (with_credit S b) entry))

  pub Move-Change : {b b' : Book S} {p p' : Pc S} → Move S b p b' p' → Fits S b p → Change S b b'
  Move-Change (ask_create o h) f = still refl
  Move-Change (ask_confirm id) f = still refl
  Move-Change (ask_credit id) f = still refl
  Move-Change (stop p) f = still refl
  Move-Change (store o b' fresh absent e) f = along (place o absent fresh e)
  Move-Change (read_created id o h k) f = still refl
  Move-Change (update_order id o h k) f = still refl
  Move-Change (create_event o id time h) f = still refl
  Move-Change {b} (commit_confirm o e b' same) f =
      let (o', id, time, h, k) = f in confirmation-Change b b' o o' e id time h k same
  Move-Change (read_confirmed id o h k c) f = still refl
  Move-Change (read_rule o rate limit) f = still refl
  Move-Change (create_entry o amount id h) f = still refl
  Move-Change {b} (commit_credit x b' same) f =
      let (o, id, rate, limit, h) = f in credit-Change b b' x o id rate limit h same
  Move-Change (mark_event e e' b' h same k) f = along (move e e' h same k)

  -- What the session that moves knows after its step.
  Move-Fits : {b b' : Book S} {p p' : Pc S} → Move S b p b' p' → Fits S b p → Fits S b' p'
  Move-Fits (ask_create o h) f = h
  Move-Fits (ask_confirm id) f = tt
  Move-Fits (ask_credit id) f = tt
  Move-Fits (stop p) f = tt
  Move-Fits (store o b' fresh absent e) f = tt
  Move-Fits (read_created id o h k) f = (o, h, λ c. cc (k, c))
  Move-Fits {b} (update_order id o h k) f =
      let (x, stored, live) = f in
      let same : x ≡ o = cc (stored, h) in
      (o, record { stored = ap b.orders k ∙ h; row = refl; live = rw same at live })
  Move-Fits (create_event o id time h) f =
      let (o', pending) = f in (o', id, time, pending, record { event = refl; free = h })
  Move-Fits (commit_confirm o e b' same) f = tt
  Move-Fits {b} (read_confirmed id o h k c) f = record {
    kept = (o, ap b.orders k ∙ h, SameTerms-refl S o);
    is_confirmed = c;
  }
  Move-Fits (read_rule o rate limit) f = (f, (rate, limit, refl))
  Move-Fits (create_entry o amount id h) f =
      let (due, (rate, limit, same)) = f in
      (o, id, rate, limit, record { due = due; entry = ap (credit_entry S id o) same; free = h })
  Move-Fits (commit_credit x b' same) f = tt
  Move-Fits (mark_event e e' b' h same k) f = tt

  -- A session that does not move keeps what it knows, since the other one has not locked it.
  IsPending-kept :
      (b b' : Book S) (p : Pc S) (o o' : OrderRow S)
      → IsLocal S b p b'
      → ¬ Holds S p (order_row o.id)
      → IsPending S b o o'
      → IsPending S b' o o'
  IsPending-kept b b' p o o' local free h = record {
    stored =
        local.orders o'.id o' (subst (λ (x : OrderRow S). ¬ Holds S p (order_row x.id)) h.row free)
          h.stored;
    row = h.row;
    live = h.live;
  }

  IsDue-kept : (b b' : Book S) (o : OrderRow S) → Change S b b' → IsDue S b o → IsDue S b' o
  IsDue-kept b b' o change h = record {
    kept = Change-KeepsOrder S o.id o b b' change h.kept;
    is_confirmed = h.is_confirmed;
  }

  Fits-others :
      (b b' : Book S) (p q : Pc S)
      → IsLocal S b p b'
      → Change S b b'
      → Apart S q p
      → Fits S b q
      → Fits S b' q
  Fits-others b b' p idle local change apart f = tt
  Fits-others b b' p (placing o) local change apart f = f
  Fits-others b b' p (confirming id) local change apart f = tt
  Fits-others b b' p (seen id) local change apart f = Change-IsLive S id b b' change f
  Fits-others b b' p (updated o) local change apart (o', h) =
      (o', IsPending-kept b b' p o o' local (apart (order_row o.id) refl) h)
  Fits-others b b' p (announced o e) local change apart (o', id, time, h, k) = (
    o',
    id,
    time,
    IsPending-kept b b' p o o' local (apart (order_row o.id) (inl refl)) h,
    record {
      event = k.event;
      free =
          local.outbox id (apart (event_key id) (inr (ap (λ x. event_key x.id) (sym k.event))))
            k.free;
    },
  )
  Fits-others b b' p (crediting id) local change apart f = tt
  Fits-others b b' p (found o) local change apart f = IsDue-kept b b' o change f
  Fits-others b b' p (ruled o amount) local change apart f = (IsDue-kept b b' o change f.0, f.1)
  Fits-others b b' p (entered x) local change apart (o, id, rate, limit, h) = (
    o,
    id,
    rate,
    limit,
    record {
      due = IsDue-kept b b' o change h.due;
      entry = h.entry;
      free =
          local.ledger o.id
            (apart (credit_key o.id) (ap (λ y. credit_key y.order_id) (sym h.entry))) h.free;
    },
  )

  Apart-sym : (p q : Pc S) → Apart S p q → Apart S q p
  Apart-sym p q h l held held' = h l held' held

  pub Turn-Change : {s t : Shared S} → Inv S s → Turn S s t → Change S s.book t.book
  Turn-Change inv (pick i b p mv free) = Move-Change mv (inv.fits i)

  pub Turn-Inv : {s t : Shared S} → Inv S s → Turn S s t → Inv S t
  Turn-Inv {s} inv (pick i b p mv free) = record { fits = fits; apart = apart }
    where
      fits : (j : ℕ) → Fits S b (set_pc S s.pc i p j)
      fits j = elim (Bool-cases (eqb i j)) [
        | inl same ↦ rw same (Move-Fits mv (inv.fits i))
        | inr other ↦ rw other (
            Fits-others s.book b (s.pc i) (s.pc j) (Move-IsLocal S mv) (Move-Change mv (inv.fits i))
              (inv.apart j i (λ e. eqb→ne i j other (sym e))) (inv.fits j))
      ]

      apart : (j k : ℕ) → j ≢ k → Apart S (set_pc S s.pc i p j) (set_pc S s.pc i p k)
      apart j k ne = elim (Bool-cases (eqb i j)) [
        | inl here ↦ elim (Bool-cases (eqb i k)) [
          | inl there ↦ absurd (ne (sym (eqb→eq i j here) ∙ eqb→eq i k there))
          | inr other ↦ rw (here, other) (free k (eqb→ne i k other))
        ]
        | inr away ↦ elim (Bool-cases (eqb i k)) [
          | inl there ↦ rw (away, there) (Apart-sym p (s.pc j) (free j (eqb→ne i j away)))
          | inr other ↦ rw (away, other) (inv.apart j k ne)
        ]
      ]
