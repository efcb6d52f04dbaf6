-- ===== src/Queries.antt =====
-- Prisma's operations on one table, by its key.
use shopback_cashback_ledger.Prelude.{
  ℕ, Bool, true, false, Option, none, some, List, Comparable, ◌≡◌, sym, subst, arith, take, select,
  length, first, if◌then◌else◌,
}
use shopback_cashback_ledger.Errors.{unique_violation, record_not_found}
use shopback_cashback_ledger.Effect.{Result, ok, err}
use shopback_cashback_ledger.Services.{Services}
use shopback_cashback_ledger.Services.Table.{Table}
use shopback_cashback_ledger.Calls.{Action}

module _ {K R : Type 0} {e : Comparable K} {key : R → K} (T : Table ⦃e = e⦄ key) where
  -- `findUnique`
  abbrev pub find_unique : K → T.Rows → Result (Option R) × T.Rows
  find_unique k t = (ok (T.find k t), t)

  -- `create`: a unique key is taken once.
  abbrev pub create : R → T.Rows → Result R × T.Rows
  create r t = elim (T.find (key r) t) [
    | none ↦ (ok r, T.write r t)
    | some old ↦ (err unique_violation, t)
  ]

  pub create_fresh :
      (r : R) (t : T.Rows) → T.find (key r) t ≡ none → create r t ≡ (ok r, T.write r t)
  create_fresh r t h = ground arith

  pub create_taken :
      (r : R) {old : R} (t : T.Rows)
      → T.find (key r) t ≡ some old
      → create r t ≡ (err unique_violation, t)
  create_taken r t h = ground arith

  -- `update`, by a change of columns other than the key.
  abbrev pub update : K → (R → R) → T.Rows → Result R × T.Rows
  update k f t = elim (T.find k t) [
    | none ↦ (err record_not_found, t)
    | some r ↦ (ok (f r), T.write (f r) t)
  ]

  pub update_found :
      (k : K) (f : R → R) {r : R} (t : T.Rows)
      → T.find k t ≡ some r
      → update k f t ≡ (ok (f r), T.write (f r) t)
  update_found k f t h = ground arith

  pub update_missing :
      (k : K) (f : R → R) (t : T.Rows)
      → T.find k t ≡ none
      → update k f t ≡ (err record_not_found, t)
  update_missing k f t h = ground arith

  -- `upsert`
  abbrev pub upsert : K → (R → R) → R → T.Rows → Result R × T.Rows
  upsert k f new t = elim (T.find k t) [
    | none ↦ (ok new, T.write new t)
    | some r ↦ (ok (f r), T.write (f r) t)
  ]

module _ {K R : Type 0} {e : Comparable K} {key : R → K} (T : Table ⦃e = e⦄ key) where
  pub upsert_new :
      (k : K) (f : R → R) (new : R) (t : T.Rows)
      → T.find k t ≡ none
      → upsert T k f new t ≡ (ok new, T.write new t)
  upsert_new k f new t h = ground arith

  pub upsert_found :
      (k : K) (f : R → R) (new : R) {r : R} (t : T.Rows)
      → T.find k t ≡ some r
      → upsert T k f new t ≡ (ok (f r), T.write (f r) t)
  upsert_found k f new t h = ground arith

module _ {K R : Type 0} {e : Comparable K} {key : R → K} (T : Table ⦃e = e⦄ key) where
  -- `updateMany` of the row at one key, if it meets a condition: how many rows were changed.
  abbrev pub update_many : K → (R → Bool) → (R → R) → T.Rows → Result ℕ × T.Rows
  update_many k p f t = elim (T.find k t) [
    | none ↦ (ok 0, t)
    | some r ↦ if p r then (ok 1, T.write (f r) t) else (ok 0, t)
  ]

  pub update_many_found :
      (k : K) (p : R → Bool) (f : R → R) {r : R} (t : T.Rows)
      → T.find k t ≡ some r
      → p r ≡ true
      → update_many k p f t ≡ (ok 1, T.write (f r) t)
  update_many_found k p f t h q = ground arith

  pub update_many_missing :
      (k : K) (p : R → Bool) (f : R → R) (t : T.Rows)
      → T.find k t ≡ none
      → update_many k p f t ≡ (ok 0, t)
  update_many_missing k p f t h = ground arith

  pub update_many_refused :
      (k : K) (p : R → Bool) (f : R → R) {r : R} (t : T.Rows)
      → T.find k t ≡ some r
      → p r ≡ false
      → update_many k p f t ≡ (ok 0, t)
  update_many_refused k p f t h q = ground arith

  -- A row that was just written is found.
  pub find_written : (r : R) (t : T.Rows) → T.find (key r) (T.write r t) ≡ some r
  find_written r t = ground (arith, T.find-write (key r) r t, e.equal_iff (key r) (key r))

  -- A row that is found stands under its own key.
  pub find_own : (k : K) (r : R) (t : T.Rows) → T.find k t ≡ some r → T.find (key r) t ≡ some r
  find_own k r t h = subst (λ j. T.find j t ≡ some r) (sym (T.find-key k r t h)) h

  -- `findMany`, in the order of `createdAt`, at most `n` rows
  abbrev pub find_many : ℕ → (R → Bool) → T.Rows → Result (List R) × T.Rows
  find_many n p t = (ok (take n (select p (T.rows t))), t)

  -- `count`
  abbrev pub count_rows : (R → Bool) → T.Rows → Result ℕ × T.Rows
  count_rows p t = (ok (length (select p (T.rows t))), t)

  -- `findUnique` by another unique column, as a condition on the row
  abbrev pub find_by : (R → Bool) → T.Rows → Option R
  find_by p t = first (select p (T.rows t))

module _ (S : Services) {A : Type 0} where
  abbrev pub on_orders : (S.orders.Rows → Result A × S.orders.Rows) → Action S A
  on_orders f d = let (r, t) = f d.orders in (r, record d { orders = t })

  abbrev pub on_rules : (S.rules.Rows → Result A × S.rules.Rows) → Action S A
  on_rules f d = let (r, t) = f d.rules in (r, record d { rules = t })

  abbrev pub on_ledger : (S.ledger.Rows → Result A × S.ledger.Rows) → Action S A
  on_ledger f d = let (r, t) = f d.ledger in (r, record d { ledger = t })

  abbrev pub on_keys : (S.keys.Rows → Result A × S.keys.Rows) → Action S A
  on_keys f d = let (r, t) = f d.keys in (r, record d { keys = t })

  abbrev pub on_outbox : (S.outbox.Rows → Result A × S.outbox.Rows) → Action S A
  on_outbox f d = let (r, t) = f d.outbox in (r, record d { outbox = t })

  abbrev pub on_inbox : (S.inbox.Rows → Result A × S.inbox.Rows) → Action S A
  on_inbox f d = let (r, t) = f d.inbox in (r, record d { inbox = t })
