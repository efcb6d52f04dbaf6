-- ===== src/Services/Table.antt =====
-- A table of the database, by the key that its rows are found by (`@id` or `@unique` of the schema).
-- `find` is `findUnique`, `write` stores a row under its key, and `rows` lists the table in the
-- order of `createdAt`; the laws are those of a relational table with a unique key.
use shopback_cashback_ledger.Prelude.{
  Option, some, List, All, Memᴰ, Comparable, ◌==◌, ◌≡◌, if◌then◌else◌,
}

pub record Table {K R : Type 0} ⦃e : Comparable K⦄ (key : R → K) : Type 1 where
  pub Rows : Type 0
  pub find : K → Rows → Option R
  pub write : R → Rows → Rows
  pub rows : Rows → List R
  pub find-write :
      (k : K) (r : R) (t : Rows) → find k (write r t) ≡ (if key r == k then some r else find k t)
  pub find-key : (k : K) (r : R) (t : Rows) → find k t ≡ some r → key r ≡ k
  pub find_of_rows : (t : Rows) → All (λ r. find (key r) t ≡ some r) (rows t)
  pub rows_of_find : (k : K) (r : R) (t : Rows) → find k t ≡ some r → Memᴰ r (rows t)
