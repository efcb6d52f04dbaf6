-- ===== src/Tests/Tables.antt =====
-- A table as a list of rows, for the tests: it meets the laws of `Table`.
use shopback_cashback_ledger.Prelude.{
  Bool, true, false, Option, none, some, List, [], ◌∷◌, All, Memᴰ, Comparable, ◌==◌, ◌≡◌, refl, inl,
  inr, Bool-cases, select, arith, if◌then◌else◌,
}
use shopback_cashback_ledger.Services.Table.{Table}

module _ {K R : Type 0} ⦃e : Comparable K⦄ (key : R → K) where
  abbrev pub find_row : K → List R → Option R
  find_row k [] = none
  find_row k (x ∷ t) = if key x == k then some x else find_row k t

  abbrev pub write_row : R → List R → List R
  write_row r [] = r ∷ []
  write_row r (x ∷ t) = if key r == key x then r ∷ t else x ∷ write_row r t

  abbrev pub differs : R → R → Bool
  differs x r = if key x == key r then false else true

  -- The first row of each key.
  abbrev pub all_rows : List R → List R
  all_rows [] = []
  all_rows (x ∷ t) = x ∷ select (differs x) (all_rows t)

  pub find_row-write :
      (k : K) (r : R) (t : List R)
      → find_row k (write_row r t) ≡ (if key r == k then some r else find_row k t)
  find_row-write k r [] = refl
  find_row-write k r (x ∷ t) = ground (
    arith,
    find_row-write k r t,
    e.equal_iff (key r) (key x),
    e.equal_iff (key x) k,
    e.equal_iff (key r) k,
  )

  pub find_row-key : (k : K) (r : R) (t : List R) → find_row k t ≡ some r → key r ≡ k
  find_row-key k r [] h = cc
  find_row-key k r (x ∷ t) h = ground (arith, find_row-key k r t, e.equal_iff (key x) k)

  keep_found :
      (x : R) (t xs : List R)
      → All (λ r. find_row (key r) t ≡ some r) xs
      → All (λ r. find_row (key r) (x ∷ t) ≡ some r) (select (differs x) xs)
  keep_found x t [] h = tt
  keep_found x t (y ∷ xs) h = elim (Bool-cases (key x == key y)) [
    | inl same ↦ rw same (keep_found x t xs h.1)
    | inr other ↦ rw other (rw other h.0, keep_found x t xs h.1)
  ]

  pub find_of_all_rows : (t : List R) → All (λ r. find_row (key r) t ≡ some r) (all_rows t)
  find_of_all_rows [] = tt
  find_of_all_rows (x ∷ t) = (
    (rw ((e.equal_iff (key x) (key x)).1 refl)),
    keep_found x t (all_rows t) (find_of_all_rows t),
  )

  select_mem :
      (x r : R) (xs : List R)
      → (key x == key r) ≡ false
      → Memᴰ r xs
      → Memᴰ r (select (differs x) xs)
  select_mem x r [] h m = m
  select_mem x r (y ∷ xs) h (Memᴰ.head p) = rw (← p) (rw h (Memᴰ.head refl))
  select_mem x r (y ∷ xs) h (Memᴰ.tail m) = elim (Bool-cases (key x == key y)) [
    | inl same ↦ rw same (select_mem x r xs h m)
    | inr other ↦ rw other (Memᴰ.tail (select_mem x r xs h m))
  ]

  pub all_rows_of_find : (k : K) (r : R) (t : List R) → find_row k t ≡ some r → Memᴰ r (all_rows t)
  all_rows_of_find k r [] h = cc
  all_rows_of_find k r (x ∷ t) h = elim (Bool-cases (key x == k)) [
    | inl same ↦ Memᴰ.head (cc (rw same at h))
    | inr other ↦
        let rest : find_row k t ≡ some r = rw other at h in
        Memᴰ.tail (
          select_mem x r (all_rows t) (rw (find_row-key k r t rest) other)
            (all_rows_of_find k r t rest))
  ]

  abbrev pub list_table : Table key
  list_table = record {
    Rows = List R;
    find = find_row;
    write = write_row;
    rows = all_rows;
    find-write = find_row-write;
    find-key = find_row-key;
    find_of_rows = find_of_all_rows;
    rows_of_find = all_rows_of_find;
  }
