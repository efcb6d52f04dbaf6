-- ===== src/Users.antt =====
-- apps/api/src/users/users.controller.ts: getBalance, the balance of a user from the ledger. The
-- sums are made by Prisma's `groupBy`; the numbers are JavaScript's.
pub mod Currencies
use shopback_cashback_ledger.Prelude.{
  String, Bool, Option, none, some, List, [], ◌∷◌, ◌==◌, text_comparable, select, if◌then◌else◌,
}
use shopback_cashback_ledger.Schema.{LedgerEntryType, credit, debit}
use shopback_cashback_ledger.Effect.{ok, pure, ◌>>=◌}
use shopback_cashback_ledger.Services.{Services}
use shopback_cashback_ledger.World.{Db, Io}
use shopback_cashback_ledger.Calls.{Action, call, now}
use shopback_cashback_ledger.Cashback.{EntryRow}

-- A row of `groupBy` with `by: ['currency', 'type']` and `_sum: { amount: true }`.
pub record Group (S : Services) : Type 0 where
  pub currency : String
  pub type : LedgerEntryType
  pub sum : Option S.Decimal

pub record Balance (S : Services) : Type 0 where
  pub user_id : String
  pub currency : String
  pub balance : S.Number
  pub as_of : String

-- What the code calls: the sums of the database, and the arithmetic of numbers.
pub record Sums (S : Services) : Type 0 where
  pub group_by : List (EntryRow S) → List (Group S)
  pub add : S.Number → S.Number → S.Number
  pub times : S.Number → S.Number → S.Number
  pub negative_one : S.Number

module _ (S : Services) where
  -- `Map<string, number>`, in the order of insertion
  abbrev pub Totals : Type 0
  Totals = List (String × S.Number)

  abbrev pub get_total : String → Totals → Option S.Number
  get_total cur [] = none
  get_total cur ((c, n) ∷ m) = if c == cur then some n else get_total cur m

  abbrev pub set_total : String → S.Number → Totals → Totals
  set_total cur v [] = (cur, v) ∷ []
  set_total cur v ((c, n) ∷ m) = if c == cur then (c, v) ∷ m else (c, n) ∷ set_total cur v m

  abbrev pub zero_number : S.Number
  zero_number = S.number_of_nat 0

  -- `byCurrency.get(cur) ?? 0`
  abbrev pub or_zero : Option S.Number → S.Number
  or_zero none = zero_number
  or_zero (some n) = n

  -- `r._sum.amount ? Number(r._sum.amount) : 0`
  abbrev pub sum_of : Option S.Decimal → S.Number
  sum_of none = zero_number
  sum_of (some d) = S.to_number d

  abbrev pub is_of_user : String → EntryRow S → Bool
  is_of_user id e = e.user_id == id

  module _ (M : Sums S) where
    -- `r.type === 'CREDIT' ? 1 : -1`
    abbrev pub sign_of : LedgerEntryType → S.Number
    sign_of credit = S.number_of_nat 1
    sign_of debit = M.negative_one

    abbrev pub signed : Group S → S.Number
    signed r = M.times (sign_of r.type) (sum_of r.sum)

    -- One turn of the loop.
    unfoldable pub add_row : Group S → Totals → Totals
    add_row r m = set_total r.currency (M.add (or_zero (get_total r.currency m)) (signed r)) m

    unfoldable pub by_currency : List (Group S) → Totals → Totals
    unfolding add_row
    by_currency [] m = m
    by_currency (r ∷ rows) m = by_currency rows (add_row r m)

    abbrev pub first_total : Totals → String × S.Number
    first_total [] = ("SGD", zero_number)
    first_total (entry ∷ m) = entry

    abbrev pub user_groups : String → Action S (List (Group S))
    user_groups id d = (ok (M.group_by (select (is_of_user id) (S.ledger.rows d.ledger))), d)

    unfoldable pub get_balance : String → Io S (Balance S)
    unfolding by_currency
    get_balance id = do
      rows ← call S (user_groups id)
      time ← now S
      pure (record {
        user_id = id;
        currency = (first_total (by_currency rows [])).0;
        balance = (first_total (by_currency rows [])).1;
        as_of = S.iso_text time;
      })
