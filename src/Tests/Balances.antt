-- ===== src/Tests/Balances.antt =====
-- The theorem on balances, for a user with a credit and a debit in one currency and a credit in another.
use mathlib.Core.List.Memᴰ.{not-nil}
use Prim.Native.Nat.{◌%◌}
use shopback_cashback_ledger.Prelude.{
  ℕ, ◌+◌, ◌*◌, String, Bool, true, false, some, List, [], ◌∷◌, ◌≡◌, refl, sym, subst, ◌∙◌, All,
  Memᴰ, ◌==◌, ◌&&◌, text_comparable, eq_iff, arith, Bool-cases, inl, inr, if◌then◌else◌,
}
use shopback_cashback_ledger.Schema.{
  LedgerEntryType, debit, confirmed, entry_type_comparable, entry_type_beq_iff,
}
use shopback_cashback_ledger.Effect.{ok, ◌>>=◌}
use shopback_cashback_ledger.World.{World}
use shopback_cashback_ledger.Calls.{tick, call, now}
use shopback_cashback_ledger.Cashback.{EntryRow}
use shopback_cashback_ledger.Users.{Group, Sums, get_balance}
use shopback_cashback_ledger.Users.Currencies.{
  amounts, IsGroup, SumLaws, IsBalance, get_balance-IsBalance,
}
use shopback_cashback_ledger.Tests.Toy.{toy, world_with, unary, credit_row}

abbrev sum_nat : List ℕ → ℕ
sum_nat [] = 0
sum_nat (n ∷ ns) = n + sum_nat ns

-- Some entry has the currency and the type.
abbrev seen : String → LedgerEntryType → List (EntryRow toy) → Bool
seen currency type [] = false
seen currency type (e ∷ es) =
    if e.currency == currency && e.type == type then true else seen currency type es

abbrev group_of : List (EntryRow toy) → EntryRow toy → Group toy
group_of all e = record {
  currency = e.currency;
  type = e.type;
  sum = some (sum_nat (amounts toy all e.currency e.type));
}

-- One group for each currency and type, at its last entry.
abbrev groups_from : List (EntryRow toy) → List (EntryRow toy) → List (Group toy)
groups_from all [] = []
groups_from all (e ∷ es) =
    let rest = groups_from all es in
    if seen e.currency e.type es then rest else group_of all e ∷ rest

-- The entry that was seen.
abbrev Seen : String → LedgerEntryType → List (EntryRow toy) → Type 0
Seen currency type es = (e : EntryRow toy) × Memᴰ e es × (e.currency ≡ currency) × (e.type ≡ type)

seen-Seen :
    (currency : String) (type : LedgerEntryType) (es : List (EntryRow toy))
    → seen currency type es ≡ true
    → Seen currency type es
seen-Seen currency type [] h = absurd cc
seen-Seen currency type (e ∷ es) h = elim (Bool-cases (e.currency == currency)) [
  | inl same ↦ elim (Bool-cases (e.type == type)) [
    | inl kind ↦ (
      e,
      Memᴰ.head refl,
      (eq_iff e.currency currency).0 same,
      (entry_type_beq_iff e.type type).0 kind,
    )
    | inr other ↦
        let (f, m, c, t) = seen-Seen currency type es (rw (same, other) at h) in
        (f, Memᴰ.tail m, c, t)
  ]
  | inr other ↦
      let (f, m, c, t) = seen-Seen currency type es (rw other at h) in (f, Memᴰ.tail m, c, t)
]

groups_from-IsGroup :
    (all es : List (EntryRow toy))
    → ((e : EntryRow toy) → Memᴰ e es → Memᴰ e all)
    → All (IsGroup toy sum_nat all) (groups_from all es)
groups_from-IsGroup all [] inside = tt
groups_from-IsGroup all (e ∷ es) inside =
    let rest = groups_from-IsGroup all es (λ f m. inside f (Memᴰ.tail m)) in
    elim (Bool-cases (seen e.currency e.type es)) [
      | inl again ↦ rw again rest
      | inr last ↦
          rw last
            (record { member = (e, inside e (Memᴰ.head refl), refl, refl); summed = refl }, rest)
    ]

abbrev Covered : List (EntryRow toy) → List (EntryRow toy) → EntryRow toy → Type 0
Covered all es e =
    (g : Group toy) × Memᴰ g (groups_from all es) × (g.currency ≡ e.currency) × (g.type ≡ e.type)

Covered-later :
    (all es : List (EntryRow toy)) (f e : EntryRow toy) → Covered all es e → Covered all (f ∷ es) e
Covered-later all es f e (g, m, c, t) = elim (Bool-cases (seen f.currency f.type es)) [
  | inl again ↦ (g, rw again m, c, t)
  | inr last ↦ (g, rw last (Memᴰ.tail m), c, t)
]

Covered-first :
    (all es : List (EntryRow toy)) (f : EntryRow toy)
    → ((e : EntryRow toy) → Memᴰ e es → Covered all es e)
    → Covered all (f ∷ es) f
Covered-first all es f earlier = elim (Bool-cases (seen f.currency f.type es)) [
  | inl again ↦
      let (e, m, c, t) = seen-Seen f.currency f.type es again in
      let (g, n, d, u) = earlier e m in (g, rw again n, d ∙ c, u ∙ t)
  | inr last ↦ (group_of all f, rw last (Memᴰ.head refl), refl, refl)
]

groups_from-Covered :
    (all es : List (EntryRow toy)) (e : EntryRow toy) → Memᴰ e es → Covered all es e
groups_from-Covered all [] e m = absurd (not-nil m)
groups_from-Covered all (f ∷ es) e (Memᴰ.head p) =
    subst (Covered all (f ∷ es)) (sym p)
      (Covered-first all es f (λ d m. groups_from-Covered all es d m))
groups_from-Covered all (f ∷ es) e (Memᴰ.tail m) =
    Covered-later all es f e (groups_from-Covered all es e m)

abbrev toy_sums : Sums toy
toy_sums = record {
  group_by = λ entries. groups_from entries entries;
  add = λ a b. (a + b) % 100;
  times = λ a b. a * b;
  negative_one = 99;
}

-- Whole numbers modulo 100, where 99 stands for -1.
toy_laws : SumLaws toy toy_sums
toy_laws = record {
  sum = sum_nat;
  minus = λ a b. (a + 99 * b) % 100;
  each = λ entries. groups_from-IsGroup entries entries (λ e m. m);
  covered = λ entries e m. groups_from-Covered entries entries e m;
  one_times = λ a. omega arith;
  add_negated = λ a b. refl;
}

-- Two purchases and a return in `SGD` and one in `USD`, and the entry of another user.
abbrev spent_world : World toy
spent_world = record (world_with confirmed) {
  db = record (world_with confirmed).db {
    ledger =
        credit_row
        ∷ record credit_row { id = "l2"; order_id = "o2"; user_id = "u2"; amount = 50 }
        ∷ record credit_row { id = "l3"; order_id = "o3"; amount = 9 }
        ∷ record credit_row { id = "l4"; type = debit; amount = 4 }
        ∷ record credit_row { id = "l5"; order_id = "o5"; amount = 7; currency = "USD" }
        ∷ [];
  };
}

abbrev own_entries : List (EntryRow toy)
own_entries =
    credit_row
    ∷ record credit_row { id = "l3"; order_id = "o3"; amount = 9 }
    ∷ record credit_row { id = "l4"; type = debit; amount = 4 }
    ∷ record credit_row { id = "l5"; order_id = "o5"; amount = 7; currency = "USD" }
    ∷ []

-- The balance is 24 - 4.
spent_balance : get_balance toy toy_sums "u1" spent_world ≡ (
  ok (record { user_id = "u1"; currency = "SGD"; balance = 20; as_of = unary 1000 }),
  tick toy spent_world,
)
unfolding get_balance ◌>>=◌ call now
spent_balance = refl

get_balance-IsBalance_example :
    (currency : String) × (balance : ℕ) × (get_balance toy toy_sums "u1" spent_world ≡ (
      ok (record { user_id = "u1"; currency = currency; balance = balance; as_of = unary 1000 }),
      tick toy spent_world,
    ))
    × IsBalance toy toy_sums toy_laws own_entries (currency, balance)
get_balance-IsBalance_example = get_balance-IsBalance toy toy_sums toy_laws "u1" spent_world refl
