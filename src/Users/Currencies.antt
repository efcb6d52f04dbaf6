-- ===== src/Users/Currencies.antt =====
-- The balance of a user against the amounts of the entries of its currency in the ledger.
use mathlib.Core.List.Memᴰ.{not-nil}
use shopback_cashback_ledger.Prelude.{
  suc, String, true, List, [], ◌∷◌, ◌==◌, ◌&&◌, text_comparable, ◌≡◌, refl, Bool-cases, inl, inr,
  eq_iff, select, some, map, Memᴰ, All, if◌then◌else◌,
}
use shopback_cashback_ledger.Schema.{LedgerEntryType, credit, debit, entry_type_comparable}
use shopback_cashback_ledger.Errors.{success}
use shopback_cashback_ledger.Effect.{ok, pure, ◌>>=◌}
use shopback_cashback_ledger.Services.{Services}
use shopback_cashback_ledger.World.{World}
use shopback_cashback_ledger.Calls.{call, now, tick}
use shopback_cashback_ledger.Cashback.{EntryRow}
use shopback_cashback_ledger.Users.{
  Group, Sums, Totals, get_total, set_total, zero_number, or_zero, is_of_user, sign_of, signed,
  add_row, by_currency, first_total, get_balance,
}

module _ (S : Services) where
  -- The amounts of the entries of a currency and a type.
  abbrev pub amounts : List (EntryRow S) → String → LedgerEntryType → List S.Decimal
  amounts entries currency type =
      map (λ (e : EntryRow S). e.amount)
        (select (λ (e : EntryRow S). e.currency == currency && e.type == type) entries)

  -- A row of `groupBy` over some entries: it stands for at least one of them, and has the sum of
  -- the amounts of all that share its currency and its type.
  pub record IsGroup (sum : List S.Decimal → S.Decimal) (entries : List (EntryRow S)) (g : Group S)
      : Type 0 where
    pub member : (e : EntryRow S) × Memᴰ e entries × (e.currency ≡ g.currency) × (e.type ≡ g.type)
    pub summed : g.sum ≡ some (sum (amounts entries g.currency g.type))

  -- What PostgreSQL says of `SUM` and `GROUP BY`, and JavaScript of `*`, `+` and `-`.
  pub record SumLaws (M : Sums S) : Type 0 where
    pub sum : List S.Decimal → S.Decimal
    pub minus : S.Number → S.Number → S.Number
    pub each : (entries : List (EntryRow S)) → All (IsGroup sum entries) (M.group_by entries)
    pub covered :
        (entries : List (EntryRow S)) (e : EntryRow S)
        → Memᴰ e entries
        → (g : Group S) × Memᴰ g (M.group_by entries)
          × (g.currency ≡ e.currency)
          × (g.type ≡ e.type)
    pub one_times : (a : S.Number) → M.times (S.number_of_nat 1) a ≡ a
    pub add_negated : (a b : S.Number) → M.add a (M.times M.negative_one b) ≡ minus a b

module _ (S : Services) (M : Sums S) (L : SumLaws S M) where
  -- The credits of a currency are added, and its debits are taken off.
  abbrev pub step : LedgerEntryType → S.Number → S.Number → S.Number
  step credit acc n = M.add acc n
  step debit acc n = L.minus acc n

  -- From a start, over those groups that have the currency, in their order, each with the amounts of
  -- the entries.
  abbrev pub total : List (EntryRow S) → String → S.Number → List (Group S) → S.Number
  total entries cur acc [] = acc
  total entries cur acc (g ∷ groups) =
      let amount = S.to_number (L.sum (amounts S entries g.currency g.type)) in
      let here = total entries cur (step g.type acc amount) groups in
      let rest = total entries cur acc groups in if cur == g.currency then here else rest

  -- The balance over the entries of a user: 0 in SGD if there are none, and else that of a currency
  -- of one of them.
  abbrev pub IsBalance : List (EntryRow S) → String × S.Number → Type 0
  IsBalance [] (cur, n) = (cur ≡ "SGD") × (n ≡ S.number_of_nat 0)
  IsBalance (e ∷ es) (cur, n) =
      ((held : EntryRow S) × Memᴰ held (e ∷ es) × (held.currency ≡ cur))
      × (n ≡ total (e ∷ es) cur (S.number_of_nat 0) (M.group_by (e ∷ es)))

  -- What the loop adds for a group.
  added :
      (entries : List (EntryRow S)) (g : Group S) (acc : S.Number)
      → IsGroup S L.sum entries g
      → M.add acc (signed S M g)
        ≡ step g.type acc (S.to_number (L.sum (amounts S entries g.currency g.type)))
  added entries g acc h = rw h.summed (by_type g.type _)
    where
      by_type :
          (t : LedgerEntryType) (n : S.Number)
          → M.add acc (M.times (sign_of S M t) n) ≡ step t acc n
      by_type credit n = rw (L.one_times n) refl
      by_type debit n = L.add_negated acc n

  -- The first entry of the map stays the first, and gets the groups of its currency.
  first-by_currency :
      (entries : List (EntryRow S)) (groups : List (Group S)) (cur : String) (n : S.Number)
      (m : Totals S)
      → All (IsGroup S L.sum entries) groups
      → first_total S M (by_currency S M groups ((cur, n) ∷ m)) ≡ (cur, total entries cur n groups)
  unfolding by_currency add_row
  first-by_currency entries [] cur n m h = refl
  first-by_currency entries (g ∷ groups) cur n m h = elim (Bool-cases (cur == g.currency)) [
    | inl same ↦ rw (same, added entries g n h.0) (first-by_currency entries groups cur _ m h.1)
    | inr other ↦
        let sum = M.add (or_zero S (get_total S g.currency ((cur, n) ∷ m))) (signed S M g) in
        rw other (first-by_currency entries groups cur n (set_total S g.currency sum m) h.1)
  ]

  -- No entry, no group.
  none_grouped : (groups : List (Group S)) → All (IsGroup S L.sum []) groups → groups ≡ []
  none_grouped [] h = refl
  none_grouped (g ∷ groups) (h, rest) = absurd (not-nil h.member.1)

  grouped-IsBalance :
      (e : EntryRow S) (es : List (EntryRow S)) (groups : List (Group S))
      → M.group_by (e ∷ es) ≡ groups
      → All (IsGroup S L.sum (e ∷ es)) groups
      → (g : Group S) × Memᴰ g groups
      → IsBalance (e ∷ es) (first_total S M (by_currency S M groups []))
  unfolding by_currency add_row
  grouped-IsBalance e es [] same h (g, m) = absurd (not-nil m)
  grouped-IsBalance e es (g ∷ groups) same h some_group =
      let own : (g.currency == g.currency) ≡ true = (eq_iff g.currency g.currency).1 refl in
      let (held, inside, currency, type) = h.0.member in
      rw
        (
          first-by_currency (e ∷ es) groups g.currency (M.add (zero_number S) (signed S M g)) []
              h.1,
          same,
          own,
          added (e ∷ es) g (zero_number S) h.0,
        )
        ((held, inside, currency), refl)

  by_currency-IsBalance :
      (entries : List (EntryRow S))
      → IsBalance entries (first_total S M (by_currency S M (M.group_by entries) []))
  unfolding by_currency
  by_currency-IsBalance [] = rw (none_grouped (M.group_by []) (L.each [])) (refl, refl)
  by_currency-IsBalance (e ∷ es) =
      let (g, inside, cur, type) = L.covered (e ∷ es) e (Memᴰ.head refl) in
      grouped-IsBalance e es (M.group_by (e ∷ es)) refl (L.each (e ∷ es)) (g, inside)

  -- If the one call succeeds, the balance is over the entries of just that user in the ledger. It is
  -- 0 in SGD if there are none. Else it is in the currency of one of them: from 0, for each group of
  -- entries of that currency and of one type, in the order of the groups, the sum of their amounts
  -- is added if they are credits, and taken off if they are debits. Nothing else changes but the
  -- count of calls.
  pub get_balance-IsBalance :
      (id : String) (w : World S)
      → S.outcome w.calls ≡ success
      → (currency : String) × (balance : S.Number) × (get_balance S M id w ≡ (
        ok (record {
          user_id = id;
          currency = currency;
          balance = balance;
          as_of = S.iso_text (S.clock (suc w.calls));
        }),
        tick S w,
      ))
        × IsBalance
            (select (λ (e : EntryRow S). e.user_id == id) (S.ledger.rows w.db.ledger))
            (currency, balance)
  unfolding get_balance call now pure ◌>>=◌
  get_balance-IsBalance id w h =
      let entries = select (is_of_user S id) (S.ledger.rows w.db.ledger) in
      let (currency, balance) = first_total S M (by_currency S M (M.group_by entries) []) in
      (currency, balance, rw h refl, by_currency-IsBalance entries)
