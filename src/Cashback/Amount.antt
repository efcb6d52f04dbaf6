-- ===== src/Cashback/Amount.antt =====
-- The amount of a cashback.
use shopback_cashback_ledger.Prelude.{false, some, ◌≡◌, subst, Bool-cases, inl, inr}
use shopback_cashback_ledger.Services.{Services}
use shopback_cashback_ledger.Cashback.{capped, cashback}

module _ (S : Services) where
  capped-le :
      (amount limit : S.Decimal) → S.greater_than (capped S amount (some limit)) limit ≡ false
  capped-le amount limit = elim (Bool-cases (S.greater_than amount limit)) [
    | inl above ↦ rw above (S.greater_than_irrefl limit)
    | inr below ↦ rw below below
  ]

  -- With a cap of at most two decimal places, the cashback is never greater than the cap.
  pub cashback-le-cap :
      (amount rate limit : S.Decimal)
      → S.to_decimal_places 2 limit ≡ limit
      → S.greater_than (cashback S amount rate (some limit)) limit ≡ false
  unfolding cashback
  cashback-le-cap amount rate limit two_places =
      let before = capped S (S.mul amount rate) (some limit) in
      subst (λ c. S.greater_than (S.to_decimal_places 2 before) c ≡ false) two_places
        (S.rounding_mono 2 before limit (capped-le (S.mul amount rate) limit))
