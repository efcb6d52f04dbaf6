-- ===== src/Config/Limits.antt =====
-- The limits of the throttling.
use shopback_cashback_ledger.Prelude.{String, Bool, true, false, Option, ◌≡◌, refl, ◌⊎◌, inl, inr}
use shopback_cashback_ledger.Platform.{Platform}
use shopback_cashback_ledger.Config.{get_positive_int, text_or_empty, at_least_one}

module _ (P : Platform) where
  -- If the default is positive, then so is the result, unless the text is a positive number whose
  -- `Math.floor` is not: then the result is that number, which is not positive.
  pub get_positive_int_lem :
      (value : Option String) (fallback : P.Number)
      → P.is_positive fallback ≡ true
      → let n = P.number_of_text (text_or_empty value) in
        (P.is_positive (get_positive_int P value fallback) ≡ true)
        ⊎ ((P.is_positive n ≡ true)
            × (P.is_positive (P.floor n) ≡ false)
            × (get_positive_int P value fallback ≡ P.floor n))
  unfolding get_positive_int
  get_positive_int_lem value fallback h =
      let n = P.number_of_text (text_or_empty value) in
      by_tests (P.is_finite n) (P.is_positive n) (P.is_positive (P.floor n)) refl refl refl
    where
      by_tests :
          (a b c : Bool)
          → P.is_finite (P.number_of_text (text_or_empty value)) ≡ a
          → P.is_positive (P.number_of_text (text_or_empty value)) ≡ b
          → P.is_positive (P.floor (P.number_of_text (text_or_empty value))) ≡ c
          → let n = P.number_of_text (text_or_empty value) in
            (P.is_positive (at_least_one P fallback n) ≡ true)
            ⊎ ((P.is_positive n ≡ true)
                × (P.is_positive (P.floor n) ≡ false)
                × (at_least_one P fallback n ≡ P.floor n))
      by_tests false b c ea eb ec = inl (rw ea h)
      by_tests true false c ea eb ec = inl (rw (ea, eb) h)
      by_tests true true true ea eb ec = inl (rw (ea, eb) ec)
      by_tests true true false ea eb ec = inr (eb, ec, (rw (ea, eb) refl))
