-- ===== src/Platform.antt =====
-- Functions of JavaScript that the code around the requests calls, as one record that the
-- definitions about configuration and HTTP take; the laws are documented behaviour of them.
use shopback_cashback_ledger.Prelude.{ℕ, String, Bool, ◌≡◌}

pub record Platform : Type 1 where
  pub Number : Type 0
  pub number_of_nat : ℕ → Number
  -- `Number(text)`, `Number.isFinite`, `n <= 0`, `Math.floor`
  pub number_of_text : String → Number
  pub is_finite : Number → Bool
  pub is_positive : Number → Bool
  pub floor : Number → Number
  -- `text.trim()`, `text.toUpperCase()` and `String(n)`
  pub trim : String → String
  pub trim_trim : (s : String) → trim (trim s) ≡ trim s
  pub trim_empty : trim "" ≡ ""
  pub to_upper_case : String → String
  pub nat_text : ℕ → String
