-- ===== src/Spec/Maps.antt =====
-- A map with one value set.
use shopback_cashback_ledger.Prelude.{
  String, Option, none, some, Comparable, ◌==◌, text_comparable, ◌≡◌, ◌≢◌, refl, ◌⊎◌, inl, inr,
  Bool-cases, eq_iff, if◌then◌else◌, arith,
}
use text.Mathlib.TextPositions.{eq_refl}

abbrev pub put : {K R : Type 0} ⦃e : Comparable K⦄ → K → R → (K → Option R) → K → Option R
put k r f j = if k == j then some r else f j

module _ {K R : Type 0} ⦃e : Comparable K⦄ where
  pub put-ne : (k j : K) (r : R) (f : K → Option R) → k ≢ j → put k r f j ≡ f j
  put-ne k j r f h = elim (Bool-cases (e.equal k j)) [
    | inl same ↦ absurd (h ((e.equal_iff k j).0 same))
    | inr other ↦ rw other refl
  ]

module _ {R : Type 0} where
  -- A value of a map with one value set is that one, or was there before.
  pub put-some :
      (k j : String) (r : R) (f : String → Option R) {x : R}
      → put k r f j ≡ some x
      → ((k ≡ j) × (r ≡ x)) ⊎ ((k ≢ j) × (f j ≡ some x))
  put-some k j r f h = elim (Bool-cases (k == j)) [
    | inl same ↦ inl ((eq_iff k j).0 same, cc (rw same at h))
    | inr other ↦ inr ((λ e. ground (arith, eq_iff k j, other, e)), rw other at h)
  ]

  pub put-here : (k : String) (r : R) (f : String → Option R) → put k r f k ≡ some r
  put-here k r f = rw (eq_refl k) refl

  -- What was there under a key stays there when a free key is set.
  pub put-kept :
      (k j : String) (r : R) (f : String → Option R) {x : R}
      → f k ≡ none
      → f j ≡ some x
      → put k r f j ≡ some x
  put-kept k j r f absent h = elim (Bool-cases (k == j)) [
    | inl same ↦ absurd (cc (absent, (eq_iff k j).0 same, h))
    | inr other ↦ rw other h
  ]
