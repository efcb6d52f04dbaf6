-- ===== src/Replay/Asked.antt =====
-- Which rows of the inbox a replay is asked for, and the ones that its search returns.
use mathlib.Core.List.Memᴰ.{not-nil}
use shopback_cashback_ledger.Prelude.{
  ℕ, zero, suc, ◌≤◌, String, Bool, true, Option, none, some, List, [], ◌∷◌, ◌≡◌, ◌≢◌, ◌⊎◌, ◌↔◌,
  refl, inl, inr, eq_iff, arith, Bool-cases, All, Memᴰ, length, take, select, ◌==◌, text_comparable,
}
use shopback_cashback_ledger.Schema.{InboxStatus, failed}
use shopback_cashback_ledger.Services.{Services}
use shopback_cashback_ledger.Consumer.{InboxRow}
use shopback_cashback_ledger.Replay.{inbox_where, same_inbox_status}

-- No more rows than the limit, which is 100 if none is given.
abbrev pub Within : Option ℕ → ℕ → Type 0
Within none n = n ≤ 100
Within (some limit) n = n ≤ limit

module _ {A : Type 0} (p : A → Bool) where
  pub select_mem : (x : A) (xs : List A) → p x ≡ true → Memᴰ x xs → Memᴰ x (select p xs)
  select_mem x [] h m = absurd (not-nil m)
  select_mem x (y ∷ xs) h (Memᴰ.head e) = rw (← e) (rw h (Memᴰ.head refl))
  select_mem x (y ∷ xs) h (Memᴰ.tail m) = elim (Bool-cases (p y)) [
    | inl kept ↦ rw kept (Memᴰ.tail (select_mem x xs h m))
    | inr left ↦ rw left (select_mem x xs h m)
  ]

  pub length-select_le : (xs : List A) → length (select p xs) ≤ length xs
  length-select_le [] = omega arith
  length-select_le (x ∷ xs) = ground (arith, length-select_le xs)

  pub select_holds : (xs : List A) → All (λ x. p x ≡ true) (select p xs)
  select_holds [] = tt
  select_holds (x ∷ xs) = elim (Bool-cases (p x)) [
    | inl kept ↦ rw kept (kept, select_holds xs)
    | inr left ↦ rw left (select_holds xs)
  ]

pub take_mem :
    {A : Type 0} (x : A) (n : ℕ) (xs : List A) → length xs ≤ n → Memᴰ x xs → Memᴰ x (take n xs)
take_mem x n [] h m = absurd (not-nil m)
take_mem x zero (y ∷ xs) h m = absurd (omega arith)
take_mem x (suc n) (y ∷ xs) h (Memᴰ.head e) = Memᴰ.head e
take_mem x (suc n) (y ∷ xs) h (Memᴰ.tail m) = Memᴰ.tail (take_mem x n xs (omega arith) m)

same_status_iff : (s t : InboxStatus) → (same_inbox_status s t ≡ true) ↔ (s ≡ t)
same_status_iff s t = ground arith

module _ (S : Services) where
  -- What the arguments of the command ask for: the event of a given source, or without one the events
  -- of a status, `FAILED` unless another is given.
  abbrev pub OfStatus : Option InboxStatus → InboxRow S → Type 0
  OfStatus none r = r.status ≡ failed
  OfStatus (some status) r = r.status ≡ status

  abbrev pub Asked : Option String → Option InboxStatus → InboxRow S → Type 0
  Asked none status r = OfStatus status r
  Asked (some id) status r =
      ((id ≡ "") × OfStatus status r) ⊎ ((id ≢ "") × (r.source_event_id ≡ id))

  inbox_where-OfStatus :
      (status : Option InboxStatus) (r : InboxRow S)
      → (inbox_where S none status r ≡ true) ↔ OfStatus status r
  inbox_where-OfStatus none r = same_status_iff r.status failed
  inbox_where-OfStatus (some status) r = same_status_iff r.status status

  pub inbox_where-Asked :
      (source : Option String) (status : Option InboxStatus) (r : InboxRow S)
      → (inbox_where S source status r ≡ true) ↔ Asked source status r
  inbox_where-Asked none status r = inbox_where-OfStatus status r
  inbox_where-Asked (some id) status r = elim (Bool-cases (id == "")) [
    | inl empty ↦
        let none_given = (eq_iff id "").0 empty in
        rw empty (
          λ h. inl (none_given, (inbox_where-OfStatus status r).0 h),
          λ asked. elim asked [
            | inl (same, h) ↦ (inbox_where-OfStatus status r).1 h
            | inr (other, h) ↦ absurd (other none_given)
          ],
        )
    | inr given ↦ rw given (
      λ h. inr (λ same. cc (given, (eq_iff id "").1 same), (eq_iff r.source_event_id id).0 h),
      λ asked. elim asked [
        | inl (same, h) ↦ absurd (cc (given, (eq_iff id "").1 same))
        | inr (other, h) ↦ (eq_iff r.source_event_id id).1 h
      ],
    )
  ]
