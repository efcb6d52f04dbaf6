-- ===== src/Concurrent/Schedules.antt =====
-- Two sessions that take turns while the others are idle.
use mathlib.Core.Path.{fun_ext}
use shopback_cashback_ledger.Prelude.{
  ℕ, ◌≡◌, refl, sym, subst, inl, inr, Bool-cases, eqb, eqb→eq, if◌then◌else◌,
}
use shopback_cashback_ledger.Services.{Services}
use shopback_cashback_ledger.Spec.{Book}
use shopback_cashback_ledger.Concurrent.{
  Pc, idle, Move, Apart, Shared, set_pc, pick, Reach, start, later,
}

module _ (S : Services) where
  abbrev pub two : Pc S → Pc S → ℕ → Pc S
  two p q i = if eqb 0 i then p else if eqb 1 i then q else idle

  abbrev pub duo : Book S → Pc S → Pc S → Shared S
  duo b p q = record { book = b; pc = two p q }

  -- No session has begun.
  abbrev pub at_rest : Book S → Shared S
  at_rest b = record { book = b; pc = λ i. idle }

  two-idle : two idle idle ≡ (λ i. idle)
  two-idle = fun_ext (λ i. elim (Bool-cases (eqb 0 i)) [
    | inl e ↦ rw e refl
    | inr e ↦ elim (Bool-cases (eqb 1 i)) [ inl f ↦ rw (e, f) refl | inr f ↦ rw (e, f) refl ]
  ])

  set_pc-first : (p q p' : Pc S) → set_pc S (two p q) 0 p' ≡ two p' q
  set_pc-first p q p' =
      fun_ext (λ i. elim (Bool-cases (eqb 0 i)) [ inl e ↦ rw e refl | inr e ↦ rw e refl ])

  set_pc-second : (p q q' : Pc S) → set_pc S (two p q) 1 q' ≡ two p q'
  set_pc-second p q q' =
      fun_ext
        (λ i. elim (Bool-cases (eqb 1 i)) [ inl e ↦ rw (← eqb→eq 1 i e) refl | inr e ↦ rw e refl ])

  Apart-idle : (p : Pc S) → Apart S p idle
  Apart-idle p l h k = k

  -- A step of the first session, or of the second.
  pub first :
      (q : Pc S) {s : Shared S} {b b' : Book S} {p p' : Pc S}
      → Reach S s (duo b p q)
      → Move S b p b' p'
      → Apart S p' q
      → Reach S s (duo b' p' q)
  first q {s} {b} {b'} {p} {p'} before m free =
      subst (λ (pc : ℕ → Pc S). Reach S s (record { book = b'; pc = pc })) (set_pc-first p q p')
        (later before (
          pick 0 b' p' m (λ j ne. elim (Bool-cases (eqb 1 j)) [
            | inl e ↦ rw (← eqb→eq 1 j e) free
            | inr e ↦ elim (Bool-cases (eqb 0 j)) [
              | inl f ↦ absurd (ne (eqb→eq 0 j f))
              | inr f ↦ rw (f, e) (Apart-idle p')
            ]
          ])))

  pub second :
      (p : Pc S) {s : Shared S} {b b' : Book S} {q q' : Pc S}
      → Reach S s (duo b p q)
      → Move S b q b' q'
      → Apart S q' p
      → Reach S s (duo b' p q')
  second p {s} {b} {b'} {q} {q'} before m free =
      subst (λ (pc : ℕ → Pc S). Reach S s (record { book = b'; pc = pc })) (set_pc-second p q q')
        (later before (
          pick 1 b' q' m (λ j ne. elim (Bool-cases (eqb 0 j)) [
            | inl e ↦ rw (← eqb→eq 0 j e) free
            | inr e ↦ elim (Bool-cases (eqb 1 j)) [
              | inl f ↦ absurd (ne (eqb→eq 1 j f))
              | inr f ↦ rw (e, f) (Apart-idle q')
            ]
          ])))

  -- A step of the first session while no other has begun.
  pub alone :
      {s : Shared S} {b b' : Book S} {p p' : Pc S}
      → Reach S s (duo b p idle)
      → Move S b p b' p'
      → Reach S s (duo b' p' idle)
  alone {p' = p'} before m = first idle before m (Apart-idle p')

  pub from_rest : (b : Book S) → Reach S (at_rest b) (duo b idle idle)
  from_rest b =
      subst (λ (pc : ℕ → Pc S). Reach S (at_rest b) (record { book = b; pc = pc })) (sym two-idle)
        start

  pub to_rest : {s : Shared S} {b : Book S} → Reach S s (duo b idle idle) → Reach S s (at_rest b)
  to_rest {s} {b} = subst (λ (pc : ℕ → Pc S). Reach S s (record { book = b; pc = pc })) two-idle
