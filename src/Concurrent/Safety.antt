-- ===== src/Concurrent/Safety.antt =====
-- What is to be said of every interleaving of the sessions, from a state in which none has begun.
use shopback_cashback_ledger.Prelude.{ℕ, String, ◌≡◌, subst}
use shopback_cashback_ledger.Schema.{LedgerEntryType, entry_type_comparable}
use shopback_cashback_ledger.Services.{Services}
use shopback_cashback_ledger.Cashback.{OrderRow, EntryRow}
use shopback_cashback_ledger.Spec.{Book}
use shopback_cashback_ledger.Spec.Kept.{KeepsOrder, KeepsEntry, IsBacked}
use shopback_cashback_ledger.Spec.Announced.{IsMatched}
use shopback_cashback_ledger.Concurrent.{Pc, idle, Holds, Shared, Reach, start, later}
use shopback_cashback_ledger.Concurrent.Changes.{
  Change, Change-KeepsOrder, Change-KeepsEntry, Change-IsBacked, Change-IsMatched,
}
use shopback_cashback_ledger.Concurrent.Invariant.{Inv}
use shopback_cashback_ledger.Concurrent.Turns.{Turn-Change, Turn-Inv}

module _ (S : Services) where
  -- No session has begun, or all have ended.
  abbrev pub IsQuiet : Shared S → Type 0
  IsQuiet s = (i : ℕ) → s.pc i ≡ idle

  pub IsQuiet-Inv : (s : Shared S) → IsQuiet s → Inv S s
  IsQuiet-Inv s quiet = record {
    fits = λ i. rw (quiet i) tt;
    apart = λ i j ne l h. absurd (subst (λ (p : Pc S). Holds S p l) (quiet i) h);
  }

  Reach-Inv : {s t : Shared S} → Inv S s → Reach S s t → Inv S t
  Reach-Inv inv start = inv
  Reach-Inv inv (later before turn) = Turn-Inv S (Reach-Inv inv before) turn

  -- What each change of the book keeps holds after any interleaving.
  Reach-keep :
      (P : Book S → Type 0)
      → ((b c : Book S) → Change S b c → P b → P c)
      → {s t : Shared S} → Inv S s
      → Reach S s t
      → P s.book
      → P t.book
  Reach-keep P keep inv start h = h
  Reach-keep P keep inv (later before turn) h =
      keep _ _ (Turn-Change S (Reach-Inv inv before) turn) (Reach-keep P keep inv before h)

  -- However the sessions take turns after a quiet state, a ledger entry stays under its key as it
  -- is: it is neither changed nor replaced by another credit of the order.
  pub Reach-KeepsEntry :
      (s t : Shared S) (k : String × LedgerEntryType) (x : EntryRow S)
      → IsQuiet s
      → Reach S s t
      → KeepsEntry S k x s.book
      → KeepsEntry S k x t.book
  Reach-KeepsEntry s t k x quiet =
      Reach-keep (KeepsEntry S k x) (Change-KeepsEntry S k x) (IsQuiet-Inv s quiet)

  -- However the sessions take turns after a quiet state, a stored order stays under its id with its
  -- user, merchant, amount and currency, and stays confirmed if it was confirmed.
  pub Reach-KeepsOrder :
      (s t : Shared S) (id : String) (o : OrderRow S)
      → IsQuiet s
      → Reach S s t
      → KeepsOrder S id o s.book
      → KeepsOrder S id o t.book
  Reach-KeepsOrder s t id o quiet =
      Reach-keep (KeepsOrder S id o) (Change-KeepsOrder S id o) (IsQuiet-Inv s quiet)

  -- However the sessions take turns after a quiet state in which every credit belongs to a confirmed
  -- order of its user and currency and is the cashback of the order under some rate and cap, every
  -- credit is so afterwards too.
  pub Reach-IsBacked :
      (s t : Shared S) → IsQuiet s → Reach S s t → IsBacked S s.book → IsBacked S t.book
  Reach-IsBacked s t quiet = Reach-keep (IsBacked S) (Change-IsBacked S) (IsQuiet-Inv s quiet)

  -- However the sessions take turns after a quiet state in which the confirmed orders are those that
  -- have an event, they are so afterwards too. (That no order has two is not kept.)
  pub Reach-IsMatched :
      (s t : Shared S) → IsQuiet s → Reach S s t → IsMatched S s.book → IsMatched S t.book
  Reach-IsMatched s t quiet = Reach-keep (IsMatched S) (Change-IsMatched S) (IsQuiet-Inv s quiet)
