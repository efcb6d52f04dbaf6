-- ===== src/Effect.antt =====
-- Code that awaits external calls and may throw: the state comes back beside the error too.
use shopback_cashback_ledger.Prelude.{Option, none, some}
use shopback_cashback_ledger.Errors.{Error}

pub data Result (A : Type 0) : Type 0 where
  ok : A → Result A
  err : Error → Result A

abbrev pub Effect : Type 0 → Type 0 → Type 0
Effect W A = W → Result A × W

module _ {W A : Type 0} where
  unfoldable pub pure : A → Effect W A
  pure a w = (ok a, w)

  unfoldable pub raise : Error → Effect W A
  raise e w = (err e, w)

  unfoldable pub handle : Result A → (Error → Effect W A) → Effect W A
  handle (ok a) h w = (ok a, w)
  handle (err e) h w = h e w

  -- `try { m } catch (e) { h(e) }`
  unfoldable pub catch : Effect W A → (Error → Effect W A) → Effect W A
  unfolding handle pure raise
  catch m h w = let (r, w') = m w in handle r h w'

module _ {W A B : Type 0} where
  unfoldable pub continue : Result A → (A → Effect W B) → Effect W B
  continue (ok a) f w = f a w
  continue (err e) f w = (err e, w)

  infixl 5 ◌>>=◌ ◌>>◌
  unfoldable pub ◌>>=◌ : Effect W A → (A → Effect W B) → Effect W B
  unfolding continue pure raise
  ◌>>=◌ m f w = let (r, w') = m w in continue r f w'

  abbrev pub ◌>>◌ : Effect W A → Effect W B → Effect W B
  m >> n = m >>= λ _. n

module _ {W A : Type 0} where
  -- `if (o) return o; else rest`
  unfoldable pub or_else : Option A → Effect W A → Effect W A
  unfolding pure
  or_else none rest = rest
  or_else (some a) rest = pure a

module _ {A : Type 0} where
  unfoldable pub after_final : Result A → Result (Unit {0}) → Result A
  after_final r (ok done) = r
  after_final r (err e) = err e

module _ {W A : Type 0} where
  unfoldable pub conclude : Result A → Effect W (Unit {0}) → Effect W A
  unfolding after_final
  conclude r f w = let (end, w') = f w in (after_final r end, w')

  -- `try { m } finally { f }`
  unfoldable pub finally : Effect W A → Effect W (Unit {0}) → Effect W A
  unfolding conclude
  finally m f w = let (r, w') = m w in conclude r f w'
