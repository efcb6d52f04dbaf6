-- ===== src/Outbox/Backoff.antt =====
-- The delays between attempts, of the publisher and of the retry loop.
use native.Mathlib.Nat.{pow-le-pow_right}
use shopback_cashback_ledger.Prelude.{
  ℕ, zero, suc, ◌*◌, ◌^◌, ◌≤◌, ◌≡◌, refl, leb, arith, if◌then◌else◌,
}
use shopback_cashback_ledger.Outbox.{backoff_ms}

-- 2 ^ n is at least 32 from n = 5 on.
power_large : (n : ℕ) → 32 ≤ 2 ^ suc (suc (suc (suc (suc n))))
power_large n =
    pow-le-pow_right {n = 2} (omega arith) {i = 5} {j = suc (suc (suc (suc (suc n))))} (omega arith)

-- The delay after `n` attempts is 1000 * 2 ^ n milliseconds for `n` up to 4, and 30000 from 5 on.
pub backoff_ms_lem : (n : ℕ) → backoff_ms n ≡ (if leb n 4 then 1000 * 2 ^ n else 30000)
unfolding backoff_ms
backoff_ms_lem zero = refl
backoff_ms_lem (suc zero) = refl
backoff_ms_lem (suc (suc zero)) = refl
backoff_ms_lem (suc (suc (suc zero))) = refl
backoff_ms_lem (suc (suc (suc (suc zero)))) = refl
backoff_ms_lem (suc (suc (suc (suc (suc n))))) = ground (arith, power_large n)
