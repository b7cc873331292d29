-- ===== src/Outbox/Backoff.antt =====
-- The delays between retries (writer.go, Backoff).
use Prim.Native.Nat.{min}
use native.Mathlib.Nat.{pow-suc}
use ykt_aisaas.Base.{ℕ, zero, suc, ◌*◌, ◌^◌, ◌≤◌, ◌≡◌, refl, arith, pos, negsuc}
use ykt_aisaas.Outbox.{backoff, second}

pow_large : (n : ℕ) → 64 ≤ 2 ^ (suc (suc (suc (suc (suc (suc n))))))
pow_large zero = omega arith
pow_large (suc n) = omega (arith, pow-suc 2 (suc (suc (suc (suc (suc (suc n)))))), pow_large n)

-- The delay doubles from one second on, up to sixty: after `n` failures it is the smaller of 2^n and
-- 60 seconds.
pub backoff_exact : (n : ℕ) → backoff (pos n) ≡ min (2 ^ n) 60 * second
unfolding backoff
backoff_exact zero = refl
backoff_exact (suc zero) = refl
backoff_exact (suc (suc zero)) = refl
backoff_exact (suc (suc (suc zero))) = refl
backoff_exact (suc (suc (suc (suc zero)))) = refl
backoff_exact (suc (suc (suc (suc (suc zero))))) = refl
backoff_exact (suc (suc (suc (suc (suc (suc zero)))))) = refl
backoff_exact (suc (suc (suc (suc (suc (suc (suc n))))))) = ground (arith, pow_large (suc n))

-- A negative count waits one second.
backoff_negative : (n : ℕ) → backoff (negsuc n) ≡ second
unfolding backoff
backoff_negative n = refl
