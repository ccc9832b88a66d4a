-- ===== src/Agent/Signals/Backoff.antt =====
-- The doubling of signalBackoffTTL (cmd/agent/main.go).
use k8s_ai_remediator.Prelude.{
  ◌≡◌, refl, arith, ℕ, zero, suc, ◌*◌, ◌-◌, ◌^◌, ◌≤◌, ◌<◌, min, pos, ap, ◌∙◌,
}
use k8s_ai_remediator.Agent.Signals.{backoff_factor, wrap_int64, signal_backoff_ttl}

saturated : (rounds f : ℕ) → 8 ≤ f → backoff_factor rounds f ≡ f
unfolding backoff_factor
saturated zero f h = refl
saturated (suc rounds) f h = ground (arith, h)

one_le-pow : (n : ℕ) → 1 ≤ 2 ^ n
one_le-pow zero = omega arith
one_le-pow (suc n) = omega (arith, one_le-pow n)

-- The doubling loop computes min(8, 2^rounds).
backoff_factor-min : (rounds : ℕ) → backoff_factor rounds 1 ≡ min 8 (2 ^ rounds)
unfolding backoff_factor
backoff_factor-min zero = refl
backoff_factor-min (suc zero) = refl
backoff_factor-min (suc (suc zero)) = refl
backoff_factor-min (suc (suc (suc r))) = saturated r 8 (omega arith) ∙ omega (arith, one_le-pow r)

mul_le-eightfold : (b f : ℕ) → f ≤ 8 → b * f ≤ b * 8
mul_le-eightfold zero f h = omega arith
mul_le-eightfold (suc b) f h = omega (arith, mul_le-eightfold b f h)

within_int64 : (n : ℕ) → n < 2 ^ 63 → wrap_int64 n ≡ pos n
unfolding wrap_int64
within_int64 n h = ground arith

-- The window after any number of attempts is the base times min(8, 2^(attempts - 1)), with no
-- doubling for zero attempts or one, for a base whose eightfold is an int64.
pub signal_backoff_ttl-min :
    (base attempts : ℕ)
    → base * 8 < 2 ^ 63
    → signal_backoff_ttl base attempts ≡ pos (base * min 8 (2 ^ (attempts - 1)))
unfolding signal_backoff_ttl
signal_backoff_ttl-min base attempts small =
    ap (λ f. wrap_int64 (base * f)) (backoff_factor-min (attempts - 1))
    ∙ within_int64 _
        (omega (arith, mul_le-eightfold base (min 8 (2 ^ (attempts - 1))) (omega arith)))
