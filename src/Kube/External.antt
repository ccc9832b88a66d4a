-- ===== src/Kube/External.antt =====
-- What internal/kube takes from k8s.io/apimachinery and k8s.io/client-go besides the API calls.
use k8s_ai_remediator.Prelude.{
  ℕ, zero, suc, ◌*◌, ◌^◌, ◌≡◌, Bytes, ℤ, pos, Option, none, some, if◌then◌else◌,
}
use k8s_ai_remediator.Result.{Error, Result, is_conflict}
use k8s_ai_remediator.Cluster.{Quantity}
use k8s_ai_remediator.Effects.{Prog, ret, ◌>>=◌}

-- resource.ParseQuantity, Quantity.Value, the Set method on a quantity, and retry.RetryOnConflict
-- with retry.DefaultRetry
pub record External : Type 0 where
  pub parse_quantity : Bytes → Result Quantity
  pub quantity_value : Quantity → ℤ
  pub quantity_set : Quantity → ℤ → Quantity
  pub retry_on_conflict : Prog (Option Error) → Prog (Option Error)

abbrev pub again : Option Error → Prog (Option Error) → Prog (Option Error)
again none next = ret none
again (some e) next = if is_conflict e then next else ret (some e)

-- Another attempt is made after a conflict, and after nothing else, at most `n` times.
abbrev pub attempts : ℕ → Prog (Option Error) → Prog (Option Error)
attempts zero m = m
attempts (suc n) m = do e ← m; again e (attempts n m)

-- The documented behaviour of the retry loop: some bounded number of further attempts.
pub record RetryLaw (x : External) : Type 0 where
  pub bounded : (m : Prog (Option Error)) → (n : ℕ) × (x.retry_on_conflict m ≡ attempts n m)

-- The documented behaviour of Set: the quantity becomes the given whole number.
pub record QuantityLaw (x : External) : Type 0 where
  pub amount-set : (q : Quantity) (n : ℕ) → (x.quantity_set q (pos n)).amount ≡ pos (n * 10 ^ 9)
