-- ===== src/Dedup.antt =====
-- internal/dedup: the contract of a store. Times are nanoseconds, and a window is not negative.
-- Every operation takes the state and gives the new one, so that a store behind a network fits too.
pub mod Memory
pub mod Contract
pub mod Redis
use k8s_ai_remediator.Prelude.{ℕ, Bytes, Bool}

pub record Store : Type 1 where
  pub State : Type 0
  pub mark_seen : Bytes → ℕ → ℕ → State → State × Bool
  pub is_signal_fresh : Bytes → ℕ → ℕ → State → State × Bool
  pub mark_signal : Bytes → ℕ → ℕ → State → State
  pub attempts : Bytes → ℕ → State → State × ℕ
  pub incr_attempt : Bytes → ℕ → ℕ → State → State × ℕ
  pub evict : ℕ → ℕ → ℕ → State → State
