-- ===== src/Dedup/Contract.antt =====
-- What the poll loop relies on of a store of internal/dedup, and MemoryStore.
use k8s_ai_remediator.Prelude.{
  ℕ, suc, ◌+◌, ◌*◌, ◌^◌, ◌≤◌, ◌<◌, ◌≡◌, refl, true, false, arith, Bytes, eqb, eqb_self, ltb,
  if◌then◌else◌, ◌∙◌,
}
use k8s_ai_remediator.Dedup.{Store}
use k8s_ai_remediator.Dedup.Memory
use k8s_ai_remediator.Dedup.Memory.{memory_store}
use k8s_ai_remediator.Dedup.Memory.Windows.{
  mark_seen-mark_seen, is_signal_fresh-mark_signal, attempts-incr_attempt,
}
use k8s_ai_remediator.Dedup.Memory.Frame.{
  is_signal_fresh-mark_seen, attempts-mark_seen, mark_seen-seen,
}

-- A window of whole seconds, and not of 0, which is no expiry to SET of a Redis server.
pub record IsWindow (window : ℕ) : Type 0 where
  pub seconds : ℕ
  pub positive : 1 ≤ seconds
  pub length : window ≡ seconds * 10 ^ 9

-- Each reader after each writer. On the last instant of an attempt's window nothing is said.
pub record StoreLaw (store : Store) : Type 0 where
  pub fresh-mark_signal :
      (k j : Bytes) (t u ttl ttl' : ℕ) (s : store.State)
      → IsWindow ttl
      → (store.is_signal_fresh j u ttl' (store.mark_signal k t ttl s)).1
        ≡ (if eqb k j then ltb u (t + ttl) else (store.is_signal_fresh j u ttl' s).1)
  pub fresh-mark_seen :
      (k j : Bytes) (t u ttl ttl' : ℕ) (s : store.State)
      → IsWindow ttl
      → (store.is_signal_fresh j u ttl' (store.mark_seen k t ttl s).0).1
        ≡ (store.is_signal_fresh j u ttl' s).1
  pub fresh-incr_attempt :
      (k j : Bytes) (t u window ttl : ℕ) (s : store.State)
      → (store.is_signal_fresh j u ttl (store.incr_attempt k t window s).0).1
        ≡ (store.is_signal_fresh j u ttl s).1
  pub seen_again :
      (k : Bytes) (t u ttl ttl' : ℕ) (s : store.State)
      → IsWindow ttl
      → (store.mark_seen k t ttl s).1 ≡ true
      → u < t + ttl
      → (store.mark_seen k u ttl' (store.mark_seen k t ttl s).0).1 ≡ false
  pub seen_other :
      (k j : Bytes) (t u ttl ttl' : ℕ) (s : store.State)
      → IsWindow ttl
      → eqb k j ≡ false
      → (store.mark_seen j u ttl' (store.mark_seen k t ttl s).0).1 ≡ (store.mark_seen j u ttl' s).1
  pub seen-mark_signal :
      (k j : Bytes) (t u ttl ttl' : ℕ) (s : store.State)
      → IsWindow ttl
      → (store.mark_seen j u ttl' (store.mark_signal k t ttl s)).1 ≡ (store.mark_seen j u ttl' s).1
  pub seen-incr_attempt :
      (k j : Bytes) (t u window ttl : ℕ) (s : store.State)
      → (store.mark_seen j u ttl (store.incr_attempt k t window s).0).1
        ≡ (store.mark_seen j u ttl s).1
  pub counted :
      (k : Bytes) (t window : ℕ) (s : store.State)
      → (store.incr_attempt k t window s).1 ≡ suc (store.attempts k t s).1
  pub attempts_within :
      (k j : Bytes) (t u window : ℕ) (s : store.State)
      → IsWindow window
      → u < t + window
      → (store.attempts j u (store.incr_attempt k t window s).0).1
        ≡ (if eqb k j then suc (store.attempts k t s).1 else (store.attempts j u s).1)
  pub attempts_after :
      (k j : Bytes) (t u window : ℕ) (s : store.State)
      → IsWindow window
      → t + window < u
      → (store.attempts j u (store.incr_attempt k t window s).0).1
        ≡ (if eqb k j then 0 else (store.attempts j u s).1)
  pub attempts-mark_signal :
      (k j : Bytes) (t u ttl : ℕ) (s : store.State)
      → (store.attempts j u (store.mark_signal k t ttl s)).1 ≡ (store.attempts j u s).1
  pub attempts-mark_seen :
      (k j : Bytes) (t u ttl : ℕ) (s : store.State)
      → (store.attempts j u (store.mark_seen k t ttl s).0).1 ≡ (store.attempts j u s).1

-- MemoryStore keeps the contract.
pub memory_store-StoreLaw : StoreLaw memory_store
unfolding Memory.mark_seen Memory.is_signal_fresh Memory.mark_signal Memory.attempts
    Memory.incr_attempt
memory_store-StoreLaw = record {
  fresh-mark_signal = λ k j t u ttl ttl' s w. is_signal_fresh-mark_signal k j t u ttl ttl' s;
  fresh-mark_seen = λ k j t u ttl ttl' s w. is_signal_fresh-mark_seen k j t u ttl ttl' s;
  fresh-incr_attempt = λ k j t u window ttl s. refl;
  seen_again = λ k t u ttl ttl' s w fresh within.
      mark_seen-mark_seen k k t u ttl ttl' s ∙ ground (arith, eqb_self k);
  seen_other =
      λ k j t u ttl ttl' s w other. mark_seen-mark_seen k j t u ttl ttl' s ∙ ground (arith, other);
  seen-mark_signal =
      λ k j t u ttl ttl' s w. mark_seen-seen j u ttl' (Memory.mark_signal k t ttl s) s refl;
  seen-incr_attempt =
      λ k j t u window ttl s. mark_seen-seen j u ttl (Memory.incr_attempt k t window s).0 s refl;
  counted = λ k t window s. refl;
  attempts_within =
      λ k j t u window s w within. (attempts-incr_attempt k j t u window s).1 ∙ ground arith;
  attempts_after =
      λ k j t u window s w over. (attempts-incr_attempt k j t u window s).1 ∙ ground arith;
  attempts-mark_signal = λ k j t u ttl s. refl;
  attempts-mark_seen = attempts-mark_seen;
}
