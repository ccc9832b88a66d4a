-- ===== src/Dedup/Memory/Windows.antt =====
-- The writes of a MemoryStore and the answers of its readers (internal/dedup/dedup.go).
use k8s_ai_remediator.Prelude.{
  ℕ, suc, ◌+◌, ◌-◌, ◌≡◌, refl, true, false, arith, Bytes, eqb, eqb_self, eqb_iff, ltb, leb,
  lookup-insert, if◌then◌else◌,
}
use k8s_ai_remediator.Dedup.Memory.{
  MemoryStore, mark_seen, is_signal_fresh, mark_signal, attempts, incr_attempt, evict,
}
use k8s_ai_remediator.Retain.{lookup-retain}
use k8s_ai_remediator.Dedup.Memory.Invariant.{IsWellFormed, mark_seen-IsWellFormed}

-- Once a key has been marked as seen, a second mark of it is refused, and a mark of any other key is answered as before.
pub mark_seen-mark_seen :
    (k j : Bytes) (t u ttl ttl' : ℕ) (m : MemoryStore)
    → (mark_seen j u ttl' (mark_seen k t ttl m).0).1
      ≡ (if eqb k j then false else (mark_seen j u ttl' m).1)
unfolding mark_seen
mark_seen-mark_seen k j t u ttl ttl' m = ground (arith, lookup-insert k j t m.seen, eqb_iff k j)

-- After a signal is marked at `t` with a window `ttl`, it is fresh at `u` exactly while u < t + ttl, whatever window the reader passes; the other signals are answered as before.
pub is_signal_fresh-mark_signal :
    (k j : Bytes) (t u ttl ttl' : ℕ) (m : MemoryStore)
    → is_signal_fresh j u ttl' (mark_signal k t ttl m)
      ≡ (if eqb k j then ltb u (t + ttl) else is_signal_fresh j u ttl' m)
unfolding is_signal_fresh mark_signal
is_signal_fresh-mark_signal k j t u ttl ttl' m =
    ground (arith, lookup-insert k j (t + ttl) m.signal_expiry)

-- An increment at `t` returns one more than the count that a reader saw at `t`; the counter keeps that value until t + window inclusive and reads 0 afterwards, and the other counters are answered as before.
pub attempts-incr_attempt :
    (k j : Bytes) (t u window : ℕ) (m : MemoryStore)
    → ((incr_attempt k t window m).1 ≡ suc (attempts k t m))
      × (attempts j u (incr_attempt k t window m).0 ≡ (
          if eqb k j
          then (if leb u (t + window) then suc (attempts k t m) else 0)
          else attempts j u m))
unfolding attempts incr_attempt
attempts-incr_attempt k j t u window m = (
  refl,
  ground (
    arith,
    lookup-insert k j (record { count = suc (attempts k t m); expires = t + window })
        m.attempt_entries,
  ),
)

-- In a well-formed store a key that was newly marked at `t` can be marked again after an eviction at `u` exactly if the seen window has passed, u - t ≥ seen_ttl.
pub mark_seen-evict :
    (k : Bytes) (t u v ttl signal_ttl seen_ttl : ℕ) (m : MemoryStore)
    → IsWellFormed m
    → (mark_seen k t ttl m).1 ≡ true
    → (mark_seen k v ttl (evict u signal_ttl seen_ttl (mark_seen k t ttl m).0)).1
      ≡ leb seen_ttl (u - t)
unfolding mark_seen evict
mark_seen-evict k t u v ttl signal_ttl seen_ttl m h fresh = ground (
  arith,
  lookup-retain (λ at. ltb (u - at) seen_ttl) k (mark_seen k t ttl m).0.seen
      (mark_seen-IsWellFormed k t ttl m h).seen,
  lookup-insert k k t m.seen,
  eqb_self k,
)
