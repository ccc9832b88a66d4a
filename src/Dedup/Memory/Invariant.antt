-- ===== src/Dedup/Memory/Invariant.antt =====
-- The distinct keys of the maps of a MemoryStore (internal/dedup/dedup.go).
use k8s_ai_remediator.Prelude.{ℕ, Option, none, some, Bytes, lookup}
use k8s_ai_remediator.Dedup.Memory.{
  MemoryStore, new_memory_store, record_seen, mark_seen, mark_signal, incr_attempt, evict,
}
use k8s_ai_remediator.Retain.{IsDistinct, insert-IsDistinct, retain-IsDistinct}

pub record IsWellFormed (m : MemoryStore) : Type 0 where
  pub seen : IsDistinct m.seen
  pub signals : IsDistinct m.signal_expiry
  pub attempt_entries : IsDistinct m.attempt_entries

pub new_memory_store-IsWellFormed : IsWellFormed new_memory_store
unfolding new_memory_store
new_memory_store-IsWellFormed = record { seen = tt; signals = tt; attempt_entries = tt }

record_seen-IsWellFormed :
    (o : Option ℕ) (key : Bytes) (now : ℕ) (m : MemoryStore)
    → IsWellFormed m
    → IsWellFormed (record_seen o key now m).0
unfolding record_seen
record_seen-IsWellFormed (some at) key now m h = h
record_seen-IsWellFormed none key now m h = record {
  seen = insert-IsDistinct key now m.seen h.seen;
  signals = h.signals;
  attempt_entries = h.attempt_entries;
}

module _ (key : Bytes) (now ttl : ℕ) (m : MemoryStore) (h : IsWellFormed m) where
  pub mark_seen-IsWellFormed : IsWellFormed (mark_seen key now ttl m).0
  unfolding mark_seen
  mark_seen-IsWellFormed = record_seen-IsWellFormed (lookup key m.seen) key now m h

  pub mark_signal-IsWellFormed : IsWellFormed (mark_signal key now ttl m)
  unfolding mark_signal
  mark_signal-IsWellFormed = record {
    seen = h.seen;
    signals = insert-IsDistinct key _ m.signal_expiry h.signals;
    attempt_entries = h.attempt_entries;
  }

  pub incr_attempt-IsWellFormed : IsWellFormed (incr_attempt key now ttl m).0
  unfolding incr_attempt
  incr_attempt-IsWellFormed = record {
    seen = h.seen;
    signals = h.signals;
    attempt_entries = insert-IsDistinct key _ m.attempt_entries h.attempt_entries;
  }

pub evict-IsWellFormed :
    (now signal_ttl seen_ttl : ℕ) (m : MemoryStore)
    → IsWellFormed m
    → IsWellFormed (evict now signal_ttl seen_ttl m)
unfolding evict
evict-IsWellFormed now signal_ttl seen_ttl m h = record {
  seen = retain-IsDistinct _ m.seen h.seen;
  signals = retain-IsDistinct _ m.signal_expiry h.signals;
  attempt_entries = retain-IsDistinct _ m.attempt_entries h.attempt_entries;
}
