-- ===== src/Dedup/Memory.antt =====
-- MemoryStore of internal/dedup/dedup.go. The mutex makes each method one step.
pub mod Invariant
pub mod Windows
pub mod Frame
pub mod Eviction
use k8s_ai_remediator.Prelude.{
  ℕ, suc, ◌+◌, ◌-◌, Bool, true, false, not, Option, none, some, [], Bytes, Map, lookup, insert, ltb,
  if◌then◌else◌,
}
use k8s_ai_remediator.Dedup.{Store}
use k8s_ai_remediator.Retain.{retain}

pub record AttemptEntry : Type 0 where
  pub count : ℕ
  pub expires : ℕ

pub record MemoryStore : Type 0 where
  pub seen : Map ℕ
  pub signal_expiry : Map ℕ
  pub attempt_entries : Map AttemptEntry

unfoldable pub new_memory_store : MemoryStore
new_memory_store = record { seen = []; signal_expiry = []; attempt_entries = [] }

record_seen : Option ℕ → Bytes → ℕ → MemoryStore → MemoryStore × Bool
record_seen (some at) key now m = (m, false)
record_seen none key now m = (record m { seen = insert key now m.seen }, true)

unfoldable pub mark_seen : Bytes → ℕ → ℕ → MemoryStore → MemoryStore × Bool
unfolding record_seen
mark_seen key now ttl m = record_seen (lookup key m.seen) key now m

abbrev before : ℕ → Option ℕ → Bool
before now none = false
before now (some expiry) = ltb now expiry

unfoldable pub is_signal_fresh : Bytes → ℕ → ℕ → MemoryStore → Bool
is_signal_fresh signal now ttl m = before now (lookup signal m.signal_expiry)

unfoldable pub mark_signal : Bytes → ℕ → ℕ → MemoryStore → MemoryStore
mark_signal signal now ttl m = record m {
  signal_expiry = insert signal (now + ttl) m.signal_expiry;
}

abbrev pub counted : ℕ → Option AttemptEntry → ℕ
counted now none = 0
counted now (some e) = if ltb e.expires now then 0 else e.count

unfoldable pub attempts : Bytes → ℕ → MemoryStore → ℕ
attempts signal now m = counted now (lookup signal m.attempt_entries)

-- an absent or expired entry starts again at zero
unfoldable pub incr_attempt : Bytes → ℕ → ℕ → MemoryStore → MemoryStore × ℕ
incr_attempt signal now window m =
    let count = suc (counted now (lookup signal m.attempt_entries)) in
    let entry : AttemptEntry = record { count = count; expires = now + window } in
    (record m { attempt_entries = insert signal entry m.attempt_entries }, count)

-- the three loops over the maps, each with a `delete`
unfoldable pub evict : ℕ → ℕ → ℕ → MemoryStore → MemoryStore
evict now signal_ttl seen_ttl m = record {
  seen = retain (λ at. ltb (now - at) seen_ttl) m.seen;
  signal_expiry = retain (λ expiry. ltb now expiry) m.signal_expiry;
  attempt_entries = retain (λ e. not (ltb e.expires now)) m.attempt_entries;
}

-- a MemoryStore behind the interface of the poll loop
abbrev pub memory_store : Store
memory_store = record {
  State = MemoryStore;
  mark_seen = mark_seen;
  is_signal_fresh = λ signal now ttl m. (m, is_signal_fresh signal now ttl m);
  mark_signal = mark_signal;
  attempts = λ signal now m. (m, attempts signal now m);
  incr_attempt = incr_attempt;
  evict = evict;
}
