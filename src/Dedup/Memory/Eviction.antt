-- ===== src/Dedup/Memory/Eviction.antt =====
-- Evict of internal/dedup/dedup.go and the answers of the readers from then on.
use mathlib.Core.Path.{ap₂}
use k8s_ai_remediator.Prelude.{
  ℕ, suc, ◌≤◌, ◌≡◌, refl, sym, ap, ◌∙◌, true, false, not, Bool, arith, Bytes, ltb, if◌then◌else◌,
  List, [], ◌∷◌,
}
use k8s_ai_remediator.Dedup.Memory.{
  MemoryStore, is_signal_fresh, mark_signal, attempts, incr_attempt, evict,
}
use k8s_ai_remediator.Retain.{lookup-retain}
use k8s_ai_remediator.Dedup.Memory.Invariant.{
  IsWellFormed, mark_signal-IsWellFormed, incr_attempt-IsWellFormed, evict-IsWellFormed,
}
use k8s_ai_remediator.Dedup.Memory.Windows.{is_signal_fresh-mark_signal, attempts-incr_attempt}

-- two stores that answer every reader of signals and attempts alike from `now` on
pub record SameFrom (now : ℕ) (m n : MemoryStore) : Type 0 where
  pub signals :
      (k : Bytes) (t ttl : ℕ) → now ≤ t → is_signal_fresh k t ttl m ≡ is_signal_fresh k t ttl n
  pub counts : (k : Bytes) (t : ℕ) → now ≤ t → attempts k t m ≡ attempts k t n

pub evict-SameFrom :
    (now signal_ttl seen_ttl : ℕ) (m : MemoryStore)
    → IsWellFormed m
    → SameFrom now (evict now signal_ttl seen_ttl m) m
unfolding evict is_signal_fresh attempts
evict-SameFrom now signal_ttl seen_ttl m h = record {
  signals = λ k t ttl le.
      ground (arith, lookup-retain (λ expiry. ltb now expiry) k m.signal_expiry h.signals);
  counts = λ k t le.
      ground
        (arith, lookup-retain (λ e. not (ltb e.expires now)) k m.attempt_entries h.attempt_entries);
}

pub mark_signal-SameFrom :
    (now t : ℕ) (k : Bytes) (ttl : ℕ) (m n : MemoryStore)
    → SameFrom now m n
    → now ≤ t
    → SameFrom t (mark_signal k t ttl m) (mark_signal k t ttl n)
mark_signal-SameFrom now t k ttl m n h le = record {
  signals = λ j u ttl' later. ground (
    arith,
    is_signal_fresh-mark_signal k j t u ttl ttl' m,
    is_signal_fresh-mark_signal k j t u ttl ttl' n,
    h.signals j u ttl',
  );
  counts = λ j u later. unfold mark_signal attempts in h.counts j u (omega arith);
}

pub incr_attempt-SameFrom :
    (now t : ℕ) (k : Bytes) (window : ℕ) (m n : MemoryStore)
    → SameFrom now m n
    → now ≤ t
    → SameFrom t (incr_attempt k t window m).0 (incr_attempt k t window n).0
incr_attempt-SameFrom now t k window m n h le = record {
  signals = λ j u ttl later. unfold incr_attempt is_signal_fresh in h.signals j u ttl (omega arith);
  counts = λ j u later. ground (
    arith,
    (attempts-incr_attempt k j t u window m).1,
    (attempts-incr_attempt k j t u window n).1,
    h.counts j u,
    h.counts k t,
  );
}

SameFrom-later : (now t : ℕ) (m n : MemoryStore) → SameFrom now m n → now ≤ t → SameFrom t m n
SameFrom-later now t m n h le = record {
  signals = λ j u ttl later. h.signals j u ttl (omega arith);
  counts = λ j u later. h.counts j u (omega arith);
}

SameFrom-trans :
    {now : ℕ} {m n p : MemoryStore} → SameFrom now m n → SameFrom now n p → SameFrom now m p
SameFrom-trans h k = record {
  signals = λ j u ttl later. h.signals j u ttl later ∙ k.signals j u ttl later;
  counts = λ j u later. h.counts j u later ∙ k.counts j u later;
}

-- a call of the poll loop, and what it learns
pub data Request : Type 0 where
  fresh : Bytes → ℕ → Request
  mark : Bytes → ℕ → Request
  count : Bytes → Request
  increment : Bytes → ℕ → Request

pub data Reply : Type 0 where
  silent : Reply
  flag : Bool → Reply
  number : ℕ → Reply

unfoldable pub serve : ℕ → Request → MemoryStore → MemoryStore × Reply
serve now (fresh k ttl) m = (m, flag (is_signal_fresh k now ttl m))
serve now (mark k ttl) m = (mark_signal k now ttl m, silent)
serve now (count k) m = (m, number (attempts k now m))
serve now (increment k window) m = let (m', n) = incr_attempt k now window m in (m', number n)

-- the replies to a sequence of timed requests, with an eviction before those that are so marked
unfoldable pub replies : ℕ → ℕ → List (Bool × ℕ × Request) → MemoryStore → List Reply
unfolding serve
replies signal_ttl seen_ttl [] m = []
replies signal_ttl seen_ttl ((evicts, now, r) ∷ rest) m =
    let m' = if evicts then evict now signal_ttl seen_ttl m else m in
    (serve now r m').1 ∷ replies signal_ttl seen_ttl rest (serve now r m').0

abbrev pub plain : List (Bool × ℕ × Request) → List (Bool × ℕ × Request)
plain [] = []
plain ((evicts, now, r) ∷ rest) = (false, now, r) ∷ plain rest

-- the clock does not go back
abbrev pub IsTimed : ℕ → List (Bool × ℕ × Request) → Type 0
IsTimed now [] = Unit
IsTimed now ((evicts, t, r) ∷ rest) = (now ≤ t) × IsTimed t rest

serve-SameFrom :
    (t : ℕ) (r : Request) (m n : MemoryStore)
    → SameFrom t m n
    → SameFrom t (serve t r m).0 (serve t r n).0
unfolding serve
serve-SameFrom t (fresh k ttl) m n h = h
serve-SameFrom t (mark k ttl) m n h = mark_signal-SameFrom t t k ttl m n h (omega arith)
serve-SameFrom t (count k) m n h = h
serve-SameFrom t (increment k w) m n h = incr_attempt-SameFrom t t k w m n h (omega arith)

serve_reply :
    (t : ℕ) (r : Request) (m n : MemoryStore) → SameFrom t m n → (serve t r m).1 ≡ (serve t r n).1
unfolding serve
serve_reply t (fresh k ttl) m n h = ap flag (h.signals k t ttl (omega arith))
serve_reply t (mark k ttl) m n h = refl
serve_reply t (count k) m n h = ap number (h.counts k t (omega arith))
serve_reply t (increment k w) m n h = ap number (
    (attempts-incr_attempt k k t t w m).0
    ∙ (ap suc (h.counts k t (omega arith)) ∙ sym (attempts-incr_attempt k k t t w n).0))

serve-IsWellFormed :
    (t : ℕ) (r : Request) (m : MemoryStore) → IsWellFormed m → IsWellFormed (serve t r m).0
unfolding serve
serve-IsWellFormed t (fresh k ttl) m h = h
serve-IsWellFormed t (mark k ttl) m h = mark_signal-IsWellFormed k t ttl m h
serve-IsWellFormed t (count k) m h = h
serve-IsWellFormed t (increment k w) m h = incr_attempt-IsWellFormed k t w m h

module _ (signal_ttl seen_ttl : ℕ) where
  swept : Bool → ℕ → MemoryStore → MemoryStore
  swept evicts now m = if evicts then evict now signal_ttl seen_ttl m else m

  swept-IsWellFormed :
      (evicts : Bool) (t : ℕ) (m : MemoryStore) → IsWellFormed m → IsWellFormed (swept evicts t m)
  unfolding swept
  swept-IsWellFormed true t m h = evict-IsWellFormed t signal_ttl seen_ttl m h
  swept-IsWellFormed false t m h = h

  swept-SameFrom :
      (evicts : Bool) (t : ℕ) (m : MemoryStore) → IsWellFormed m → SameFrom t (swept evicts t m) m
  unfolding swept
  swept-SameFrom true t m h = evict-SameFrom t signal_ttl seen_ttl m h
  swept-SameFrom false t m h = record { signals = λ j u ttl l. refl; counts = λ j u l. refl }

  replies_same :
      (now : ℕ) (rs : List (Bool × ℕ × Request)) (m n : MemoryStore)
      → IsTimed now rs
      → IsWellFormed m
      → SameFrom now m n
      → replies signal_ttl seen_ttl rs m ≡ replies signal_ttl seen_ttl (plain rs) n
  unfolding replies swept
  replies_same now [] m n timed wf same = refl
  replies_same now ((e, t, r) ∷ rest) m n timed wf same =
      let at_t = SameFrom-trans (swept-SameFrom e t m wf) (SameFrom-later now t m n same timed.0) in
      ap₂ (λ x xs. x ∷ xs) (serve_reply t r (swept e t m) n at_t)
        (replies_same t rest (serve t r (swept e t m)).0 (serve t r n).0 timed.1
          (serve-IsWellFormed t r (swept e t m) (swept-IsWellFormed e t m wf))
          (serve-SameFrom t r (swept e t m) n at_t))

-- In a store whose maps have distinct keys, however often the poll loop evicts, with any windows,
-- every freshness check, attempt count and increment is answered as if nothing had ever been
-- evicted, as long as the clock does not go back.
pub replies-evict :
    (signal_ttl seen_ttl now : ℕ) (rs : List (Bool × ℕ × Request)) (m : MemoryStore)
    → IsTimed now rs
    → IsWellFormed m
    → replies signal_ttl seen_ttl rs m ≡ replies signal_ttl seen_ttl (plain rs) m
replies-evict signal_ttl seen_ttl now rs m timed wf =
    replies_same signal_ttl seen_ttl now rs m m timed wf
      (record { signals = λ j u ttl l. refl; counts = λ j u l. refl })
