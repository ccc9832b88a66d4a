-- ===== src/Dedup/Memory/Frame.antt =====
-- The maps that MarkSeen of a MemoryStore reads and leaves (internal/dedup/dedup.go).
use k8s_ai_remediator.Prelude.{ℕ, Option, none, some, Bytes, ◌≡◌, refl, lookup, ap, ◌∙◌}
use k8s_ai_remediator.Dedup.Memory.{MemoryStore, mark_seen, record_seen, is_signal_fresh, attempts}

signals_of_record_seen :
    (o : Option ℕ) (k j : Bytes) (t u ttl : ℕ) (m : MemoryStore)
    → is_signal_fresh j u ttl (record_seen o k t m).0 ≡ is_signal_fresh j u ttl m
unfolding record_seen is_signal_fresh
signals_of_record_seen none k j t u ttl m = refl
signals_of_record_seen (some at) k j t u ttl m = refl

attempts_of_record_seen :
    (o : Option ℕ) (k j : Bytes) (t u : ℕ) (m : MemoryStore)
    → attempts j u (record_seen o k t m).0 ≡ attempts j u m
unfolding record_seen attempts
attempts_of_record_seen none k j t u m = refl
attempts_of_record_seen (some at) k j t u m = refl

pub is_signal_fresh-mark_seen :
    (k j : Bytes) (t u ttl ttl' : ℕ) (m : MemoryStore)
    → is_signal_fresh j u ttl' (mark_seen k t ttl m).0 ≡ is_signal_fresh j u ttl' m
unfolding mark_seen
is_signal_fresh-mark_seen k j t u ttl ttl' m =
    signals_of_record_seen (lookup k m.seen) k j t u ttl' m

pub attempts-mark_seen :
    (k j : Bytes) (t u ttl : ℕ) (m : MemoryStore)
    → attempts j u (mark_seen k t ttl m).0 ≡ attempts j u m
unfolding mark_seen
attempts-mark_seen k j t u ttl m = attempts_of_record_seen (lookup k m.seen) k j t u m

-- the answer depends on the seen keys alone
answer_of_record_seen :
    (o : Option ℕ) (k : Bytes) (t : ℕ) (m m' : MemoryStore)
    → (record_seen o k t m).1 ≡ (record_seen o k t m').1
unfolding record_seen
answer_of_record_seen none k t m m' = refl
answer_of_record_seen (some at) k t m m' = refl

pub mark_seen-seen :
    (k : Bytes) (t ttl : ℕ) (m m' : MemoryStore)
    → m.seen ≡ m'.seen
    → (mark_seen k t ttl m).1 ≡ (mark_seen k t ttl m').1
unfolding mark_seen
mark_seen-seen k t ttl m m' same =
    answer_of_record_seen (lookup k m.seen) k t m m'
    ∙ ap (λ seen. (record_seen (lookup k seen) k t m').1) same
