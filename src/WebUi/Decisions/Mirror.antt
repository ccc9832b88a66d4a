-- ===== src/WebUi/Decisions/Mirror.antt =====
-- The mirror in Redis against the history of all decisions (internal/webui/decisions.go).
use k8s_ai_remediator.Prelude.{
  ℕ, zero, suc, ◌≡◌, ◌≢◌, refl, ap, ◌∙◌, some, List, [], ◌∷◌, arith, Bytes, All, take, ◌==◌,
  Bool-cases, inl, inr,
}
use k8s_ai_remediator.WebUi.Decisions.{
  DecisionRecord, RecentDecisionRecorder, Redis, Call, record_of, store, mirror, record_decision,
  decoded, mirrored, or_ring, snapshot,
}
use k8s_ai_remediator.WebUi.Decisions.Latest.{newest_first, record_all, on_room}

-- an answering server: LPUSH and LTRIM leave the newest entries
pub record RedisLaw (redis : Redis) : Type 0 where
  pub range-push_trim :
      (key b : Bytes) (n : ℕ) (s : redis.State) (vals : List Bytes)
      → redis.range key n s ≡ some vals
      → redis.range key n (redis.push_trim key b n s) ≡ some (take n (b ∷ vals))

-- a record that is the same after its JSON: its texts are UTF-8 and its confidence is a number
abbrev pub Survives : Redis → DecisionRecord → Type 0
Survives redis rec = (b : Bytes) × (redis.marshal rec ≡ some b) × (redis.unmarshal b ≡ some rec)

module _ (redis : Redis) where
  -- texts that decode to records, one by one
  abbrev pub Decodes : List Bytes → List DecisionRecord → Type 0
  Decodes [] [] = Unit
  Decodes [] (rec ∷ recs) = ⊥
  Decodes (b ∷ bs) [] = ⊥
  Decodes (b ∷ bs) (rec ∷ recs) = (redis.unmarshal b ≡ some rec) × Decodes bs recs

  Decodes-take :
      (n : ℕ) (bs : List Bytes) (recs : List DecisionRecord)
      → Decodes bs (take (suc n) recs)
      → Decodes (take n bs) (take n recs)
  Decodes-take zero bs recs h = tt
  Decodes-take (suc n) [] [] h = tt
  Decodes-take (suc n) [] (rec ∷ recs) h = h
  Decodes-take (suc n) (b ∷ bs) [] h = h
  Decodes-take (suc n) (b ∷ bs) (rec ∷ recs) h = (h.0, Decodes-take n bs recs h.1)

  decoded-Decodes :
      (bs : List Bytes) (recs : List DecisionRecord) → Decodes bs recs → decoded redis bs ≡ recs
  unfolding decoded
  decoded-Decodes [] [] h = refl
  decoded-Decodes [] (rec ∷ recs) h = absurd h
  decoded-Decodes (b ∷ bs) [] h = absurd h
  decoded-Decodes (b ∷ bs) (rec ∷ recs) h =
      rw (decoded, h.0) (ap (◌∷◌ rec) (decoded-Decodes bs recs h.1))

  -- the recorder's list in Redis decodes to the newest entries of a history
  pub record Lists (n : ℕ) (r : RecentDecisionRecorder) (s : redis.State)
      (hist : List DecisionRecord) : Type 0 where
    pub capacity : r.capacity ≡ suc n
    pub key : Bytes
    pub vals : List Bytes
    pub attached : r.redis_key ≡ some key
    pub listed : redis.range key (suc n) s ≡ some vals
    pub decodes : Decodes vals (take (suc n) hist)

module _ (redis : Redis) (law : RedisLaw redis) (n : ℕ) where
  mirror_lem :
      (rec : DecisionRecord) (r : RecentDecisionRecorder) (s : redis.State) (key b : Bytes)
      → r.capacity ≡ suc n
      → r.redis_key ≡ some key
      → redis.marshal rec ≡ some b
      → mirror redis rec r s ≡ redis.push_trim key b (suc n) s
  unfolding mirror
  mirror_lem rec r s key b room attached marshalled = rw (mirror, attached, marshalled, room) refl

  stored-Lists :
      (rec : DecisionRecord) (r : RecentDecisionRecorder) (s : redis.State)
      (hist : List DecisionRecord)
      → Survives redis rec
      → Lists redis n r s hist
      → Lists redis n (store rec r) (mirror redis rec r s) (rec ∷ hist)
  unfolding store
  stored-Lists rec r s hist (b, marshalled, back) h = record {
    capacity = h.capacity;
    key = h.key;
    vals = b ∷ take n h.vals;
    attached = h.attached;
    listed =
        ap (redis.range h.key (suc n)) (mirror_lem rec r s h.key b h.capacity h.attached marshalled)
        ∙ law.range-push_trim h.key b (suc n) s h.vals h.listed;
    decodes = (back, Decodes-take redis n h.vals hist h.decodes);
  }

  record_decision-Lists :
      (c : Call) (r : RecentDecisionRecorder) (s : redis.State) (hist : List DecisionRecord)
      → Survives redis (record_of c)
      → Lists redis n r s hist
      → Lists redis n
          (record_decision redis c r s).0
          (record_decision redis c r s).1
          (record_of c ∷ hist)
  unfolding record_decision
  record_decision-Lists c r s hist kept h = elim (Bool-cases (r.capacity == 0)) [
    | inl off ↦ absurd (ground (arith, h.capacity))
    | inr on ↦ rw on (stored-Lists (record_of c) r s hist kept h)
  ]

  record_all-Lists :
      (cs : List Call) (r : RecentDecisionRecorder) (s : redis.State) (hist : List DecisionRecord)
      → All (λ c. Survives redis (record_of c)) cs
      → Lists redis n r s hist
      → Lists redis n (record_all redis cs r s).0 (record_all redis cs r s).1 (newest_first cs hist)
  unfolding record_all
  record_all-Lists [] r s hist kept h = h
  record_all-Lists (c ∷ cs) r s hist kept h =
      let (r', s') = record_decision redis c r s in
      record_all-Lists cs r' s' (record_of c ∷ hist) kept.1
        (record_decision-Lists c r s hist kept.0 h)

  mirrored-Lists :
      (r : RecentDecisionRecorder) (s : redis.State) (hist : List DecisionRecord)
      → Lists redis n r s hist
      → mirrored redis r s ≡ take (suc n) hist
  unfolding mirrored
  mirrored-Lists r s hist h =
      rw (mirrored, h.attached, h.capacity, h.listed)
        (decoded-Decodes redis h.vals (take (suc n) hist) h.decodes)

  snapshot-Lists :
      (r : RecentDecisionRecorder) (s : redis.State) (hist : List DecisionRecord)
      → Lists redis n r s hist
      → hist ≢ []
      → snapshot redis r s ≡ some (take (suc n) hist)
  unfolding snapshot
  snapshot-Lists r s [] h some_record = absurd (some_record refl)
  snapshot-Lists r s (rec ∷ hist) h some_record =
      on_room redis n r h.capacity (or_ring redis (mirrored redis r s) r)
      ∙ ap (λ out. or_ring redis out r) (mirrored-Lists r s (rec ∷ hist) h)

  -- On an answering server whose list holds the newest records of a history, a snapshot after more
  -- decisions, whose records survive their JSON, shows the latest of both, as many as the capacity
  -- allows, newest first: what an earlier process recorded is not lost.
  pub snapshot-mirror :
      (cs : List Call) (r : RecentDecisionRecorder) (s : redis.State) (old : List DecisionRecord)
      → All (λ c. Survives redis (record_of c)) cs
      → Lists redis n r s old
      → newest_first cs old ≢ []
      → snapshot redis (record_all redis cs r s).0 (record_all redis cs r s).1
        ≡ some (take (suc n) (newest_first cs old))
  snapshot-mirror cs r s old kept h some_record =
      snapshot-Lists _ _ (newest_first cs old) (record_all-Lists cs r s old kept h) some_record
