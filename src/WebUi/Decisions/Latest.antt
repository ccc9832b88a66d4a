-- ===== src/WebUi/Decisions/Latest.antt =====
-- Snapshots from the ring after a sequence of decisions (internal/webui/decisions.go).
use k8s_ai_remediator.Prelude.{
  ℕ, zero, suc, ◌<◌, ◌≡◌, refl, ap, ◌∙◌, ◌||◌, Option, some, List, [], ◌∷◌, arith, Bytes, ℤ, eqb,
  ◌==◌, take, length, replicate, if◌then◌else◌, Bool-cases, inl, inr,
}
use k8s_ai_remediator.WebUi.Decisions.{
  DecisionRecord, RecentDecisionRecorder, Redis, Call, record_of, store, record_decision, mirrored,
  or_ring, snapshot, new_recorder, new_recorder_redis, at_least_zero, is_zero,
}
use k8s_ai_remediator.WebUi.Decisions.Ring.{Holds, store-Holds, read_ring-take}

-- the records of the calls before older ones, newest first
abbrev pub newest_first : List Call → List DecisionRecord → List DecisionRecord
newest_first [] old = old
newest_first (c ∷ cs) old = newest_first cs (record_of c ∷ old)

module _ (redis : Redis) where
  unfoldable pub record_all :
      List Call → RecentDecisionRecorder → redis.State → RecentDecisionRecorder × redis.State
  record_all [] r s = (r, s)
  record_all (c ∷ cs) r s = let (r', s') = record_decision redis c r s in record_all cs r' s'

-- the ring holds a history, or records nothing
abbrev HoldsFor : ℕ → RecentDecisionRecorder → List DecisionRecord → Type 0
HoldsFor n r hist = (r.capacity ≡ n) × ((0 < n) → Holds r hist)

length-replicate {ℓ} : {A : Type ℓ} (n : ℕ) (a : A) → length (replicate n a) ≡ n
length-replicate zero a = refl
length-replicate (suc n) a = ap suc (length-replicate n a)

new_recorder-HoldsFor :
    (capacity : ℤ) → HoldsFor (at_least_zero capacity) (new_recorder capacity) []
unfolding new_recorder
new_recorder-HoldsFor capacity = (
  refl,
  λ some_room. record {
    size = length-replicate (at_least_zero capacity) _;
    in_bounds = some_room;
    wrapped = λ e. absurd (cc e);
    unwrapped = λ e. refl;
    recent = λ i lt few. absurd (omega arith);
  },
)

keyed-HoldsFor :
    (n : ℕ) (key : Bytes) (r : RecentDecisionRecorder) (hist : List DecisionRecord)
    → HoldsFor n r hist
    → HoldsFor n (record r { redis_key = some key }) hist
keyed-HoldsFor n key r hist h = (
  h.0,
  λ room. record {
    size = (h.1 room).size;
    in_bounds = (h.1 room).in_bounds;
    wrapped = (h.1 room).wrapped;
    unwrapped = (h.1 room).unwrapped;
    recent = (h.1 room).recent;
  },
)

store-HoldsFor :
    (n : ℕ) (rec : DecisionRecord) (r : RecentDecisionRecorder) (hist : List DecisionRecord)
    → HoldsFor n r hist
    → HoldsFor n (store rec r) (rec ∷ hist)
store-HoldsFor n rec r hist h = (unfold store in h.0, λ room. store-Holds rec r hist (h.1 room))

module _ (redis : Redis) where
  new_recorder_redis-HoldsFor :
      (capacity : ℤ) (addr prefix : Bytes) (s : redis.State)
      → HoldsFor (at_least_zero capacity) (new_recorder_redis redis capacity addr prefix s) []
  unfolding new_recorder_redis
  new_recorder_redis-HoldsFor capacity addr prefix s =
      let h = new_recorder-HoldsFor capacity in
      elim (Bool-cases (eqb addr [] || is_zero capacity)) [
        | inl plain ↦ rw plain h
        | inr wanted ↦ elim (Bool-cases (redis.ping s)) [
          | inl reached ↦
              rw (wanted, reached)
                (keyed-HoldsFor (at_least_zero capacity) _ (new_recorder capacity) [] h)
          | inr unreached ↦ rw (wanted, unreached) h
        ]
      ]

  record_decision-HoldsFor :
      (n : ℕ) (c : Call) (r : RecentDecisionRecorder) (s : redis.State) (hist : List DecisionRecord)
      → HoldsFor n r hist
      → HoldsFor n (record_decision redis c r s).0 (record_of c ∷ hist)
  unfolding record_decision
  record_decision-HoldsFor n c r s hist h = elim (Bool-cases (r.capacity == 0)) [
    | inl off ↦ rw off (h.0, λ room. absurd (ground (arith, h.0)))
    | inr on ↦ rw on (store-HoldsFor n (record_of c) r hist h)
  ]

  record_all-HoldsFor :
      (n : ℕ) (cs : List Call) (r : RecentDecisionRecorder) (s : redis.State)
      (hist : List DecisionRecord)
      → HoldsFor n r hist
      → HoldsFor n (record_all redis cs r s).0 (newest_first cs hist)
  unfolding record_all
  record_all-HoldsFor n [] r s hist h = h
  record_all-HoldsFor n (c ∷ cs) r s hist h =
      let (r', s') = record_decision redis c r s in
      record_all-HoldsFor n cs r' s' (record_of c ∷ hist) (record_decision-HoldsFor n c r s hist h)

  -- with room, the early return is not taken
  pub on_room :
      (n : ℕ) (r : RecentDecisionRecorder)
      → r.capacity ≡ suc n
      → (out : Option (List DecisionRecord)) → (if r.capacity == 0 then some [] else out) ≡ out
  on_room n r e out = ground (arith, e)

  snapshot-HoldsFor :
      (n : ℕ) (r : RecentDecisionRecorder) (s : redis.State) (hist : List DecisionRecord)
      → HoldsFor n r hist
      → mirrored redis r s ≡ []
      → snapshot redis r s ≡ some (take n hist)
  unfolding snapshot
  snapshot-HoldsFor zero r s hist h unread = rw h.0 refl
  snapshot-HoldsFor (suc n) r s hist h unread =
      on_room n r h.0 (or_ring redis (mirrored redis r s) r)
      ∙ (ap (λ out. or_ring redis out r) unread
          ∙ (read_ring-take r hist (h.1 (omega arith)) ∙ ap (λ k. some (take k hist)) h.0))

  -- a recorder made at start-up, and the calls of Record since then
  abbrev pub after :
      ℤ → Bytes → Bytes → redis.State → List Call → RecentDecisionRecorder × redis.State
  after capacity addr prefix s cs =
      record_all redis cs (new_recorder_redis redis capacity addr prefix s) s

  -- While Redis gives no record, a snapshot after any decisions shows the latest of them, as many
  -- as the capacity allows, newest first; no index is out of range.
  pub snapshot-ring :
      (capacity : ℤ) (addr prefix : Bytes) (s : redis.State) (cs : List Call)
      → mirrored redis (after capacity addr prefix s cs).0 (after capacity addr prefix s cs).1 ≡ []
      → snapshot redis (after capacity addr prefix s cs).0 (after capacity addr prefix s cs).1
        ≡ some (take (at_least_zero capacity) (newest_first cs []))
  snapshot-ring capacity addr prefix s cs unread =
      snapshot-HoldsFor (at_least_zero capacity) _ _ (newest_first cs [])
        (record_all-HoldsFor (at_least_zero capacity) cs _ s []
          (new_recorder_redis-HoldsFor capacity addr prefix s))
        unread
