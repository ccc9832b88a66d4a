-- ===== src/WebUi/Decisions.antt =====
-- internal/webui/decisions.go: the ring of recent decisions and its mirror in a Redis list. Each
-- method is one step; Redis and encoding/json are a parameter.
pub mod Ring
pub mod Latest
pub mod Mirror
use k8s_ai_remediator.Prelude.{
  ℕ, zero, suc, ◌+◌, ◌-◌, ◌%◌, Bool, true, false, ◌||◌, Option, none, some, List, [], ◌∷◌, ◌++◌,
  Bytes, codes, ℤ, pos, negsuc, eqb, ◌==◌, get_elem?, set, replicate, if◌then◌else◌,
}
use k8s_ai_remediator.Model.{Float64, fin, Decision, action_name}

pub record DecisionRecord : Type 0 where
  pub time : ℕ
  pub namespace : Bytes
  pub kind : Bytes
  pub name : Bytes
  pub event_reason : Bytes
  pub action : Bytes
  pub severity : Bytes
  pub confidence : Float64
  pub summary : Bytes
  pub outcome : Bytes
  pub outcome_error : Bytes

-- `redis_key` is there when `rdb` is not nil
pub record RecentDecisionRecorder : Type 0 where
  pub capacity : ℕ
  pub buf : List DecisionRecord
  pub next : ℕ
  pub full : Bool
  pub redis_key : Option Bytes

-- A Redis server with the client's pipeline LPUSH; LTRIM 0 n-1, with LRANGE 0 n-1 and PING, and
-- json.Marshal and json.Unmarshal of a record. `none` is an error.
pub record Redis : Type 1 where
  pub State : Type 0
  pub push_trim : Bytes → Bytes → ℕ → State → State
  pub range : Bytes → ℕ → State → Option (List Bytes)
  pub ping : State → Bool
  pub marshal : DecisionRecord → Option Bytes
  pub unmarshal : Bytes → Option DecisionRecord

abbrev zero_record : DecisionRecord
zero_record = record {
  time = 0;
  namespace = [];
  kind = [];
  name = [];
  event_reason = [];
  action = [];
  severity = [];
  confidence = fin (pos 0);
  summary = [];
  outcome = [];
  outcome_error = [];
}

abbrev pub at_least_zero : ℤ → ℕ
at_least_zero (pos n) = n
at_least_zero (negsuc n) = 0

unfoldable pub new_recorder : ℤ → RecentDecisionRecorder
new_recorder capacity = record {
  capacity = at_least_zero capacity;
  buf = replicate (at_least_zero capacity) zero_record;
  next = 0;
  full = false;
  redis_key = none;
}

abbrev is_zero : ℤ → Bool
is_zero (pos n) = n == 0
is_zero (negsuc n) = false

-- the arguments of a call of Record, and its clock
pub record Call : Type 0 where
  pub now : ℕ
  pub namespace : Bytes
  pub kind : Bytes
  pub name : Bytes
  pub event_reason : Bytes
  pub decision : Decision
  pub outcome : Bytes
  pub outcome_error : Bytes

unfoldable pub record_of : Call → DecisionRecord
record_of c = record {
  time = c.now;
  namespace = c.namespace;
  kind = c.kind;
  name = c.name;
  event_reason = c.event_reason;
  action = action_name c.decision.action;
  severity = c.decision.severity;
  confidence = c.decision.confidence;
  summary = c.decision.summary;
  outcome = c.outcome;
  outcome_error = c.outcome_error;
}

-- what Record does under the mutex
unfoldable pub store : DecisionRecord → RecentDecisionRecorder → RecentDecisionRecorder
store rec r =
    let next = (r.next + 1) % r.capacity in
    record r { buf = set r.buf r.next rec; next = next; full = if next == 0 then true else r.full }

-- an `append` of `buf[i]` before the rest; `none` is a panic
abbrev pub read :
    Option DecisionRecord → Option (List DecisionRecord) → Option (List DecisionRecord)
read (some rec) (some out) = some (rec ∷ out)
read _ _ = none

module _ (r : RecentDecisionRecorder) where
  -- the loop of Snapshot over a full ring, with `n` rounds left
  unfoldable pub read_full : ℕ → ℕ → Option (List DecisionRecord)
  read_full i zero = some []
  read_full i (suc n) =
      read (get_elem? r.buf ((r.next + r.capacity - suc i) % r.capacity)) (read_full (suc i) n)

  -- the loop over a ring that has not wrapped
  unfoldable pub read_partial : ℕ → Option (List DecisionRecord)
  read_partial zero = some []
  read_partial (suc i) = read (get_elem? r.buf i) (read_partial i)

  unfoldable pub read_ring : Option (List DecisionRecord)
  unfolding read_full read_partial
  read_ring = if r.full then read_full 0 r.capacity else read_partial r.next

module _ (redis : Redis) where
  -- the pipeline at the end of Record
  unfoldable pub mirror : DecisionRecord → RecentDecisionRecorder → redis.State → redis.State
  mirror rec r s = elim r.redis_key [
    | none ↦ s
    | some key ↦ elim (redis.marshal rec) [ none ↦ s | some b ↦ redis.push_trim key b r.capacity s ]
  ]

  unfoldable pub record_decision :
      Call → RecentDecisionRecorder → redis.State → RecentDecisionRecorder × redis.State
  unfolding record_of store mirror
  record_decision c r s =
      if r.capacity == 0 then (r, s) else (store (record_of c) r, mirror (record_of c) r s)

  unfoldable pub decoded : List Bytes → List DecisionRecord
  decoded [] = []
  decoded (v ∷ vs) =
      let out = decoded vs in elim (redis.unmarshal v) [ none ↦ out | some rec ↦ rec ∷ out ]

  -- the records that Redis gives, none on an error
  unfoldable pub mirrored : RecentDecisionRecorder → redis.State → List DecisionRecord
  unfolding decoded
  mirrored r s = elim r.redis_key [
    | none ↦ []
    | some key ↦ elim (redis.range key r.capacity s) [ none ↦ [] | some vals ↦ decoded vals ]
  ]

  abbrev pub or_ring : List DecisionRecord → RecentDecisionRecorder → Option (List DecisionRecord)
  or_ring [] r = read_ring r
  or_ring (rec ∷ out) r = some (rec ∷ out)

  unfoldable pub snapshot : RecentDecisionRecorder → redis.State → Option (List DecisionRecord)
  unfolding mirrored read_ring
  snapshot r s = if r.capacity == 0 then some [] else or_ring (mirrored r s) r

  -- NewRecentDecisionRecorderRedis: the capacity, the server's address and the prefix of the key
  unfoldable pub new_recorder_redis : ℤ → Bytes → Bytes → redis.State → RecentDecisionRecorder
  unfolding new_recorder
  new_recorder_redis capacity addr prefix s =
      if eqb addr [] || is_zero capacity
      then new_recorder capacity
      else if redis.ping s
      then record (new_recorder capacity) { redis_key = some (prefix ++ codes "decisions:recent") }
      else new_recorder capacity
