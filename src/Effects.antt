-- ===== src/Effects.antt =====
-- What the agent asks of its environment, as programs that wait for answers. A rule about all
-- branches of a program holds whatever the API server, the registry, the model and the clock
-- answer, and whatever other clients do in between.
pub mod Contract
pub mod Spending
use k8s_ai_remediator.Prelude.{ℕ, Bytes, Bool, true, false, ℤ, List, Option, none, some}
use k8s_ai_remediator.Result.{Error, Result, ok, err}
use k8s_ai_remediator.Model.{Decision}
use k8s_ai_remediator.Cluster.{Deployment, Pod, ReplicaSet, Event}

-- a report of one remediation cycle to the dashboard's ring buffer
pub record Report : Type 0 where
  pub namespace : Bytes
  pub kind : Bytes
  pub name : Bytes
  pub event_reason : Bytes
  pub decision : Decision
  pub outcome : Bytes
  pub outcome_error : Bytes

-- notify.DecisionResult
pub record DecisionResult : Type 0 where
  pub namespace : Bytes
  pub kind : Bytes
  pub name : Bytes
  pub event_reason : Bytes
  pub event_message : Bytes
  pub decision : Decision
  pub execution_err : Option Error

-- the counters of metrics.Recorder that the loop adds to
pub data Counter : Type 0 where
  events_processed events_skipped decision_errors execution_errors : Counter
  decisions_by_action : Bytes → Counter

pub data Call : Type 0 where
  get_deployment : Bytes → Bytes → Call
  get_replica_set : Bytes → Bytes → Call
  get_pod : Bytes → Bytes → Call
  list_pods : Bytes → Bytes → Call
  update_deployment : Bytes → Deployment → Call
  delete_pod : Bytes → Bytes → Option ℕ → Call
  read_logs : Bytes → Bytes → Bytes → Bool → ℤ → Call
  list_tags : Bytes → Bytes → Call
  list_events : Call
  time_now : Call
  now_rfc3339 : Call
  time_left : Call
  decide : Bytes → Call
  add_one : Counter → Call
  record_decision : Report → Call
  notify_decision : DecisionResult → Call

abbrev pub Answer : Call → Type 0
Answer (get_deployment ns name) = Result Deployment
Answer (get_replica_set ns name) = Result ReplicaSet
Answer (get_pod ns name) = Result Pod
Answer (list_pods ns selector) = Result (List Pod)
Answer (update_deployment ns dep) = Option Error
Answer (delete_pod ns name grace) = Option Error
Answer (read_logs ns pod container previous tail) = Result Bytes
Answer (list_tags host repo) = Result (List Bytes)
Answer list_events = Result (List Event)
Answer time_now = ℕ
Answer now_rfc3339 = Bytes
Answer time_left = ℤ
Answer (decide prompt) = Result Decision
Answer (add_one c) = Unit
Answer (record_decision r) = Unit
Answer (notify_decision r) = Unit

pub data Prog (A : Type 0) : Type 0 where
  ret : A → Prog A
  call : (c : Call) → (Answer c → Prog A) → Prog A

abbrev pub ask : (c : Call) → Prog (Answer c)
ask c = call c (λ r. ret r)

infixl 5 ◌>>=◌ ◌>>◌
abbrev pub ◌>>=◌ : {A B : Type 0} → Prog A → (A → Prog B) → Prog B
ret a >>= f = f a
call c k >>= f = call c (λ r. k r >>= f)

abbrev pub ◌>>◌ : {A B : Type 0} → Prog A → Prog B → Prog B
m >> n = m >>= λ _. n

-- `x, err := …; if err != nil { … }`
abbrev pub on_ok : {A B : Type 0} → Result A → (A → Prog B) → (Error → Prog B) → Prog B
on_ok (ok a) f g = f a
on_ok (err e) f g = g e

abbrev pub on_none : {A B : Type 0} → Option A → Prog B → (A → Prog B) → Prog B
on_none none m f = m
on_none (some a) m f = f a
