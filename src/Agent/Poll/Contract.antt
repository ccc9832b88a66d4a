-- ===== src/Agent/Poll/Contract.antt =====
-- The contract for one poll of runLoopWithStore (cmd/agent/main.go).
use k8s_ai_remediator.Prelude.{
  ◌≡◌, ◌≢◌, ◌⊎◌, false, true, Bytes, codes, List, [], All, Any, eqb, Option, none, some,
}
use k8s_ai_remediator.Result.{ok}
use k8s_ai_remediator.Text.{equal_fold, trim_space}
use k8s_ai_remediator.Config.{AgentConfig}
use k8s_ai_remediator.Cluster.{Event}
use k8s_ai_remediator.Model.{Decision}
use k8s_ai_remediator.Policy.Prompt.{build_prompt}
use k8s_ai_remediator.Kube.Owners.{IsOwner, NoOwner, IsInferred}
use k8s_ai_remediator.Kube.Targets.{IsTarget}
use k8s_ai_remediator.Effects.{Call, list_events, update_deployment, delete_pod, decide}
use k8s_ai_remediator.Effects.Contract.{Contract, Given}
use k8s_ai_remediator.Kube.External.{External}
use k8s_ai_remediator.Agent.Execute.Contract.{IsChange}

-- the operator's scope: warnings, in the namespaces that are listed and not excluded
pub record IsInScope (cfg : AgentConfig) (e : Event) : Type 0 where
  pub warning : equal_fold e.event_type (codes "Warning") ≡ true
  pub not_excluded : All (λ ns. ns ≢ e.namespace) cfg.exclude_namespaces
  pub included : (cfg.include_namespaces ≡ []) ⊎ Any (λ ns. ns ≡ e.namespace) cfg.include_namespaces

-- The Deployment that stands for an event: the object of an event on a Deployment, and for an event
-- on a pod the one that the server showed as its owner, or else the one that the pod's name suggests.
pub data Anchor (gave : Given) (e : Event) : Option Bytes → Type 0 where
  on_deployment :
      equal_fold e.object_kind (codes "Deployment") ≡ true → Anchor gave e (some e.object_name)
  owned :
      (owner : Bytes)
      → equal_fold e.object_kind (codes "Pod") ≡ true
      → IsOwner gave e.namespace e.object_name owner
      → Anchor gave e (some owner)
  inferred :
      (o : Option Bytes)
      → equal_fold e.object_kind (codes "Pod") ≡ true
      → NoOwner gave e.namespace e.object_name
      → IsInferred gave e.namespace e.object_name o
      → Anchor gave e o
  elsewhere :
      equal_fold e.object_kind (codes "Deployment") ≡ false
      → equal_fold e.object_kind (codes "Pod") ≡ false
      → Anchor gave e none

-- The written Deployment is the one that stands for the event, and only without one the target of the
-- model's parameters or of the pod. A blank name stands for nothing.
abbrev pub Restricts : Given → Event → Decision → Option Bytes → Bytes → Type 0
Restricts gave e raw (some t) name = (eqb (trim_space t) [] ≡ true) ⊎ (name ≡ trim_space t)
Restricts gave e raw none name =
    IsTarget gave e.namespace e.object_kind e.object_name raw.parameters name

abbrev pub IsEventTarget : Given → Event → Decision → Bytes → Type 0
IsEventTarget gave e raw name = (o : Option Bytes) × Anchor gave e o × Restricts gave e raw o name

-- an event that the server listed
abbrev pub IsListed : Given → Event → Type 0
IsListed gave e = (es : List Event) × gave list_events (ok es) × Any (λ e'. e' ≡ e) es

-- what the model answered to the prompt for an event
abbrev pub IsAdvice : Given → Event → Bytes → Decision → Type 0
IsAdvice gave e extra raw =
    gave
      (decide (
        build_prompt e.namespace e.object_kind e.object_name e.event_type e.reason e.message extra))
      (ok raw)

-- An event that the server listed, in scope, in whose namespace a live agent may write
pub record IsCause (cfg : AgentConfig) (gave : Given) (ns : Bytes) (e : Event) : Type 0 where
  pub event_listed : IsListed gave e
  pub in_scope : IsInScope cfg e
  pub live : cfg.dry_run ≡ false
  pub namespace : ns ≡ e.namespace

abbrev pub PollPermits : External → AgentConfig → Given → Call → Type 0
PollPermits x cfg gave (update_deployment ns dep') =
    (e : Event) × IsCause cfg gave ns e
    × ((extra : Bytes) × (raw : Decision) × IsAdvice gave e extra raw
        × IsChange x cfg gave e.reason extra ns raw (IsEventTarget gave e raw) dep')
PollPermits x cfg gave (delete_pod ns name grace) =
    (e : Event) × IsCause cfg gave ns e
    × (name ≡ e.object_name)
    × (equal_fold e.object_kind (codes "Pod") ≡ true)
PollPermits x cfg gave _ = Unit

abbrev pub poll_contract : External → AgentConfig → Given → Contract
poll_contract x cfg gave = record { permits = PollPermits x cfg gave; grants = gave }
