-- ===== src/Agent/Execute/Contract.antt =====
-- The contract for executing one decision (executeDecision in cmd/agent/main.go): the calls it may
-- make of the cluster.
use k8s_ai_remediator.Prelude.{◌≡◌, ◌⊎◌, Bytes, Map, ℤ, ◌≤ℤ◌, true, false, codes}
use k8s_ai_remediator.Result.{ok}
use k8s_ai_remediator.Text.{equal_fold, trim_space, contains, to_lower}
use k8s_ai_remediator.Model.{Decision, Float64, lt_float}
use k8s_ai_remediator.Policy.{is_restart}
use k8s_ai_remediator.Agent.Execute.Named.{IsTargetOf}
use k8s_ai_remediator.Config.{AgentConfig}
use k8s_ai_remediator.Cluster.{Deployment}
use k8s_ai_remediator.Effects.{
  Call, get_deployment, update_deployment, delete_pod, decide, record_decision, notify_decision,
}
use k8s_ai_remediator.Effects.Contract.{Contract, Given}
use k8s_ai_remediator.Kube.External.{External}
use k8s_ai_remediator.Kube.Actions.{stamp_restart, set_replicas}
use k8s_ai_remediator.Kube.Images.{change_image, change_registry}
use k8s_ai_remediator.Kube.Probes.{change_probe}
use k8s_ai_remediator.Kube.Resources.{change_resources}

-- nothing in the event or its context speaks against scaling, and against a restart
abbrev pub IsSchedulable : Bytes → Type 0
IsSchedulable reason = equal_fold (trim_space reason) (codes "FailedScheduling") ≡ false

abbrev pub IsRestartable : Bytes → Bytes → Type 0
IsRestartable reason extra =
    (equal_fold (trim_space reason) (codes "Unhealthy") ≡ false)
    × (contains (codes "oomkilled") (to_lower extra) ≡ false)
    × (contains (codes "exit=137") (to_lower extra) ≡ false)
    × IsSchedulable reason

-- the model's confidence is not below a threshold of the operator's
abbrev pub IsConfident : Decision → Float64 → Type 0
IsConfident d threshold = lt_float d.confidence threshold ≡ false

-- or the decision is a restart, which the agent itself turns into a patch
abbrev pub IsBacked : Decision → Float64 → Type 0
IsBacked d threshold = IsConfident d threshold ⊎ (is_restart d.action ≡ true)

-- the six ways in which a Deployment may be rewritten, each with the operator's gates
pub data Change (x : External) (cfg : AgentConfig) (reason extra : Bytes) (d : Decision)
    (dep dep' : Deployment) : Type 0 where
  restarted :
      (t : Bytes)
      → IsRestartable reason extra
      → stamp_restart t dep ≡ ok dep'
      → Change x cfg reason extra d dep dep'
  scaled :
      (r : ℤ) (t : Bytes)
      → cfg.min_scale ≤ℤ r
      → r ≤ℤ cfg.max_scale
      → IsSchedulable reason
      → set_replicas r t dep ≡ ok dep'
      → Change x cfg reason extra d dep dep'
  image_set :
      (image container t : Bytes)
      → cfg.allow_image_updates ≡ true
      → IsConfident d cfg.image_update_threshold
      → change_image image container t dep ≡ ok dep'
      → Change x cfg reason extra d dep dep'
  probe_patched :
      (ns name container probe : Bytes) (fields : Map Bytes) (t : Bytes)
      → cfg.allow_patch_probe ≡ true
      → IsBacked d cfg.patch_confidence_threshold
      → change_probe ns name container probe fields t dep ≡ ok dep'
      → Change x cfg reason extra d dep dep'
  resources_patched :
      (ns name container : Bytes) (params : Map Bytes) (t : Bytes)
      → cfg.allow_patch_resources ≡ true
      → IsBacked d cfg.patch_confidence_threshold
      → change_resources x ns name container params t dep ≡ ok dep'
      → Change x cfg reason extra d dep dep'
  registry_patched :
      (ns name container registry t : Bytes)
      → cfg.allow_patch_registry ≡ true
      → IsConfident d cfg.patch_confidence_threshold
      → change_registry ns name container registry t dep ≡ ok dep'
      → Change x cfg reason extra d dep dep'

-- A written Deployment is a permitted change of one that the server gave for a target.
pub record IsChange (x : External) (cfg : AgentConfig) (gave : Given) (reason extra ns : Bytes)
    (d : Decision) (is_target : Bytes → Type 0) (dep' : Deployment) : Type 0 where
  pub name : Bytes
  pub dep : Deployment
  pub given : gave (get_deployment ns name) (ok dep)
  pub target : is_target name
  pub change : Change x cfg reason extra d dep dep'

-- The calls that executing a decision may make: it reads and writes the cluster; the model, the
-- dashboard and the webhook are the loop's.
abbrev pub Permits : External → AgentConfig → Given → Bytes → Bytes → Decision → Call → Type 0
Permits x cfg gave reason extra d (update_deployment ns dep') =
    (ns ≡ d.namespace)
    × (cfg.dry_run ≡ false)
    × IsChange x cfg gave reason extra ns d (IsTargetOf gave d) dep'
Permits x cfg gave reason extra d (delete_pod ns name grace) =
    (ns ≡ d.namespace)
    × (cfg.dry_run ≡ false)
    × (name ≡ d.resource_name)
    × (equal_fold d.resource_kind (codes "Pod") ≡ true)
Permits x cfg gave reason extra d (decide prompt) = ⊥
Permits x cfg gave reason extra d (record_decision r) = ⊥
Permits x cfg gave reason extra d (notify_decision r) = ⊥
Permits x cfg gave reason extra d _ = Unit

abbrev pub execution_contract : External → AgentConfig → Given → Decision → Bytes → Bytes → Contract
execution_contract x cfg gave d reason extra = record {
  permits = Permits x cfg gave reason extra d;
  grants = gave;
}
