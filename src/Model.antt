-- ===== src/Model.antt =====
-- internal/model/model.go: severities, the action vocabulary and the decision of the model.
-- A float64 is a NaN, an infinity or an integer number of 2^-1074, which every finite float64 is;
-- the sign of zero is not kept.
mod Floats
mod Severities
pub use Floats.*
unfoldable pub use Severities.*
use k8s_ai_remediator.Prelude.{Bytes, codes, Bool, true, false, Map, List, [], ◌∷◌}

-- `type Action string`: the twelve constants, and any other string.
pub data Action : Type 0 where
  noop restart_deployment delete_failed_pod delete_and_recreate scale_deployment : Action
  inspect_pod_logs set_deployment_image patch_probe patch_resources patch_registry : Action
  mark_for_manual_fix ask_human : Action
  other : Bytes → Action

unfoldable pub action_name : Action → Bytes
action_name noop = codes "noop"
action_name restart_deployment = codes "restart_deployment"
action_name delete_failed_pod = codes "delete_failed_pod"
action_name delete_and_recreate = codes "delete_and_recreate_pod"
action_name scale_deployment = codes "scale_deployment"
action_name inspect_pod_logs = codes "inspect_pod_logs"
action_name set_deployment_image = codes "set_deployment_image"
action_name patch_probe = codes "patch_probe"
action_name patch_resources = codes "patch_resources"
action_name patch_registry = codes "patch_registry"
action_name mark_for_manual_fix = codes "mark_for_manual_fix"
action_name ask_human = codes "ask_human"
action_name (other s) = s

abbrev pub all_actions : List Action
all_actions =
    noop ∷ restart_deployment ∷ delete_failed_pod ∷ delete_and_recreate ∷ scale_deployment
    ∷ inspect_pod_logs ∷ set_deployment_image ∷ patch_probe ∷ patch_resources ∷ patch_registry
    ∷ mark_for_manual_fix ∷ ask_human ∷ []

-- Action.IsOperatorGated
unfoldable pub is_operator_gated : Action → Bool
is_operator_gated patch_probe = true
is_operator_gated patch_resources = true
is_operator_gated patch_registry = true
is_operator_gated set_deployment_image = true
is_operator_gated _ = false

pub record Decision : Type 0 where
  pub summary : Bytes
  pub severity : Bytes
  pub probable_cause : Bytes
  pub confidence : Float64
  pub action : Action
  pub namespace : Bytes
  pub resource_kind : Bytes
  pub resource_name : Bytes
  pub parameters : Map Bytes
  pub reason : Bytes
