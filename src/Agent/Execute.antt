-- ===== src/Agent/Execute.antt =====
-- executeDecision. A program returns the error with the parameters as the caller's decision has them
-- afterwards: the escalations and the image completion write to the map that both share. The caller
-- passes a map that is not nil, as the poll loop does.
pub mod Completion
pub mod Contract
pub mod Named
mod Reads
pub mod Refinement
use k8s_ai_remediator.Prelude.{
  ℕ, ◌^◌, ◌-◌, Bytes, codes, ◌++◌, List, [], ◌∷◌, Option, none, some, Bool, not, ◌||◌, ◌&&◌, ℤ, pos,
  negsuc, ltb_ℤ, Map, at, eqb, insert, if◌then◌else◌,
}
use k8s_ai_remediator.Result.{Error, Result, ok, err, errorf, ◌orelse◌}
use k8s_ai_remediator.Text.{trim_space, to_lower, equal_fold}
use k8s_ai_remediator.Text.Numbers.{atoi, itoa}
use k8s_ai_remediator.Model.{
  Action, noop, restart_deployment, delete_failed_pod, delete_and_recreate, scale_deployment,
  inspect_pod_logs, set_deployment_image, patch_probe, patch_resources, patch_registry,
  mark_for_manual_fix, ask_human, other, action_name, Decision,
}
use k8s_ai_remediator.Config.{AgentConfig}
use k8s_ai_remediator.Policy.{
  maybe_block_restart_on_probe_failure, maybe_block_restart_on_oom_killed,
  maybe_block_wrong_action_on_failed_scheduling, maybe_block_unsafe_image_update,
  maybe_block_unsafe_patch,
}
use k8s_ai_remediator.Effects.{Prog, ret, ◌>>=◌, on_ok, on_none}
use k8s_ai_remediator.Kube.External.{External}
use k8s_ai_remediator.Kube.Actions
use k8s_ai_remediator.Kube.Images
use k8s_ai_remediator.Kube.Probes
use k8s_ai_remediator.Kube.Resources
use k8s_ai_remediator.Kube.Logs
use k8s_ai_remediator.Agent.Escalation.{
  target_of, try_auto_patch_probe_on_unhealthy, try_auto_patch_resources_on_oom,
  derive_fallback_image,
}
use Completion.{completed_resources, completed_probe, probe_fields}

pub record Outcome : Type 0 where
  pub error : Option Error
  pub parameters : Map Bytes

-- `depName, err := kube.ResolveDeploymentTarget(…); if err != nil { return err }`
unfoldable pub with_target : Decision → (Bytes → Prog (Option Error)) → Prog (Option Error)
with_target d f = do target ← target_of d; on_ok target f (λ e. ret (some e))

abbrev pub is_pod : Decision → Bool
is_pod d = equal_fold d.resource_kind (codes "Pod")

unfoldable pub requires_pod : Decision → Prog (Option Error)
requires_pod d = ret (some (errorf (action_name d.action ++ codes " requires resource_kind=Pod")))

-- the replicas parameter as an int32
unfoldable pub replicas_of : Map Bytes → Result ℤ
replicas_of params = elim (atoi (at (codes "replicas") params)) [
  | err e ↦ err (errorf (codes "invalid replicas parameter"))
  | ok r ↦
      if ltb_ℤ r (negsuc (2 ^ 31 - 1)) || ltb_ℤ (pos (2 ^ 31 - 1)) r
      then err (errorf (codes "replicas " ++ (itoa r ++ codes " out of range")))
      else ok r
]

-- the switch on the action
unfoldable pub dispatch :
    External → AgentConfig → Action → Decision → Bytes → Bytes → Prog (Option Error)
unfolding with_target requires_pod replicas_of
dispatch x cfg noop d reason extra = ret none
dispatch x cfg ask_human d reason extra = ret none
dispatch x cfg mark_for_manual_fix d reason extra = ret none
dispatch x cfg restart_deployment d reason extra =
    with_target d (λ dep. Actions.restart_deployment x d.namespace dep cfg.dry_run)
dispatch x cfg delete_failed_pod d reason extra =
    if is_pod d
    then Actions.delete_pod_gracefully d.namespace d.resource_name cfg.dry_run
    else requires_pod d
dispatch x cfg delete_and_recreate d reason extra =
    if is_pod d
    then Actions.delete_and_recreate_pod d.namespace d.resource_name cfg.dry_run
    else requires_pod d
dispatch x cfg scale_deployment d reason extra = with_target d (λ dep.
    on_ok (replicas_of d.parameters)
      (λ r. Actions.scale_deployment x d.namespace dep r cfg.min_scale cfg.max_scale cfg.dry_run)
      (λ e. ret (some e)))
dispatch x cfg inspect_pod_logs d reason extra =
    Logs.inspect_pod_logs d.namespace d.resource_kind d.resource_name d.parameters
      cfg.pod_log_tail_lines
dispatch x cfg set_deployment_image d reason extra = with_target d (λ dep.
    Images.set_deployment_image x d.namespace dep (at (codes "image") d.parameters)
      (at (codes "container") d.parameters) cfg.dry_run)
dispatch x cfg patch_probe d reason extra = with_target d (λ dep. do
  target ← completed_probe d.namespace dep d.parameters
  on_ok target
      (λ t.
        Probes.patch_deployment_probe x d.namespace dep t.0 t.1 (probe_fields d.parameters)
          cfg.dry_run)
      (λ e. ret (some e)))
dispatch x cfg patch_resources d reason extra = with_target d (λ dep. do
  params ← completed_resources x d.namespace dep d.parameters reason extra
  Resources.patch_deployment_resources x d.namespace dep (at (codes "container") params) params
      cfg.dry_run)
dispatch x cfg patch_registry d reason extra = with_target d (λ dep.
    Images.patch_deployment_registry x d.namespace dep (at (codes "container") d.parameters)
      (at (codes "new_registry") d.parameters) cfg.dry_run)
dispatch x cfg (other s) d reason extra = ret (some (errorf (codes "unsupported action")))

abbrev is_image_action : Action → Bool
is_image_action set_deployment_image = Bool.true
is_image_action _ = Bool.false

abbrev pub wants_image : AgentConfig → Decision → Bool
wants_image cfg d =
    is_image_action d.action
    && cfg.allow_image_updates
    && (cfg.image_tag_discovery || not (eqb cfg.image_fallback_tag []))
    && eqb (trim_space (at (codes "image") d.parameters)) []

-- a set_deployment_image that names no image is given one
unfoldable pub complete_image : AgentConfig → Decision → Prog Decision
complete_image cfg d =
    if wants_image cfg d
    then (do
      found ← derive_fallback_image cfg d
      on_none found (ret d)
          (λ image. ret (record d { parameters = insert (codes "image") image d.parameters })))
    else ret d

-- `if err := guard; err != nil { if transformed, ok := try(); ok { d = transformed } else { return err } }`
unfoldable pub escalate_or_block :
    Option Error → Decision → Prog (Option Decision) → (Decision → Prog Outcome) → Prog Outcome
escalate_or_block none d try continue = continue d
escalate_or_block (some e) d try continue = do
  transformed ← try
  on_none transformed (ret (record { error = some e; parameters = d.parameters })) continue

-- the last guards, and the action
unfoldable pub guarded_dispatch : External → AgentConfig → Decision → Bytes → Bytes → Prog Outcome
unfolding dispatch
guarded_dispatch x cfg d reason extra =
    on_none
      (maybe_block_unsafe_image_update d cfg.allow_image_updates cfg.image_update_threshold
        orelse maybe_block_unsafe_patch d (record {
          allow_probe = cfg.allow_patch_probe;
          allow_resources = cfg.allow_patch_resources;
          allow_registry = cfg.allow_patch_registry;
          threshold = cfg.patch_confidence_threshold;
        }))
      (do
        e ← dispatch x cfg d.action d reason extra
        ret (record { error = e; parameters = d.parameters }))
      (λ e. ret (record { error = some e; parameters = d.parameters }))

unfoldable pub after_escalations : External → AgentConfig → Bytes → Bytes → Decision → Prog Outcome
unfolding guarded_dispatch complete_image
after_escalations x cfg reason extra d =
    on_none (maybe_block_wrong_action_on_failed_scheduling d reason)
      (do d' ← complete_image cfg d; guarded_dispatch x cfg d' reason extra)
      (λ e. ret (record { error = some e; parameters = d.parameters }))

unfoldable pub execute_decision : External → AgentConfig → Decision → Bytes → Bytes → Prog Outcome
unfolding escalate_or_block after_escalations
execute_decision x cfg d reason extra =
    escalate_or_block (maybe_block_restart_on_probe_failure d reason) d
      (try_auto_patch_probe_on_unhealthy cfg d)
      (λ d'.
        escalate_or_block (maybe_block_restart_on_oom_killed d' extra) d'
          (try_auto_patch_resources_on_oom x cfg d') (after_escalations x cfg reason extra))
