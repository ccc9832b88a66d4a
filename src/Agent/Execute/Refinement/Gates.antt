-- ===== src/Agent/Execute/Refinement/Gates.antt =====
-- The guards of executeDecision (cmd/agent/main.go) as conditions on an action, and the contract's
-- reads.
use mathlib.Core.Bool.{true≢false}
use k8s_ai_remediator.Prelude.{refl, false, codes, ◌≡◌, arith, true, none, Bytes}
use k8s_ai_remediator.Model.{
  Action, noop, restart_deployment, delete_failed_pod, delete_and_recreate, scale_deployment,
  inspect_pod_logs, set_deployment_image, patch_probe, patch_resources, patch_registry,
  mark_for_manual_fix, ask_human, other, Decision,
}
use k8s_ai_remediator.Config.{AgentConfig}
use k8s_ai_remediator.Text.{trim_space, equal_fold, contains, to_lower}
use k8s_ai_remediator.Policy.{
  is_restart, is_scale_or_restart, maybe_block_restart_on_probe_failure,
  maybe_block_restart_on_oom_killed, maybe_block_wrong_action_on_failed_scheduling,
  maybe_block_unsafe_image_update, maybe_block_unsafe_patch, image_update_checks, PatchFlags,
}
use k8s_ai_remediator.Kube.External.{External}
use k8s_ai_remediator.Effects.{
  list_events, time_now, now_rfc3339, time_left, decide, add_one, record_decision, notify_decision,
  read_logs, list_tags, get_deployment, get_replica_set, get_pod, list_pods, update_deployment,
  delete_pod,
}
use k8s_ai_remediator.Effects.Contract.{AllowsReads, is_guarded, Given}
use k8s_ai_remediator.Agent.Execute.Contract.{
  execution_contract, IsRestartable, IsSchedulable, IsConfident,
}

-- what the three guards on restarts and scalings leave of an action
abbrev pub ClearOfProbe : Bytes → Action → Type 0
ClearOfProbe reason a =
    is_restart a ≡ true → equal_fold (trim_space reason) (codes "Unhealthy") ≡ false

abbrev pub ClearOfOom : Bytes → Action → Type 0
ClearOfOom extra a =
    is_restart a ≡ true
    → (contains (codes "oomkilled") (to_lower extra) ≡ false)
      × (contains (codes "exit=137") (to_lower extra) ≡ false)

abbrev pub ClearOfScheduling : Bytes → Action → Type 0
ClearOfScheduling reason a = is_scale_or_restart a ≡ true → IsSchedulable reason

pub guard-ClearOfProbe :
    (d : Decision) (reason : Bytes)
    → maybe_block_restart_on_probe_failure d reason ≡ none
    → ClearOfProbe reason d.action
unfolding maybe_block_restart_on_probe_failure
guard-ClearOfProbe d reason h is = ground (arith, h, is)

pub guard-ClearOfOom :
    (d : Decision) (extra : Bytes)
    → maybe_block_restart_on_oom_killed d extra ≡ none
    → ClearOfOom extra d.action
unfolding maybe_block_restart_on_oom_killed
guard-ClearOfOom d extra h is = (ground (arith, h, is), ground (arith, h, is))

pub guard-ClearOfScheduling :
    (d : Decision) (reason : Bytes)
    → maybe_block_wrong_action_on_failed_scheduling d reason ≡ none
    → ClearOfScheduling reason d.action
unfolding maybe_block_wrong_action_on_failed_scheduling
guard-ClearOfScheduling d reason h is = ground (arith, h, is)

-- what an action is allowed for: the guards' conditions, or the operator's flag and threshold
abbrev pub Gate : AgentConfig → Bytes → Bytes → Decision → Action → Type 0
Gate cfg reason extra d restart_deployment = IsRestartable reason extra
Gate cfg reason extra d scale_deployment = IsSchedulable reason
Gate cfg reason extra d set_deployment_image =
    (cfg.allow_image_updates ≡ true) × IsConfident d cfg.image_update_threshold
Gate cfg reason extra d patch_probe =
    (cfg.allow_patch_probe ≡ true) × IsConfident d cfg.patch_confidence_threshold
Gate cfg reason extra d patch_resources =
    (cfg.allow_patch_resources ≡ true) × IsConfident d cfg.patch_confidence_threshold
Gate cfg reason extra d patch_registry =
    (cfg.allow_patch_registry ≡ true) × IsConfident d cfg.patch_confidence_threshold
Gate cfg reason extra d _ = Unit

abbrev flags : AgentConfig → PatchFlags
flags cfg = record {
  allow_probe = cfg.allow_patch_probe;
  allow_resources = cfg.allow_patch_resources;
  allow_registry = cfg.allow_patch_registry;
  threshold = cfg.patch_confidence_threshold;
}

-- A decision that passes the five guards has its gate open.
pub guards-Gate :
    (cfg : AgentConfig) (reason extra : Bytes) (d : Decision) (a : Action)
    → d.action ≡ a
    → ClearOfProbe reason a
    → ClearOfOom extra a
    → ClearOfScheduling reason a
    → maybe_block_unsafe_image_update d cfg.allow_image_updates cfg.image_update_threshold ≡ none
    → maybe_block_unsafe_patch d (flags cfg) ≡ none
    → Gate cfg reason extra d a
unfolding maybe_block_unsafe_image_update maybe_block_unsafe_patch image_update_checks
guards-Gate cfg reason extra d set_deployment_image is p o c h g =
    (ground (arith, is, h), ground (arith, is, h))
guards-Gate cfg reason extra d patch_probe is p o c h g =
    (ground (arith, is, g), ground (arith, is, g))
guards-Gate cfg reason extra d patch_resources is p o c h g =
    (ground (arith, is, g), ground (arith, is, g))
guards-Gate cfg reason extra d patch_registry is p o c h g =
    (ground (arith, is, g), ground (arith, is, g))
guards-Gate cfg reason extra d noop is p o c h g = tt
guards-Gate cfg reason extra d restart_deployment is p o c h g =
    (p refl, (o refl).0, (o refl).1, c refl)
guards-Gate cfg reason extra d delete_failed_pod is p o c h g = tt
guards-Gate cfg reason extra d delete_and_recreate is p o c h g = tt
guards-Gate cfg reason extra d scale_deployment is p o c h g = c refl
guards-Gate cfg reason extra d inspect_pod_logs is p o c h g = tt
guards-Gate cfg reason extra d mark_for_manual_fix is p o c h g = tt
guards-Gate cfg reason extra d ask_human is p o c h g = tt
guards-Gate cfg reason extra d (other s) is p o c h g = tt

pub execution_contract-AllowsReads :
    (x : External) (cfg : AgentConfig) (gave : Given) (d : Decision) (reason extra : Bytes)
    → AllowsReads (execution_contract x cfg gave d reason extra)
unfolding is_guarded
execution_contract-AllowsReads x cfg gave d reason extra (update_deployment ns dep) h =
    absurd (true≢false h)
execution_contract-AllowsReads x cfg gave d reason extra (delete_pod ns name grace) h =
    absurd (true≢false h)
execution_contract-AllowsReads x cfg gave d reason extra (get_deployment ns name) h = tt
execution_contract-AllowsReads x cfg gave d reason extra (get_replica_set ns name) h = tt
execution_contract-AllowsReads x cfg gave d reason extra (get_pod ns name) h = tt
execution_contract-AllowsReads x cfg gave d reason extra (list_pods ns sel) h = tt
execution_contract-AllowsReads x cfg gave d reason extra (read_logs ns pod c prev tail) h = tt
execution_contract-AllowsReads x cfg gave d reason extra (list_tags host repo) h = tt
execution_contract-AllowsReads x cfg gave d reason extra list_events h = tt
execution_contract-AllowsReads x cfg gave d reason extra time_now h = tt
execution_contract-AllowsReads x cfg gave d reason extra now_rfc3339 h = tt
execution_contract-AllowsReads x cfg gave d reason extra time_left h = tt
execution_contract-AllowsReads x cfg gave d reason extra (decide prompt) h = absurd (true≢false h)
execution_contract-AllowsReads x cfg gave d reason extra (add_one n) h = tt
execution_contract-AllowsReads x cfg gave d reason extra (record_decision r) h =
    absurd (true≢false h)
execution_contract-AllowsReads x cfg gave d reason extra (notify_decision r) h =
    absurd (true≢false h)
