-- ===== src/Agent/Escalation.antt =====
-- The automatic escalations of a blocked restart, and the completion of a missing image.
use k8s_ai_remediator.Prelude.{
  Bytes, codes, List, [], ◌∷◌, Option, none, some, Bool, true, false, not, at, eqb, insert,
  if◌then◌else◌,
}
use k8s_ai_remediator.Result.{Result, ok, err}
use k8s_ai_remediator.Model.{Decision, Float64, lt_float, patch_probe, patch_resources}
use k8s_ai_remediator.Config.{AgentConfig}
use k8s_ai_remediator.Cluster.{Container, Deployment}
use k8s_ai_remediator.Effects.{Prog, ret, ask, get_deployment, ◌>>=◌, on_ok, on_none}
use k8s_ai_remediator.Kube.External.{External}
use k8s_ai_remediator.Kube.OptIn.{deployment_allows_patch}
use k8s_ai_remediator.Kube.Resolve.{resolve_deployment_target}
use k8s_ai_remediator.Kube.References.{retag_image}
use k8s_ai_remediator.Registry.{newest_tag}
use k8s_ai_remediator.Agent.Memory.{compute_bumped_memory_limit, chosen_container}

abbrev is_some {ℓ} : {A : Type ℓ} → Option A → Bool
is_some none = false
is_some (some a) = true

-- the first container with a readiness probe, or else the first with a liveness probe
unfoldable pub first_with : (Container → Bool) → List Container → Option Container
first_with p [] = none
first_with p (c ∷ cs) = if p c then some c else first_with p cs

abbrev named_probe : Option Container → Bytes → Option (Bytes × Bytes) → Option (Bytes × Bytes)
named_probe none probe rest = rest
named_probe (some c) probe rest = some (c.name, probe)

unfoldable pub choose_probe_from_deployment : Deployment → Option (Bytes × Bytes)
unfolding first_with
choose_probe_from_deployment dep =
    named_probe (first_with (λ c. is_some c.readiness) dep.containers) (codes "readiness")
      (named_probe (first_with (λ c. is_some c.liveness) dep.containers) (codes "liveness") none)

-- the confidence is lifted to the threshold
unfoldable pub lift_confidence : Decision → AgentConfig → Float64
lift_confidence d cfg =
    if lt_float d.confidence cfg.patch_confidence_threshold
    then cfg.patch_confidence_threshold
    else d.confidence

abbrev pub target_of : Decision → Prog (Result Bytes)
target_of d = resolve_deployment_target d.namespace d.resource_kind d.resource_name d.parameters

unfoldable pub as_patch_resources : External → AgentConfig → Decision → Bytes → Container → Decision
unfolding lift_confidence
as_patch_resources x cfg d dep_name c = record d {
  action = patch_resources;
  confidence = lift_confidence d cfg;
  parameters =
      insert (codes "memory_limit") (compute_bumped_memory_limit x c.memory_limit).shown (
        insert (codes "container") c.name (insert (codes "deployment_name") dep_name d.parameters));
}

abbrev pub escalate_first :
    External → AgentConfig → Decision → Bytes → List Container → Option Decision
escalate_first x cfg d dep_name [] = none
escalate_first x cfg d dep_name (c ∷ cs) = some (as_patch_resources x cfg d dep_name c)

unfoldable pub try_auto_patch_resources_on_oom :
    External → AgentConfig → Decision → Prog (Option Decision)
unfolding as_patch_resources
try_auto_patch_resources_on_oom x cfg d = if not cfg.allow_patch_resources then ret none else (do
  target ← target_of d
  on_ok target
      (λ dep_name. do
        got ← ask (get_deployment d.namespace dep_name)
        on_ok got
            (λ dep.
              if not (deployment_allows_patch dep (codes "resources"))
              then ret none
              else ret (escalate_first x cfg d dep_name dep.containers))
            (λ e. ret none))
      (λ e. ret none))

unfoldable pub as_patch_probe : AgentConfig → Decision → Bytes → Bytes → Bytes → Decision
unfolding lift_confidence
as_patch_probe cfg d dep_name container probe = record d {
  action = patch_probe;
  confidence = lift_confidence d cfg;
  parameters = insert (codes "timeout_seconds") (codes "5") (
      insert (codes "period_seconds") (codes "15") (
        insert (codes "failure_threshold") (codes "6") (
          insert (codes "probe") probe (
            insert (codes "container") container
              (insert (codes "deployment_name") dep_name d.parameters)))));
}

abbrev pub escalate_probe :
    AgentConfig → Decision → Bytes → Option (Bytes × Bytes) → Option Decision
escalate_probe cfg d dep_name none = none
escalate_probe cfg d dep_name (some (container, probe)) =
    some (as_patch_probe cfg d dep_name container probe)

unfoldable pub try_auto_patch_probe_on_unhealthy : AgentConfig → Decision → Prog (Option Decision)
unfolding as_patch_probe
try_auto_patch_probe_on_unhealthy cfg d = if not cfg.allow_patch_probe then ret none else (do
  target ← target_of d
  on_ok target
      (λ dep_name. do
        got ← ask (get_deployment d.namespace dep_name)
        on_ok got
            (λ dep.
              if not (deployment_allows_patch dep (codes "probe"))
              then ret none
              else ret (escalate_probe cfg d dep_name (choose_probe_from_deployment dep)))
            (λ e. ret none))
      (λ e. ret none))

abbrev to_option {ℓ} : {A : Type ℓ} → Result A → Option A
to_option (ok a) = some a
to_option (err e) = none

-- the configured fallback tag
unfoldable pub fallback_image : AgentConfig → Bytes → Option Bytes
fallback_image cfg current =
    if eqb cfg.image_fallback_tag []
    then none
    else to_option (retag_image current cfg.image_fallback_tag)

abbrev pub retagged : AgentConfig → Bytes → Result Bytes → Option Bytes
retagged cfg current (ok tag) = elim (retag_image current tag) [
  | ok image ↦ some image
  | err e ↦ fallback_image cfg current
]
retagged cfg current (err e) = fallback_image cfg current

unfoldable pub replacement_for : AgentConfig → Bytes → Prog (Option Bytes)
unfolding fallback_image
replacement_for cfg current =
    if cfg.image_tag_discovery
    then (do found ← newest_tag current; ret (retagged cfg current found))
    else ret (fallback_image cfg current)

unfoldable pub derive_fallback_image : AgentConfig → Decision → Prog (Option Bytes)
unfolding replacement_for
derive_fallback_image cfg d = do
  target ← target_of d
  on_ok target
      (λ dep_name. do
        got ← ask (get_deployment d.namespace dep_name)
        on_ok got
            (λ dep.
              on_none (chosen_container dep.containers (at (codes "container") d.parameters))
                (ret none) (λ c. replacement_for cfg c.image))
            (λ e. ret none))
      (λ e. ret none)
