-- ===== src/Policy.antt =====
-- The guards of internal/policy/policy.go. `none` is Go's nil error.
pub mod Regex
pub mod Image
pub mod Prompt
use k8s_ai_remediator.Prelude.{
  Bytes, codes, Bool, not, ◌&&◌, Option, none, some, ◌++◌, [], eqb, at, if◌then◌else◌,
}
use k8s_ai_remediator.Result.{Error, errorf}
use k8s_ai_remediator.Text.{trim_space, to_lower, equal_fold, contains}
use k8s_ai_remediator.Model.{
  Action, restart_deployment, scale_deployment, set_deployment_image, patch_probe, patch_resources,
  patch_registry, action_name, Decision, Float64, lt_float, fixed2,
}
use Image.{validate_oci_image}

abbrev pub below_threshold : Float64 → Float64 → Bytes
below_threshold confidence threshold =
    codes "confidence " ++ (fixed2 confidence ++ (codes " below threshold " ++ fixed2 threshold))

unfoldable pub image_blocked : Error → Error
image_blocked e = record e { text = codes "set_deployment_image blocked: " ++ e.text }

abbrev pub rewrap : Option Error → Option Error
rewrap none = none
rewrap (some e) = some (image_blocked e)

-- the checks of MaybeBlockUnsafeImageUpdate once the action is set_deployment_image
unfoldable pub image_update_checks : Decision → Bool → Float64 → Option Error
unfolding image_blocked
image_update_checks d allow_image_updates threshold =
    if not allow_image_updates
    then some (errorf (codes "set_deployment_image disabled by policy"))
    else if lt_float d.confidence threshold
    then some
        (errorf (codes "set_deployment_image blocked: " ++ below_threshold d.confidence threshold))
    else if eqb (trim_space (at (codes "image") d.parameters)) []
    then some (errorf (codes "set_deployment_image blocked: parameters.image missing"))
    else rewrap (validate_oci_image (at (codes "image") d.parameters))

abbrev pub is_image_update : Action → Bool
is_image_update set_deployment_image = Bool.true
is_image_update _ = Bool.false

unfoldable pub maybe_block_unsafe_image_update : Decision → Bool → Float64 → Option Error
unfolding image_update_checks
maybe_block_unsafe_image_update d allow_image_updates threshold =
    if not (is_image_update d.action)
    then none
    else (image_update_checks d allow_image_updates threshold)

pub record PatchFlags : Type 0 where
  pub allow_probe : Bool
  pub allow_resources : Bool
  pub allow_registry : Bool
  pub threshold : Float64

abbrev pub is_restart : Action → Bool
is_restart restart_deployment = Bool.true
is_restart _ = Bool.false

unfoldable pub maybe_block_restart_on_probe_failure : Decision → Bytes → Option Error
maybe_block_restart_on_probe_failure d event_reason =
    if not (is_restart d.action)
    then none
    else (if equal_fold (trim_space event_reason) (codes "Unhealthy")
        then some (
            errorf (
              codes
                "restart_deployment blocked: event reason=Unhealthy; restart does not fix probe misconfigurations, use patch_probe or inspect_pod_logs"))
        else none)

-- The test of MaybeBlockRestartOnOOMKilled, which cmd/agent/main.go has as isOOMContext.
unfoldable pub is_oom_context : Bytes → Bool
is_oom_context extra =
    let low = to_lower extra in
    if contains (codes "oomkilled") low then Bool.true else contains (codes "exit=137") low

unfoldable pub maybe_block_restart_on_oom_killed : Decision → Bytes → Option Error
maybe_block_restart_on_oom_killed d extra =
    if not (is_restart d.action)
    then none
    else (if not (contains (codes "oomkilled") (to_lower extra))
          && not (contains (codes "exit=137") (to_lower extra))
        then none
        else some (
            errorf (
              codes
                "restart_deployment blocked: pod status shows OOMKilled; restart does not fix memory pressure, use patch_resources")))

abbrev pub is_scale_or_restart : Action → Bool
is_scale_or_restart scale_deployment = Bool.true
is_scale_or_restart restart_deployment = Bool.true
is_scale_or_restart _ = Bool.false

unfoldable pub maybe_block_wrong_action_on_failed_scheduling : Decision → Bytes → Option Error
maybe_block_wrong_action_on_failed_scheduling d event_reason =
    if not (is_scale_or_restart d.action)
    then none
    else (if equal_fold (trim_space event_reason) (codes "FailedScheduling")
        then some (
            errorf (
              action_name d.action
              ++ codes
                  " blocked: event reason=FailedScheduling; scale/restart cannot satisfy impossible resource requests, use patch_resources"))
        else none)

-- the `enabled` flag of MaybeBlockUnsafePatch; `none` where the switch returns at once
unfoldable pub patch_enabled : Action → PatchFlags → Option Bool
patch_enabled patch_probe flags = some flags.allow_probe
patch_enabled patch_resources flags = some flags.allow_resources
patch_enabled patch_registry flags = some flags.allow_registry
patch_enabled _ flags = none

abbrev pub patch_checks : Option Bool → Decision → PatchFlags → Option Error
patch_checks none d flags = none
patch_checks (some enabled) d flags =
    if not enabled
    then some (errorf (action_name d.action ++ codes " disabled by policy"))
    else if lt_float d.confidence flags.threshold
    then some (
        errorf (
          action_name d.action
          ++ (codes " blocked: " ++ below_threshold d.confidence flags.threshold)))
    else none

unfoldable pub maybe_block_unsafe_patch : Decision → PatchFlags → Option Error
unfolding patch_enabled
maybe_block_unsafe_patch d flags = patch_checks (patch_enabled d.action flags) d flags
