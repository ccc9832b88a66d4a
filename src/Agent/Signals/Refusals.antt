-- ===== src/Agent/Signals/Refusals.antt =====
-- The outcome that the loop of cmd/agent/main.go reports for an error of a guard.
use k8s_ai_remediator.Prelude.{
  ◌≡◌, refl, arith, Bytes, codes, ◌++◌, [], ◌∷◌, Bool, true, false, not, ◌&&◌, eqb, at, Option,
  none, some, if◌then◌else◌,
}
use k8s_ai_remediator.Result.{Error}
use k8s_ai_remediator.Text.{contains, to_lower, trim_space, equal_fold}
use k8s_ai_remediator.Model.{action_name, Decision, Float64, lt_float}
use k8s_ai_remediator.Policy.{
  maybe_block_restart_on_probe_failure, maybe_block_restart_on_oom_killed,
  maybe_block_wrong_action_on_failed_scheduling, maybe_block_unsafe_image_update,
  maybe_block_unsafe_patch, PatchFlags, patch_checks, patch_enabled, is_restart,
  is_scale_or_restart, is_image_update, image_update_checks, image_blocked, rewrap,
}
use k8s_ai_remediator.Policy.Image.{validate_oci_image}
use k8s_ai_remediator.Agent.Signals.{outcome_of}

-- an error, if there is one, is reported as blocked
abbrev pub IsBlocked : Option Error → Type 0
IsBlocked none = Unit
IsBlocked (some e) = outcome_of (some e) ≡ codes "blocked"

if-IsBlocked :
    (b : Bool) (o p : Option Error) → IsBlocked o → IsBlocked p → IsBlocked (if b then o else p)
if-IsBlocked true o p ho hp = ho
if-IsBlocked false o p ho hp = hp

contains-append :
    (p s t : Bytes) → contains p (to_lower t) ≡ true → contains p (to_lower (s ++ t)) ≡ true
unfolding contains to_lower
contains-append p [] t h = h
contains-append p (c ∷ s) t h = ground (arith, contains-append p s t h)

-- an error whose text names the policy or the block
policy-IsBlocked :
    (e : Error) → contains (codes "policy") (to_lower e.text) ≡ true → IsBlocked (some e)
unfolding outcome_of
policy-IsBlocked e h = ground (arith, h)

named_block-IsBlocked :
    (e : Error) → contains (codes "blocked") (to_lower e.text) ≡ true → IsBlocked (some e)
unfolding outcome_of
named_block-IsBlocked e h = ground (arith, h)

probe_failure-IsBlocked :
    (d : Decision) (reason : Bytes) → IsBlocked (maybe_block_restart_on_probe_failure d reason)
unfolding maybe_block_restart_on_probe_failure to_lower contains
probe_failure-IsBlocked d reason = if-IsBlocked (not (is_restart d.action)) _ _ tt (
    if-IsBlocked (equal_fold (trim_space reason) (codes "Unhealthy")) _ _
      (named_block-IsBlocked _ refl) tt)

oom_killed-IsBlocked :
    (d : Decision) (extra : Bytes) → IsBlocked (maybe_block_restart_on_oom_killed d extra)
unfolding maybe_block_restart_on_oom_killed to_lower contains
oom_killed-IsBlocked d extra = if-IsBlocked (not (is_restart d.action)) _ _ tt (
    if-IsBlocked
      (not (contains (codes "oomkilled") (to_lower extra))
        && not (contains (codes "exit=137") (to_lower extra)))
      _ _ tt (named_block-IsBlocked _ refl))

failed_scheduling-IsBlocked :
    (d : Decision) (reason : Bytes)
    → IsBlocked (maybe_block_wrong_action_on_failed_scheduling d reason)
unfolding maybe_block_wrong_action_on_failed_scheduling to_lower contains
failed_scheduling-IsBlocked d reason = if-IsBlocked (not (is_scale_or_restart d.action)) _ _ tt (
    if-IsBlocked (equal_fold (trim_space reason) (codes "FailedScheduling")) _ _
      (named_block-IsBlocked _ (contains-append (codes "blocked") (action_name d.action) _ refl))
      tt)

patch_checks-IsBlocked :
    (o : Option Bool) (d : Decision) (flags : PatchFlags) → IsBlocked (patch_checks o d flags)
unfolding to_lower contains
patch_checks-IsBlocked none d flags = tt
patch_checks-IsBlocked (some enabled) d flags =
    if-IsBlocked (not enabled) _ _
      (policy-IsBlocked _ (contains-append (codes "policy") (action_name d.action) _ refl))
      (if-IsBlocked (lt_float d.confidence flags.threshold) _ _
        (named_block-IsBlocked _ (contains-append (codes "blocked") (action_name d.action) _ refl))
        tt)

rewrap-IsBlocked : (o : Option Error) → IsBlocked (rewrap o)
unfolding image_blocked to_lower contains
rewrap-IsBlocked none = tt
rewrap-IsBlocked (some e) = named_block-IsBlocked (image_blocked e) refl

image_update-IsBlocked :
    (d : Decision) (allowed : Bool) (threshold : Float64)
    → IsBlocked (maybe_block_unsafe_image_update d allowed threshold)
unfolding maybe_block_unsafe_image_update image_update_checks to_lower contains
image_update-IsBlocked d allowed threshold = if-IsBlocked (not (is_image_update d.action)) _ _ tt (
    if-IsBlocked (not allowed) _ _ (policy-IsBlocked _ refl) (
      if-IsBlocked (lt_float d.confidence threshold) _ _ (named_block-IsBlocked _ refl) (
        if-IsBlocked (eqb (trim_space (at (codes "image") d.parameters)) []) _ _
          (named_block-IsBlocked _ refl)
          (rewrap-IsBlocked (validate_oci_image (at (codes "image") d.parameters))))))

-- Whichever of the five guards refuses a decision, and why, the refusal is reported as blocked and
-- not as an error.
pub outcome_of-guards :
    (d : Decision) (reason extra : Bytes) (allowed : Bool) (threshold : Float64)
    (flags : PatchFlags)
    → IsBlocked (maybe_block_restart_on_probe_failure d reason)
      × IsBlocked (maybe_block_restart_on_oom_killed d extra)
      × IsBlocked (maybe_block_wrong_action_on_failed_scheduling d reason)
      × IsBlocked (maybe_block_unsafe_image_update d allowed threshold)
      × IsBlocked (maybe_block_unsafe_patch d flags)
unfolding maybe_block_unsafe_patch
outcome_of-guards d reason extra allowed threshold flags = (
  probe_failure-IsBlocked d reason,
  oom_killed-IsBlocked d extra,
  failed_scheduling-IsBlocked d reason,
  image_update-IsBlocked d allowed threshold,
  patch_checks-IsBlocked (patch_enabled d.action flags) d flags,
)
