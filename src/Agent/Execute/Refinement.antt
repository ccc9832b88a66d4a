-- ===== src/Agent/Execute/Refinement.antt =====
-- executeDecision (cmd/agent/main.go) against its contract.
mod Actions
mod Gates
use mathlib.Core.Bool.{true≢false}
use k8s_ai_remediator.Prelude.{
  false, sym, subst, ◌∙◌, ◌≡◌, refl, arith, true, false, Bool, Option, none, some, sym, subst,
  Bytes,
}
use k8s_ai_remediator.Result.{Error, ◌orelse◌}
use k8s_ai_remediator.Model.{Decision}
use k8s_ai_remediator.Config.{AgentConfig}
use k8s_ai_remediator.Cluster.{Deployment}
use k8s_ai_remediator.Policy.{
  is_restart, maybe_block_restart_on_probe_failure, maybe_block_restart_on_oom_killed,
  maybe_block_wrong_action_on_failed_scheduling, maybe_block_unsafe_image_update,
  maybe_block_unsafe_patch,
}
use k8s_ai_remediator.Kube.External.{External, RetryLaw}
use k8s_ai_remediator.Effects.{Prog}
use k8s_ai_remediator.Effects.Contract.{
  Contract, Given, Meets, done, Anything, Meets-bind, Meets-on_none,
}
use k8s_ai_remediator.Agent.Escalation.{
  try_auto_patch_probe_on_unhealthy, try_auto_patch_resources_on_oom,
}
use k8s_ai_remediator.Agent.Execute.{
  guarded_dispatch, after_escalations, escalate_or_block, execute_decision, Outcome,
}
use k8s_ai_remediator.Agent.Execute.Contract.{execution_contract}
use k8s_ai_remediator.Agent.Execute.Named.{IsSameTarget, IsSameTarget-refl, IsSameTarget-trans}
use k8s_ai_remediator.Agent.Execute.Reads.{
  Escalates, complete_image-Meets, try_auto_patch_resources_on_oom-Meets,
  try_auto_patch_probe_on_unhealthy-Meets,
}
use Actions.{dispatch-Meets}
use Gates.{
  execution_contract-AllowsReads, guards-Gate, ClearOfProbe, ClearOfOom, ClearOfScheduling,
  guard-ClearOfProbe, guard-ClearOfOom, guard-ClearOfScheduling,
}

orelse-none : (a b : Option Error) → (a orelse b) ≡ none → (a ≡ none) × (b ≡ none)
orelse-none none b h = (refl, h)
orelse-none (some e) b h = ground arith

-- the two guards block restarts only
is_restart_probe :
    (d : Decision) (reason : Bytes) (e : Error)
    → maybe_block_restart_on_probe_failure d reason ≡ some e
    → is_restart d.action ≡ true
unfolding maybe_block_restart_on_probe_failure
is_restart_probe d reason e h = ground (arith, h)

is_restart_oom :
    (d : Decision) (extra : Bytes) (e : Error)
    → maybe_block_restart_on_oom_killed d extra ≡ some e
    → is_restart d.action ≡ true
unfolding maybe_block_restart_on_oom_killed
is_restart_oom d extra e h = ground (arith, h)

module _ (x : External) (cfg : AgentConfig) (gave : Given) (d₀ : Decision) (law : RetryLaw x)
    (reason extra : Bytes) where
  abbrev k : Contract
  k = execution_contract x cfg gave d₀ reason extra

  guarded_dispatch-Meets :
      (d : Decision)
      → IsSameTarget gave d₀ d
      → ClearOfProbe reason d.action
      → ClearOfOom extra d.action
      → ClearOfScheduling reason d.action
      → Meets k Anything (guarded_dispatch x cfg d reason extra)
  unfolding guarded_dispatch
  guarded_dispatch-Meets d same p o c =
      let image =
        maybe_block_unsafe_image_update d cfg.allow_image_updates cfg.image_update_threshold in
      let patch = maybe_block_unsafe_patch d (record {
        allow_probe = cfg.allow_patch_probe;
        allow_resources = cfg.allow_patch_resources;
        allow_registry = cfg.allow_patch_registry;
        threshold = cfg.patch_confidence_threshold;
      }) in
      Meets-on_none (image orelse patch) _ _
        (λ passed.
          let (image_passed, patch_passed) = orelse-none image patch passed in
          Meets-bind _ _
            (dispatch-Meets x cfg gave d₀ law d same reason extra d.action refl
              (guards-Gate cfg reason extra d d.action refl p o c image_passed patch_passed))
            (λ e _. done _ tt))
        (λ e _. done _ tt)

  after_escalations-Meets :
      (d : Decision)
      → IsSameTarget gave d₀ d
      → ClearOfProbe reason d.action
      → ClearOfOom extra d.action
      → Meets k Anything (after_escalations x cfg reason extra d)
  unfolding after_escalations
  after_escalations-Meets d same p o =
      Meets-on_none (maybe_block_wrong_action_on_failed_scheduling d reason) _ _
        (λ passed.
          Meets-bind _ _
            (complete_image-Meets _ (execution_contract-AllowsReads x cfg gave d₀ reason extra) cfg
              d)
            (λ d' (same', action).
              guarded_dispatch-Meets d' (IsSameTarget-trans gave d₀ d d' same same')
                (subst (ClearOfProbe reason) (sym action) p)
                (subst (ClearOfOom extra) (sym action) o)
                (subst (ClearOfScheduling reason) (sym action)
                  (guard-ClearOfScheduling d reason passed))))
        (λ e _. done _ tt)

  -- `P` is what the guard leaves of a decision that it passes; an escalation is no restart.
  escalate_or_block-Meets :
      (P : Decision → Type 0) (blocked : Option Error) (d : Decision) (try : Prog (Option Decision))
      (continue : Decision → Prog Outcome)
      → IsSameTarget gave d₀ d
      → (blocked ≡ none → P d)
      → ((d' : Decision) → is_restart d'.action ≡ false → P d')
      → ((e : Error) → blocked ≡ some e → Meets k (Escalates gave d) try)
      → ((d' : Decision) → IsSameTarget gave d₀ d' → P d' → Meets k Anything (continue d'))
      → Meets k Anything (escalate_or_block blocked d try continue)
  unfolding escalate_or_block
  escalate_or_block-Meets P none d try continue same passed calm tries goes_on =
      goes_on d same (passed refl)
  escalate_or_block-Meets P (some e) d try continue same passed calm tries goes_on =
      Meets-bind _ _ (tries e refl) (λ o escalated.
        Meets-on_none o _ _ (λ _. done _ tt)
          (λ d' is_d'.
            let (same', no_restart) = escalated d' is_d' in
            goes_on d' (IsSameTarget-trans gave d₀ d d' same same') (calm d' no_restart)))

-- For every External whose retry loop repeats an attempt after conflicts only, a bounded number of
-- times, executing any decision in any configuration makes no call but those that the contract
-- permits, whatever the API server and the registry answer: it asks no model and reports nothing,
-- and it writes only in the decision's namespace, only without dry_run, a pod deletion only of the
-- decision's own pod, and a Deployment only as one of the six changes of a Deployment that the
-- server gave. The written Deployment is the one that the decision's parameters name; without such
-- a name, it is the decision's object of kind Deployment, or the one that the server showed as the
-- owner of the decision's object of kind Pod, outer blanks apart. A restart is made only if the
-- event is neither Unhealthy nor FailedScheduling and its context shows no OOM kill, a scaling only
-- within the bounds and if the event is not FailedScheduling, and each of the other four changes
-- only behind the operator's flag for it and with a confidence that is not below the operator's
-- threshold, which a patch of a probe or of resources needs not where the decision was a restart.
pub execute_decision-Meets :
    (x : External) (cfg : AgentConfig) (gave : Given) (d : Decision) (reason extra : Bytes)
    → RetryLaw x
    → Meets
        (execution_contract x cfg gave d reason extra)
        Anything
        (execute_decision x cfg d reason extra)
unfolding execute_decision
execute_decision-Meets x cfg gave d reason extra law =
    let reads = execution_contract-AllowsReads x cfg gave d reason extra in
    escalate_or_block-Meets x cfg gave d law reason extra (λ e. ClearOfProbe reason e.action)
      (maybe_block_restart_on_probe_failure d reason) d _ _ (IsSameTarget-refl gave d)
      (guard-ClearOfProbe d reason) (λ e calm is. absurd (true≢false (sym is ∙ calm)))
      (λ e blocked.
        try_auto_patch_probe_on_unhealthy-Meets _ reads cfg d (is_restart_probe d reason e blocked))
      (λ d' same p.
        escalate_or_block-Meets x cfg gave d law reason extra
          (λ e. ClearOfProbe reason e.action × ClearOfOom extra e.action)
          (maybe_block_restart_on_oom_killed d' extra) d' _ _ same
          (λ passed. (p, guard-ClearOfOom d' extra passed))
          (λ e calm. (
            (λ is. absurd (true≢false (sym is ∙ calm))),
            (λ is. absurd (true≢false (sym is ∙ calm))),
          ))
          (λ e blocked.
            try_auto_patch_resources_on_oom-Meets _ reads x cfg d'
              (is_restart_oom d' extra e blocked))
          (λ d'' same' (p', o).
            after_escalations-Meets x cfg gave d law reason extra d'' same' p' o))
