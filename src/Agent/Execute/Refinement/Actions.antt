-- ===== src/Agent/Execute/Refinement/Actions.antt =====
-- The switch on the action in executeDecision (cmd/agent/main.go), against the contract.
use mathlib.Core.Bool.{true≢false}
use k8s_ai_remediator.Prelude.{
  inl, inr, ap, refl, ◌≡◌, arith, true, false, Option, none, some, sym, subst, ◌∙◌, [], ℕ,
  if◌then◌else◌, Bytes, codes, eqb, ltb_ℤ, ◌||◌, ◌≤ℤ◌, ℤ,
}
use k8s_ai_remediator.Result.{Error, ok}
use k8s_ai_remediator.Text.{trim_space, equal_fold}
use k8s_ai_remediator.Model.{
  Action, noop, restart_deployment, delete_failed_pod, delete_and_recreate, scale_deployment,
  inspect_pod_logs, set_deployment_image, patch_probe, patch_resources, patch_registry,
  mark_for_manual_fix, ask_human, other, Decision, Float64, lt_float,
}
use k8s_ai_remediator.Config.{AgentConfig}
use k8s_ai_remediator.Cluster.{Deployment}
use k8s_ai_remediator.Kube.External.{External, RetryLaw}
use k8s_ai_remediator.Kube.Mutate.{Mutation, apply_patch}
use k8s_ai_remediator.Kube.Actions
use k8s_ai_remediator.Kube.Actions.{delete_unless_gone}
use k8s_ai_remediator.Kube.Images
use k8s_ai_remediator.Kube.Probes
use k8s_ai_remediator.Kube.Resources
use k8s_ai_remediator.Effects.{get_deployment, Prog, ret}
use k8s_ai_remediator.Effects.Contract.{
  Contract, Given, next, is_guarded, Meets, done, Anything, Meets-bind, Meets-on_ok, Meets-if,
  AllowsReads,
}
use k8s_ai_remediator.Kube.Writes.{
  CanWrite, mutate_deployment-Meets, apply_patch-Meets, delete_unless_gone-Meets,
}
use k8s_ai_remediator.Kube.Reads.{inspect_pod_logs-Meets}
use k8s_ai_remediator.Agent.Execute.{with_target, requires_pod, replicas_of, dispatch, is_pod}
use k8s_ai_remediator.Agent.Execute.Contract.{
  IsRestartable, IsSchedulable, Change, restarted, scaled, image_set, probe_patched,
  resources_patched, registry_patched, execution_contract, IsConfident, IsBacked,
}
use k8s_ai_remediator.Agent.Execute.Named.{IsSameTarget, IsTargetOf, is_patch}
use k8s_ai_remediator.Agent.Execute.Reads.{
  target_of-Meets, completed_probe-Meets, completed_resources-Meets,
}
use k8s_ai_remediator.Agent.Execute.Refinement.Gates.{Gate, execution_contract-AllowsReads}

replicas_in_bounds : (r lo hi : ℤ) → (ltb_ℤ r lo || ltb_ℤ hi r) ≡ false → (lo ≤ℤ r) × (r ≤ℤ hi)
replicas_in_bounds r lo hi h = ground arith

module _ (x : External) (cfg : AgentConfig) (gave : Given) (d₀ : Decision) (law : RetryLaw x)
    (d : Decision) (same : IsSameTarget gave d₀ d) (reason extra : Bytes) where
  abbrev k : Contract
  k = execution_contract x cfg gave d₀ reason extra

  reads : AllowsReads k
  reads = execution_contract-AllowsReads x cfg gave d₀ reason extra

  -- a mutation that makes one of the changes, on the resolved target
  Change-CanWrite :
      (name : Bytes) (f : Mutation)
      → cfg.dry_run ≡ false
      → IsTargetOf gave d name
      → ((t : Bytes) (dep dep' : Deployment)
          → f t dep ≡ ok dep'
          → Change x cfg reason extra d₀ dep dep')
      → CanWrite k reads d.namespace name f
  Change-CanWrite name f live resolved change t dep dep' given made = (
    same.namespace,
    live,
    record {
      name = name;
      dep = dep;
      given = given;
      target = same.target name resolved;
      change = change t dep dep' made;
    },
  )

  with_target-Meets :
      (f : Bytes → Prog (Option Error))
      → ((name : Bytes) → IsTargetOf gave d name → Meets k Anything (f name))
      → Meets k Anything (with_target d f)
  unfolding with_target
  with_target-Meets f meets = Meets-bind _ _ (target_of-Meets k reads d) (λ r resolved.
      Meets-on_ok r _ _ (λ name is_name. meets name (resolved name is_name)) (λ e. done _ tt))

  patch-Meets :
      (name : Bytes) (f : Mutation)
      → IsTargetOf gave d name
      → ((t : Bytes) (dep dep' : Deployment)
          → f t dep ≡ ok dep'
          → Change x cfg reason extra d₀ dep dep')
      → Meets k Anything (apply_patch x d.namespace name f cfg.dry_run)
  patch-Meets name f resolved change =
      apply_patch-Meets k reads x d.namespace name f cfg.dry_run law
        (λ live. Change-CanWrite name f live resolved change)

  restart-Meets :
      IsRestartable reason extra
      → (name : Bytes) → IsTargetOf gave d name
      → Meets k Anything (Actions.restart_deployment x d.namespace name cfg.dry_run)
  unfolding Actions.restart_deployment
  restart-Meets clear name resolved =
      Meets-if cfg.dry_run _ _ (λ _. done _ tt)
        (λ live.
          mutate_deployment-Meets k reads x d.namespace name _ law
            (Change-CanWrite name _ live resolved (λ t dep dep' made. restarted t clear made)))

  scale-Meets :
      IsSchedulable reason
      → (name : Bytes) (r : ℤ) → IsTargetOf gave d name
      → Meets k Anything
          (Actions.scale_deployment x d.namespace name r cfg.min_scale cfg.max_scale cfg.dry_run)
  unfolding Actions.scale_deployment
  scale-Meets clear name r resolved =
      Meets-if (ltb_ℤ r cfg.min_scale || ltb_ℤ cfg.max_scale r) _ _ (λ _. done _ tt)
        (λ inside.
          let (low, high) = replicas_in_bounds r cfg.min_scale cfg.max_scale inside in
          Meets-if cfg.dry_run _ _ (λ _. done _ tt)
            (λ live. mutate_deployment-Meets k reads x d.namespace name _ law (
              Change-CanWrite name _ live resolved
                (λ t dep dep' made. scaled r t low high clear made))))

  -- both deletions: of the decision's own pod
  delete-Meets :
      (grace : Option ℕ)
      → Meets k Anything (
          if is_pod d
          then (if cfg.dry_run
              then ret none
              else delete_unless_gone d.namespace d.resource_name grace)
          else requires_pod d)
  unfolding requires_pod
  delete-Meets grace =
      Meets-if (is_pod d) _ _
        (λ pod.
          Meets-if cfg.dry_run _ _ (λ _. done _ tt)
            (λ live. delete_unless_gone-Meets k reads d.namespace d.resource_name grace (
              same.namespace,
              live,
              same.resource_name,
              subst (λ kind. equal_fold kind (codes "Pod") ≡ true) same.resource_kind pod,
            )))
        (λ _. done _ tt)

  image-Meets :
      (name image container : Bytes)
      → (cfg.allow_image_updates ≡ true) × IsConfident d₀ cfg.image_update_threshold
      → IsTargetOf gave d name
      → Meets k Anything
          (Images.set_deployment_image x d.namespace name image container cfg.dry_run)
  unfolding Images.set_deployment_image Images.validate_image is_guarded
  image-Meets name image container gate resolved =
      Meets-if (eqb (trim_space image) []) _ _ (λ _. done _ tt)
        (λ _.
          Meets-if cfg.dry_run _ _
            (λ _.
              next (get_deployment d.namespace name) _
                (reads (get_deployment d.namespace name) refl)
                (λ got _. Meets-on_ok got _ _ (λ dep _. done _ tt) (λ e. done _ tt)))
            (λ live. mutate_deployment-Meets k reads x d.namespace name _ law (
              Change-CanWrite name _ live resolved
                (λ t dep dep' made. image_set image container t gate.0 gate.1 made))))

  -- what the confidence of the executed decision says of the one that was given
  own_confidence :
      (threshold : Float64)
      → is_patch d.action ≡ false
      → IsConfident d threshold
      → IsConfident d₀ threshold
  own_confidence threshold unpatched h = elim same.source [
    | inl (kept, action) ↦ ap (λ c. lt_float c threshold) (sym kept) ∙ h
    | inr (was, now) ↦ absurd (true≢false (sym now ∙ unpatched))
  ]

  backed : (threshold : Float64) → IsConfident d threshold → IsBacked d₀ threshold
  backed threshold h = elim same.source [
    | inl (kept, action) ↦ inl (ap (λ c. lt_float c threshold) (sym kept) ∙ h)
    | inr (was, now) ↦ inr was
  ]

  pub dispatch-Meets :
      (a : Action)
      → d.action ≡ a
      → Gate cfg reason extra d a
      → Meets k Anything (dispatch x cfg a d reason extra)
  unfolding dispatch Actions.delete_pod_gracefully Actions.delete_and_recreate_pod
      Probes.patch_deployment_probe Resources.patch_deployment_resources
      Images.patch_deployment_registry
  dispatch-Meets noop is gate = done _ tt
  dispatch-Meets ask_human is gate = done _ tt
  dispatch-Meets mark_for_manual_fix is gate = done _ tt
  dispatch-Meets (other s) is gate = done _ tt
  dispatch-Meets restart_deployment is gate = with_target-Meets _ (restart-Meets gate)
  dispatch-Meets delete_failed_pod is gate = delete-Meets none
  dispatch-Meets delete_and_recreate is gate = delete-Meets (some 0)
  dispatch-Meets scale_deployment is gate = with_target-Meets _ (λ name resolved.
      Meets-on_ok (replicas_of d.parameters) _ _ (λ r _. scale-Meets gate name r resolved)
        (λ e. done _ tt))
  dispatch-Meets inspect_pod_logs is gate =
      inspect_pod_logs-Meets k reads d.namespace d.resource_kind d.resource_name d.parameters
        cfg.pod_log_tail_lines
  dispatch-Meets set_deployment_image is gate = with_target-Meets _ (λ name resolved.
      image-Meets name _ _
        (gate.0, own_confidence cfg.image_update_threshold (ap is_patch is) gate.1) resolved)
  dispatch-Meets patch_probe is gate = with_target-Meets _ (λ name resolved.
      Meets-bind _ _ (completed_probe-Meets k reads d.namespace name d.parameters) (λ r _.
        Meets-on_ok r _ _
          (λ t _. patch-Meets name _ resolved (λ at dep dep' made.
            probe_patched _ _ _ _ _ at gate.0 (backed cfg.patch_confidence_threshold gate.1) made))
          (λ e. done _ tt)))
  dispatch-Meets patch_resources is gate = with_target-Meets _ (λ name resolved.
      Meets-bind _ _
        (completed_resources-Meets k reads x d.namespace name d.parameters reason extra)
        (λ params _. patch-Meets name _ resolved (λ at dep dep' made.
          resources_patched _ _ _ _ at gate.0 (backed cfg.patch_confidence_threshold gate.1) made)))
  dispatch-Meets patch_registry is gate = with_target-Meets _ (λ name resolved.
      patch-Meets name _ resolved (λ at dep dep' made.
        registry_patched _ _ _ _ at gate.0
          (own_confidence cfg.patch_confidence_threshold (ap is_patch is) gate.1) made))
