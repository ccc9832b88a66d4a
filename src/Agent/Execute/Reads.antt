-- ===== src/Agent/Execute/Reads.antt =====
-- The escalations and the completions of executeDecision (cmd/agent/main.go) under a contract: the
-- reads they make, and the target of the decision they give.
use k8s_ai_remediator.Prelude.{
  true, inl, inr, false, ◌≡◌, refl, not, eqb, Bytes, codes, at, Map, List, ◌∙◌, subst, Option, none,
  some, ◌∷◌, [], ◌||◌,
}
use mathlib.Core.Option.{none-ne-some, some-injective}
use k8s_ai_remediator.Result.{ok}
use k8s_ai_remediator.Text.{trim_space, to_lower}
use k8s_ai_remediator.Policy.{is_oom_context, is_restart}
use k8s_ai_remediator.Model.{Decision}
use k8s_ai_remediator.Cluster.{Container}
use k8s_ai_remediator.Config.{AgentConfig}
use k8s_ai_remediator.Kube.External.{External}
use k8s_ai_remediator.Kube.OptIn.{deployment_allows_patch}
use k8s_ai_remediator.Effects.Contract.{
  Given, Contract, Meets, done, next, Anything, Meets-bind, Meets-on_ok, Meets-on_none, Meets-if,
  AllowsReads, is_guarded,
}
use k8s_ai_remediator.Kube.Reads.{resolve_deployment_target-Meets}
use k8s_ai_remediator.Registry.{newest_tag, parse_ref}
use k8s_ai_remediator.Agent.Memory.{with_oom_memory_floor, has_resource_params, chosen_container}
use k8s_ai_remediator.Agent.Escalation.{
  target_of, try_auto_patch_resources_on_oom, try_auto_patch_probe_on_unhealthy,
  derive_fallback_image, replacement_for, escalate_first, escalate_probe,
  choose_probe_from_deployment, as_patch_resources, as_patch_probe,
}
use k8s_ai_remediator.Agent.Execute.{complete_image, wants_image}
use k8s_ai_remediator.Agent.Execute.Completion.{
  completed_resources, completed_probe, is_scheduling_failure,
}
use k8s_ai_remediator.Agent.Execute.Named.{
  IsSameTarget, IsSameTarget-refl, parameter_name-insert, IsTargetOf, IsTarget-insert,
  IsTarget-same,
}

-- an escalated decision, if there is one, has the target of the decision and is no restart
abbrev pub Escalates : Given → Decision → Option Decision → Type 0
Escalates gave d o =
    (d' : Decision) → o ≡ some d' → IsSameTarget gave d d' × (is_restart d'.action ≡ false)

as_patch_resources-IsSameTarget :
    (gave : Given) (x : External) (cfg : AgentConfig) (d : Decision) (name : Bytes) (c : Container)
    → is_restart d.action ≡ true
    → IsTargetOf gave d name
    → IsSameTarget gave d (as_patch_resources x cfg d name c)
unfolding as_patch_resources eqb
as_patch_resources-IsSameTarget gave x cfg d name c was same = record {
  namespace = refl;
  resource_kind = refl;
  resource_name = refl;
  target = λ n h.
      IsTarget-insert gave d.namespace d.resource_kind d.resource_name d.parameters name n same (
        IsTarget-same gave d.namespace d.resource_kind d.resource_name _ _ n
          (parameter_name-insert (codes "memory_limit") _ _ refl refl
            ∙ parameter_name-insert (codes "container") _ _ refl refl)
          h);
  source = inr (was, refl);
}

as_patch_probe-IsSameTarget :
    (gave : Given) (cfg : AgentConfig) (d : Decision) (name container probe : Bytes)
    → is_restart d.action ≡ true
    → IsTargetOf gave d name
    → IsSameTarget gave d (as_patch_probe cfg d name container probe)
unfolding as_patch_probe eqb
as_patch_probe-IsSameTarget gave cfg d name container probe was same = record {
  namespace = refl;
  resource_kind = refl;
  resource_name = refl;
  target = λ n h.
      IsTarget-insert gave d.namespace d.resource_kind d.resource_name d.parameters name n same (
        IsTarget-same gave d.namespace d.resource_kind d.resource_name _ _ n
          (parameter_name-insert (codes "timeout_seconds") _ _ refl refl
            ∙ parameter_name-insert (codes "period_seconds") _ _ refl refl
            ∙ parameter_name-insert (codes "failure_threshold") _ _ refl refl
            ∙ parameter_name-insert (codes "probe") _ _ refl refl
            ∙ parameter_name-insert (codes "container") _ _ refl refl)
          h);
  source = inr (was, refl);
}

escalate_first-Escalates :
    (gave : Given) (x : External) (cfg : AgentConfig) (d : Decision) (name : Bytes)
    (cs : List Container)
    → is_restart d.action ≡ true
    → IsTargetOf gave d name
    → Escalates gave d (escalate_first x cfg d name cs)
unfolding as_patch_resources
escalate_first-Escalates gave x cfg d name [] was same d' e = absurd (none-ne-some _ e)
escalate_first-Escalates gave x cfg d name (c ∷ cs) was same d' e =
    subst (λ f. IsSameTarget gave d f × (is_restart f.action ≡ false)) (some-injective _ _ e)
      (as_patch_resources-IsSameTarget gave x cfg d name c was same, refl)

escalate_probe-Escalates :
    (gave : Given) (cfg : AgentConfig) (d : Decision) (name : Bytes)
    (found : Option (Bytes × Bytes))
    → is_restart d.action ≡ true
    → IsTargetOf gave d name
    → Escalates gave d (escalate_probe cfg d name found)
unfolding as_patch_probe
escalate_probe-Escalates gave cfg d name none was same d' e = absurd (none-ne-some _ e)
escalate_probe-Escalates gave cfg d name (some (c, p)) was same d' e =
    subst (λ f. IsSameTarget gave d f × (is_restart f.action ≡ false)) (some-injective _ _ e)
      (as_patch_probe-IsSameTarget gave cfg d name c p was same, refl)

-- no escalation is one
none-Escalates : (gave : Given) (d : Decision) → Escalates gave d none
none-Escalates gave d d' e = absurd (none-ne-some _ e)

module _ (k : Contract) (reads : AllowsReads k) where
  pub target_of-Meets :
      (d : Decision) → Meets k (λ r. (t : Bytes) → r ≡ ok t → IsTargetOf k.grants d t) (target_of d)
  target_of-Meets d =
      resolve_deployment_target-Meets k reads d.namespace d.resource_kind d.resource_name
        d.parameters

  pub newest_tag-Meets : (image : Bytes) → Meets k Anything (newest_tag image)
  unfolding newest_tag is_guarded
  newest_tag-Meets image =
      Meets-on_ok (parse_ref image) _ _
        (λ ref _.
          next _ _ (reads _ refl) (λ r _. Meets-on_ok r _ _ (λ tags _. done _ tt) (λ e. done _ tt)))
        (λ e. done _ tt)

  replacement_for-Meets :
      (cfg : AgentConfig) (current : Bytes) → Meets k Anything (replacement_for cfg current)
  unfolding replacement_for
  replacement_for-Meets cfg current =
      Meets-if cfg.image_tag_discovery _ _
        (λ _. Meets-bind _ _ (newest_tag-Meets current) (λ r _. done _ tt)) (λ _. done _ tt)

  derive_fallback_image-Meets :
      (cfg : AgentConfig) (d : Decision) → Meets k Anything (derive_fallback_image cfg d)
  unfolding derive_fallback_image is_guarded
  derive_fallback_image-Meets cfg d = Meets-bind _ _ (target_of-Meets d) (λ r _.
      Meets-on_ok r _ _
        (λ name _. next _ _ (reads _ refl) (λ got _.
          Meets-on_ok got _ _
            (λ dep _.
              Meets-on_none (chosen_container dep.containers (at (codes "container") d.parameters))
                _ _ (λ _. done _ tt) (λ c _. replacement_for-Meets cfg c.image))
            (λ e. done _ tt)))
        (λ e. done _ tt))

  pub complete_image-Meets :
      (cfg : AgentConfig) (d : Decision)
      → Meets k (λ d'. IsSameTarget k.grants d d' × (d'.action ≡ d.action)) (complete_image cfg d)
  unfolding complete_image eqb
  complete_image-Meets cfg d =
      Meets-if (wants_image cfg d) _ _
        (λ _. Meets-bind _ _ (derive_fallback_image-Meets cfg d) (λ found _.
          Meets-on_none found _ _ (λ _. done _ (IsSameTarget-refl k.grants d, refl))
            (λ image _. done _ (
              (record {
                namespace = refl;
                resource_kind = refl;
                resource_name = refl;
                target = λ n.
                    IsTarget-same k.grants d.namespace d.resource_kind d.resource_name _ _ n
                      (parameter_name-insert (codes "image") image d.parameters refl refl);
                source = inl (refl, refl);
              }),
              refl,
            ))))
        (λ _. done _ (IsSameTarget-refl k.grants d, refl))

  with_oom_memory_floor-Meets :
      (x : External) (ns dep : Bytes) (params : Map Bytes)
      → Meets k Anything (with_oom_memory_floor x ns dep params)
  unfolding with_oom_memory_floor is_guarded
  with_oom_memory_floor-Meets x ns dep params =
      next _ _ (reads _ refl) (λ r _. Meets-on_ok r _ _ (λ d _. done _ tt) (λ e. done _ tt))

  pub completed_resources-Meets :
      (x : External) (ns dep : Bytes) (params : Map Bytes) (reason extra : Bytes)
      → Meets k Anything (completed_resources x ns dep params reason extra)
  unfolding completed_resources
  completed_resources-Meets x ns dep params reason extra =
      Meets-if (is_oom_context extra) _ _ (λ _. with_oom_memory_floor-Meets x ns dep params)
        (λ _.
          Meets-if (has_resource_params params) _ _ (λ _. done _ tt)
            (λ _.
              Meets-if (is_scheduling_failure reason) _ _ (λ _. done _ tt)
                (λ _. with_oom_memory_floor-Meets x ns dep params)))

  pub completed_probe-Meets :
      (ns dep : Bytes) (params : Map Bytes) → Meets k Anything (completed_probe ns dep params)
  unfolding completed_probe is_guarded
  completed_probe-Meets ns dep params =
      let probe_type = to_lower (trim_space (at (codes "probe") params)) in
      Meets-if (eqb probe_type (codes "readiness") || eqb probe_type (codes "liveness")) _ _
        (λ _. done _ tt)
        (λ _.
          next _ _ (reads _ refl) (λ r _. Meets-on_ok r _ _ (λ d _. done _ tt) (λ e. done _ tt)))

  pub try_auto_patch_resources_on_oom-Meets :
      (x : External) (cfg : AgentConfig) (d : Decision)
      → is_restart d.action ≡ true
      → Meets k (Escalates k.grants d) (try_auto_patch_resources_on_oom x cfg d)
  unfolding try_auto_patch_resources_on_oom is_guarded
  try_auto_patch_resources_on_oom-Meets x cfg d was =
      Meets-if (not cfg.allow_patch_resources) _ _ (λ _. done _ (none-Escalates k.grants d))
        (λ _. Meets-bind _ _ (target_of-Meets d) (λ r same.
          Meets-on_ok r _ _
            (λ name is_name. next _ _ (reads _ refl) (λ got _.
              Meets-on_ok got _ _
                (λ dep _.
                  Meets-if (not (deployment_allows_patch dep (codes "resources"))) _ _
                    (λ _. done _ (none-Escalates k.grants d))
                    (λ _. done _ (
                      escalate_first-Escalates k.grants x cfg d name dep.containers was
                        (same name is_name))))
                (λ e. done _ (none-Escalates k.grants d))))
            (λ e. done _ (none-Escalates k.grants d))))

  pub try_auto_patch_probe_on_unhealthy-Meets :
      (cfg : AgentConfig) (d : Decision)
      → is_restart d.action ≡ true
      → Meets k (Escalates k.grants d) (try_auto_patch_probe_on_unhealthy cfg d)
  unfolding try_auto_patch_probe_on_unhealthy is_guarded
  try_auto_patch_probe_on_unhealthy-Meets cfg d was =
      Meets-if (not cfg.allow_patch_probe) _ _ (λ _. done _ (none-Escalates k.grants d))
        (λ _. Meets-bind _ _ (target_of-Meets d) (λ r same.
          Meets-on_ok r _ _
            (λ name is_name. next _ _ (reads _ refl) (λ got _.
              Meets-on_ok got _ _
                (λ dep _.
                  Meets-if (not (deployment_allows_patch dep (codes "probe"))) _ _
                    (λ _. done _ (none-Escalates k.grants d))
                    (λ _. done _ (
                      escalate_probe-Escalates k.grants cfg d name
                        (choose_probe_from_deployment dep) was (same name is_name))))
                (λ e. done _ (none-Escalates k.grants d))))
            (λ e. done _ (none-Escalates k.grants d))))
