-- ===== src/Agent/Poll/Refinement/Pinned.antt =====
-- The incident of an event and the pinning of the decision to it (cmd/agent/main.go).
use mathlib.Core.Option.{some-injective}
use k8s_ai_remediator.Prelude.{
  ◌≡◌, inl, inr, not, ◌&&◌, Option, none, Bool-cases, if◌then◌else◌, refl, ap, ◌∙◌, sym, true,
  false, Bytes, codes, insert, erase, Map, eqb, some, [], ◌∷◌, subst,
}
use k8s_ai_remediator.Text.{equal_fold, trim_space}
use k8s_ai_remediator.Cluster.{Event}
use k8s_ai_remediator.Model.{Decision}
use k8s_ai_remediator.Effects.Contract.{
  Contract, Meets, done, Meets-bind, Meets-on_none, Meets-if, AllowsReads, Meets-weaken, Given,
  Meets-on_result,
}
use k8s_ai_remediator.Kube.Targets.{first_filled, parameter_name}
use k8s_ai_remediator.Kube.Reads.{
  resolve_deployment_from_pod-Meets, infer_deployment_from_pod_name-Meets,
  deployment_snapshot-Meets, pod_status_summary-Meets,
}
use k8s_ai_remediator.Agent.Execute.Named.{at-insert-same, at-erase-other}
use k8s_ai_remediator.Agent.Poll.{pin_decision}
use k8s_ai_remediator.Agent.Poll.Target.{
  Incident, incident_of, owner_incident, owned_by, pod_incident, with_status,
}
use k8s_ai_remediator.Agent.Poll.Contract.{
  Anchor, on_deployment, owned, inferred, elsewhere, Restricts,
}
use k8s_ai_remediator.Result.{Error, ok, err}
use k8s_ai_remediator.Kube.Owners.{IsOwner, NoOwner, IsInferred, Resolved}
use k8s_ai_remediator.Kube.Targets.{IsTarget, by_parameter, by_object, by_owner}
use k8s_ai_remediator.Agent.Execute.Named.{IsTargetOf}

-- the Deployment that an incident is on, if it is on one
abbrev pub IsOn : Option Bytes → Incident → Type 0
IsOn (some t) i = (equal_fold i.kind (codes "Deployment") ≡ true) × (i.name ≡ t)
IsOn none i = equal_fold i.kind (codes "Deployment") ≡ false

-- An incident is on the Deployment that stands for its event.
abbrev pub IsIncident : Given → Event → Incident → Type 0
IsIncident gave e i = (o : Option Bytes) × Anchor gave e o × IsOn o i

IsOn-status :
    (o : Option Bytes) (i : Incident) (status : Bytes) → IsOn o i → IsOn o (with_status i status)
IsOn-status none i status h = elim (Bool-cases (eqb status [])) [
  | inl blank ↦ rw blank h
  | inr some_text ↦ rw some_text h
]
IsOn-status (some t) i status h = elim (Bool-cases (eqb status [])) [
  | inl blank ↦ rw blank h
  | inr some_text ↦ rw some_text h
]

Resolved-IsOwner :
    (gave : Given) (ns pod name : Bytes) → Resolved gave ns pod (ok name) → IsOwner gave ns pod name
unfolding Resolved
Resolved-IsOwner gave ns pod name h = h

Resolved-NoOwner :
    (gave : Given) (ns pod : Bytes) (e : Error) → Resolved gave ns pod (err e) → NoOwner gave ns pod
unfolding Resolved
Resolved-NoOwner gave ns pod e h = h

-- a target where the parameters name one
named_only :
    (gave : Given) (ns kind object : Bytes) (m : Map Bytes) (name t : Bytes)
    → parameter_name m ≡ some t
    → IsTarget gave ns kind object m name
    → name ≡ t
named_only gave ns kind object m name t named (by_parameter h) = some-injective _ _ (sym h ∙ named)
named_only gave ns kind object m name t named (by_object absent is h) =
    absurd (cc (sym named ∙ absent))
named_only gave ns kind object m name t named (by_owner owner absent is owns h) =
    absurd (cc (sym named ∙ absent))

module _ (k : Contract) (reads : AllowsReads k) (e : Event) where
  owned_by-Meets : (intro name : Bytes) → Meets k (IsOn (some name)) (owned_by e intro name)
  unfolding owned_by equal_fold
  owned_by-Meets intro name =
      Meets-bind _ _ (deployment_snapshot-Meets k reads e.namespace name)
        (λ s _. done _ (refl, refl))

  owner_incident-Meets :
      (start : Incident)
      → equal_fold e.object_kind (codes "Pod") ≡ true
      → IsOn none start
      → Meets k (IsIncident k.grants e) (owner_incident e start)
  unfolding owner_incident
  owner_incident-Meets start pod other =
      Meets-bind _ _ (resolve_deployment_from_pod-Meets k reads e.namespace e.object_name)
        (λ r resolved.
          Meets-on_result r _ _
            (λ name is_name.
              Meets-weaken _ _
                (λ i on. (
                  some name,
                  owned name pod (
                      Resolved-IsOwner k.grants e.namespace e.object_name name
                        (subst (Resolved k.grants e.namespace e.object_name) is_name resolved)),
                  on,
                ))
                (owned_by-Meets (codes "Resolved owner deployment: ") name))
            (λ failure is_failure.
              let unowned =
                Resolved-NoOwner k.grants e.namespace e.object_name failure
                  (subst (Resolved k.grants e.namespace e.object_name) is_failure resolved) in
              Meets-bind _ _
                (infer_deployment_from_pod_name-Meets k reads e.namespace e.object_name)
                (λ o guess.
                  Meets-on_none o _ _
                    (λ absent. done _ (
                      none,
                      inferred none pod unowned
                          (subst (IsInferred k.grants e.namespace e.object_name) absent guess),
                      other,
                    ))
                    (λ name is_name.
                      Meets-weaken _ _
                        (λ i on. (
                          some name,
                          inferred (some name) pod unowned
                              (subst (IsInferred k.grants e.namespace e.object_name) is_name guess),
                          on,
                        ))
                        (owned_by-Meets (codes "Inferred owner deployment from pod name: ")
                          name)))))

  pod_incident-Meets :
      (start : Incident)
      → equal_fold e.object_kind (codes "Pod") ≡ true
      → IsOn none start
      → Meets k (IsIncident k.grants e) (pod_incident e start)
  unfolding pod_incident
  pod_incident-Meets start pod other =
      Meets-bind _ _ (owner_incident-Meets start pod other) (λ i (o, anchor, on).
        Meets-bind _ _ (pod_status_summary-Meets k reads e.namespace e.object_name)
          (λ s _. done _ (o, anchor, IsOn-status o i s on)))

  pub incident_of-Meets : Meets k (IsIncident k.grants e) (incident_of e)
  unfolding incident_of
  incident_of-Meets =
      Meets-if (equal_fold e.object_kind (codes "Deployment")) _ _
        (λ same.
          Meets-bind _ _ (deployment_snapshot-Meets k reads e.namespace e.object_name)
            (λ s _. done _ (some e.object_name, on_deployment same, (same, refl))))
        (λ other.
          Meets-if (equal_fold e.object_kind (codes "Pod")) _ _
            (λ pod. pod_incident-Meets _ pod other)
            (λ not_pod. done _ (none, elsewhere other not_pod, other)))

trim_space_blank : (s : Bytes) → eqb (trim_space s) [] ≡ false → eqb s [] ≡ false
unfolding trim_space eqb
trim_space_blank [] h = h
trim_space_blank (c ∷ s) h = refl

pinned_parameters :
    (m : Map Bytes) (name : Bytes)
    → eqb (trim_space name) [] ≡ false
    → parameter_name (erase (codes "deployment") (insert (codes "deployment_name") name m))
      ≡ some (trim_space name)
unfolding first_filled eqb
pinned_parameters m name full =
    rw
      (
        at-erase-other (codes "deployment") (codes "deployment_name")
            (insert (codes "deployment_name") name m) refl,
        at-insert-same (codes "deployment_name") name m refl,
        full,
      )
      refl

-- The target of a pinned decision is the one that stands for the event.
pub pinned-Restricts :
    (gave : Given) (e : Event) (i : Incident) (raw : Decision) (o : Option Bytes) (name : Bytes)
    → IsOn o i
    → IsTargetOf gave (pin_decision e i raw) name
    → Restricts gave e raw o name
unfolding pin_decision
pinned-Restricts gave e i raw none name other h =
    subst (λ m. IsTarget gave e.namespace e.object_kind e.object_name m name)
      (ap
        (λ b.
          if b && not (eqb i.name [])
          then erase (codes "deployment") (insert (codes "deployment_name") i.name raw.parameters)
          else raw.parameters)
        other)
      h
pinned-Restricts gave e i raw (some t) name (kind, is_t) h =
    elim (Bool-cases (eqb (trim_space t) [])) [
      | inl blank ↦ inl blank
      | inr full ↦
          let full' = subst (λ n. eqb (trim_space n) [] ≡ false) (sym is_t) full in
          let pinned : parameter_name (
                if equal_fold i.kind (codes "Deployment") && not (eqb i.name [])
                then erase (codes "deployment")
                    (insert (codes "deployment_name") i.name raw.parameters)
                else raw.parameters)
              ≡ some (trim_space i.name) =
            rw (kind, trim_space_blank i.name full')
              (pinned_parameters raw.parameters i.name full') in
          inr (
            named_only gave e.namespace e.object_kind e.object_name _ name _
              (pinned ∙ ap some (ap trim_space is_t)) h)
    ]
