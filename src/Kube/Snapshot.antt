-- ===== src/Kube/Snapshot.antt =====
-- DeploymentToText, DeploymentSnapshot and PodStatusSummary. Go visits the two probes of a container
-- in no fixed order; here readiness comes first.
use k8s_ai_remediator.Prelude.{
  Bytes, codes, ◌++◌, List, [], ◌∷◌, Option, none, some, Bool, ℤ, pos, at, eqb, map, if◌then◌else◌,
}
use k8s_ai_remediator.Text.{trim_space, join}
use k8s_ai_remediator.Text.Numbers.{itoa}
use k8s_ai_remediator.Cluster.{
  Quantity, Probe, Container, Deployment, Pod, ContainerStatus, Terminated,
}
use k8s_ai_remediator.Effects.{Prog, ret, ask, get_deployment, get_pod, ◌>>=◌, on_ok}
use k8s_ai_remediator.Kube.OptIn.{allow_patch_annotation}

abbrev quantity_part : Bytes → Option Quantity → List Bytes → List Bytes
quantity_part key none rest = rest
quantity_part key (some q) rest = (key ++ q.shown) ∷ rest

-- the line of a container's quantities, if it has any
resource_line : Container → Bytes
resource_line c =
    let parts = quantity_part (codes "cpu_request=") c.cpu_request (
      quantity_part (codes "memory_request=") c.memory_request (
        quantity_part (codes "cpu_limit=") c.cpu_limit
          (quantity_part (codes "memory_limit=") c.memory_limit []))) in
    elim parts [
      | [] ↦ []
      | p ∷ ps ↦
          codes "\nContainer " ++ (c.name ++ (codes " resources: " ++ join (codes " ") (p ∷ ps)))
    ]

probe_line : Bytes → Bytes → Option Probe → Bytes
probe_line container probe_name none = []
probe_line container probe_name (some p) =
    codes "\nContainer "
    ++ (container
        ++ (codes " "
            ++ (probe_name
                ++ (codes ": initialDelay="
                    ++ (itoa p.initial_delay_seconds
                        ++ (codes " period="
                            ++ (itoa p.period_seconds
                                ++ (codes " failureThreshold="
                                    ++ (itoa p.failure_threshold
                                        ++ (codes " successThreshold="
                                            ++ (itoa p.success_threshold
                                                ++ (codes " timeout="
                                                    ++ itoa p.timeout_seconds))))))))))))

probe_lines : Container → Bytes
unfolding probe_line
probe_lines c =
    probe_line c.name (codes "readinessProbe") c.readiness
    ++ probe_line c.name (codes "livenessProbe") c.liveness

replicas_or_one : Option ℤ → ℤ
replicas_or_one none = pos 1
replicas_or_one (some r) = r

pub deployment_to_text : Deployment → Bytes
unfolding resource_line probe_lines replicas_or_one
deployment_to_text dep =
    let scopes = trim_space (at allow_patch_annotation dep.annotations) in
    codes "Deployment snapshot: name="
    ++ (dep.name
        ++ (codes " replicas="
            ++ (itoa (replicas_or_one dep.replicas)
                ++ (codes " containers="
                    ++ (join (codes ";")
                          (map (λ c. c.name ++ (codes "=" ++ c.image)) dep.containers)
                        ++ (codes "\nAllow-patch scopes (opt-in via annotation): "
                            ++ ((if eqb scopes [] then codes "none" else scopes)
                                ++ (join [] (map resource_line dep.containers)
                                    ++ join [] (map probe_lines dep.containers)))))))))

unfoldable pub deployment_snapshot : Bytes → Bytes → Prog Bytes
deployment_snapshot ns name = do
  got ← ask (get_deployment ns name)
  on_ok got (λ dep. ret (deployment_to_text dep)) (λ e. ret [])

abbrev with_reason : Bytes → Option Terminated → List Bytes → List Bytes
with_reason prefix none rest = rest
with_reason prefix (some t) rest =
    (prefix ++ (codes " reason=" ++ (t.reason ++ (codes " exit=" ++ itoa t.exit_code)))) ∷ rest

abbrev with_waiting : Option Bytes → List Bytes → List Bytes
with_waiting none rest = rest
with_waiting (some reason) rest = (codes "state=Waiting reason=" ++ reason) ∷ rest

abbrev with_running : Bool → List Bytes → List Bytes
with_running running rest = if running then codes "state=Running" ∷ rest else rest

status_line : ContainerStatus → Bytes
status_line st = join (codes " ") (
    (codes "container="
      ++ (st.name
          ++ (codes " restarts="
              ++ (itoa st.restart_count
                  ++ (codes " ready=" ++ (if st.ready then codes "true" else codes "false"))))))
    ∷ with_waiting st.waiting (
        with_reason (codes "state=Terminated") st.terminated
          (with_running st.running (with_reason (codes "lastTerminated") st.last_terminated []))))

pub pod_to_text : Pod → Bytes
unfolding status_line
pod_to_text pod = join (codes "\n") (
    (codes "Pod "
      ++ (pod.name
          ++ (codes " phase=" ++ (pod.phase ++ (codes " restartPolicy=" ++ pod.restart_policy)))))
    ∷ map status_line pod.statuses)

unfoldable pub pod_status_summary : Bytes → Bytes → Prog Bytes
pod_status_summary ns pod_name = do
  got ← ask (get_pod ns pod_name)
  on_ok got (λ pod. ret (pod_to_text pod)) (λ e. ret [])
