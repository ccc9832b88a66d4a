-- ===== src/Agent/Poll/Target.antt =====
-- The stable target of an event and the context for the prompt: a Pod owned by a Deployment counts
-- as that Deployment.
use k8s_ai_remediator.Prelude.{Bytes, codes, ◌++◌, [], eqb, if◌then◌else◌}
use k8s_ai_remediator.Text.{equal_fold}
use k8s_ai_remediator.Cluster.{Event}
use k8s_ai_remediator.Effects.{Prog, ret, ◌>>=◌, on_ok, on_none}
use k8s_ai_remediator.Kube.Resolve.{resolve_deployment_from_pod, infer_deployment_from_pod_name}
use k8s_ai_remediator.Kube.Snapshot.{deployment_snapshot, pod_status_summary}
use k8s_ai_remediator.Agent.Signals.{canonical_reason}

-- `dedupKind`, `dedupName` and `extra`
pub record Incident : Type 0 where
  pub kind : Bytes
  pub name : Bytes
  pub extra : Bytes

unfoldable pub owned_by : Event → Bytes → Bytes → Prog Incident
owned_by e intro dep_name = do
  snapshot ← deployment_snapshot e.namespace dep_name
  ret (record {
    kind = codes "Deployment";
    name = dep_name;
    extra = intro ++ (dep_name ++ (codes "\n" ++ snapshot));
  })

abbrev pub plain : Event → Bytes → Incident
plain e extra = record { kind = e.object_kind; name = e.object_name; extra = extra }

-- by owner references, or else by the naming convention
unfoldable pub owner_incident : Event → Incident → Prog Incident
unfolding owned_by
owner_incident e start = do
  resolved ← resolve_deployment_from_pod e.namespace e.object_name
  on_ok resolved (owned_by e (codes "Resolved owner deployment: ")) (λ failure. do
    inferred ← infer_deployment_from_pod_name e.namespace e.object_name
    on_none inferred (ret start) (owned_by e (codes "Inferred owner deployment from pod name: ")))

-- the pod's own state behind the context so far
abbrev pub with_status : Incident → Bytes → Incident
with_status i status =
    if eqb status []
    then i
    else record i { extra = (if eqb i.extra [] then status else i.extra ++ (codes "\n" ++ status)) }

unfoldable pub pod_incident : Event → Incident → Prog Incident
unfolding owner_incident
pod_incident e start = do
  i ← owner_incident e start
  status ← pod_status_summary e.namespace e.object_name
  ret (with_status i status)

unfoldable pub incident_of : Event → Prog Incident
unfolding pod_incident
incident_of e =
    if equal_fold e.object_kind (codes "Deployment")
    then (do snapshot ← deployment_snapshot e.namespace e.object_name; ret (plain e snapshot))
    else if equal_fold e.object_kind (codes "Pod")
    then pod_incident e (plain e [])
    else ret (plain e [])

unfoldable pub signal_of : Event → Incident → Bytes
signal_of e i =
    e.namespace
    ++ (codes "|"
        ++ (i.kind
            ++ (codes "|" ++ (i.name ++ (codes "|" ++ canonical_reason e.reason e.message)))))
