-- ===== src/Kube/Resolve.antt =====
-- From a Pod or the decision's parameters to the Deployment: ResolveDeploymentFromPod,
-- InferDeploymentFromPodName, FirstPodForDeployment, ResolveDeploymentTarget.
use k8s_ai_remediator.Prelude.{
  Bytes, codes, ◌++◌, List, [], ◌∷◌, Option, none, some, eqb, length, ltb, Map, at, if◌then◌else◌,
}
use k8s_ai_remediator.Result.{Result, ok, err, fail}
use k8s_ai_remediator.Text.{trim_space, equal_fold, split, join}
use k8s_ai_remediator.Cluster.{Owner, Pod}
use k8s_ai_remediator.Effects.{
  Prog, ret, ask, get_pod, get_replica_set, get_deployment, list_pods, ◌>>=◌, on_ok, on_none,
}

-- the first owner that is a Deployment
unfoldable pub deployment_owner : List Owner → Option Bytes
deployment_owner [] = none
deployment_owner (o ∷ os) =
    if eqb o.kind (codes "Deployment") then some o.name else deployment_owner os

-- the loop over the pod's owner references
unfoldable pub follow_owners : Bytes → List Owner → Prog (Result Bytes)
unfolding deployment_owner
follow_owners ns [] = ret (fail (codes "deployment owner not found"))
follow_owners ns (o ∷ os) =
    let rest = follow_owners ns os in
    if eqb o.kind (codes "ReplicaSet")
    then (do
      rs ← ask (get_replica_set ns o.name)
      on_ok rs (λ r. on_none (deployment_owner r.owners) rest (λ name. ret (ok name)))
          (λ e. ret (err e)))
    else rest

unfoldable pub resolve_deployment_from_pod : Bytes → Bytes → Prog (Result Bytes)
unfolding follow_owners
resolve_deployment_from_pod ns pod_name = do
  pod ← ask (get_pod ns pod_name)
  on_ok pod (λ p. follow_owners ns p.owners) (λ e. ret (err e))

-- all parts but the last
unfoldable pub init : List Bytes → List Bytes
init [] = []
init (p ∷ []) = []
init (p ∷ q ∷ ps) = p ∷ init (q ∷ ps)

-- the naming convention, tried when the ReplicaSet cannot be read
infer_candidate : Bytes → Bytes → Prog (Option Bytes)
infer_candidate ns candidate = do
  got ← ask (get_deployment ns candidate)
  on_ok got (λ d. ret (some candidate)) (λ e. ret none)

unfoldable pub infer_deployment_from_pod_name : Bytes → Bytes → Prog (Option Bytes)
unfolding init infer_candidate deployment_owner
infer_deployment_from_pod_name ns pod_name =
    let parts = split b'-' pod_name in
    if ltb (length parts) 3 then ret none else (do
      rs ← ask (get_replica_set ns (join (codes "-") (init parts)))
      on_ok rs (λ r. ret (deployment_owner r.owners))
          (λ e. infer_candidate ns (join (codes "-") (init (init parts)))))

-- `k=v` for each label; Go visits the map in no fixed order
unfoldable pub selector_parts : Map Bytes → List Bytes
selector_parts [] = []
selector_parts ((k, v) ∷ m) = (k ++ (b'=' ∷ v)) ∷ selector_parts m

abbrev pub first_name : List Pod → Result Bytes
first_name [] = fail (codes "no pods found for deployment")
first_name (p ∷ ps) = ok p.name

unfoldable pub list_first : Bytes → Map Bytes → Prog (Result Bytes)
list_first ns [] = ret (fail (codes "deployment selector not usable"))
list_first ns (l ∷ ls) = do
  pods ← ask (list_pods ns (join (codes ",") (selector_parts (l ∷ ls))))
  on_ok pods (λ ps. ret (first_name ps)) (λ e. ret (err e))

unfoldable pub first_pod_for_deployment : Bytes → Bytes → Prog (Result Bytes)
unfolding list_first selector_parts
first_pod_for_deployment ns deployment_name = do
  got ← ask (get_deployment ns deployment_name)
  on_ok got (λ dep. list_first ns dep.match_labels) (λ e. ret (err e))

-- the name in the parameters, `deployment_name` before `deployment`
unfoldable pub named_target : Map Bytes → Option Bytes
named_target params =
    let a = trim_space (at (codes "deployment_name") params) in
    let b = trim_space (at (codes "deployment") params) in
    if eqb a [] then (if eqb b [] then none else some b) else some a

unfoldable pub resolve_deployment_target : Bytes → Bytes → Bytes → Map Bytes → Prog (Result Bytes)
unfolding named_target
resolve_deployment_target ns kind name params =
    on_none (named_target params)
      (if equal_fold kind (codes "Deployment")
        then ret (ok name)
        else if equal_fold kind (codes "Pod")
        then resolve_deployment_from_pod ns name
        else ret (fail (codes "cannot resolve deployment from kind=" ++ kind)))
      (λ v. ret (ok v))
