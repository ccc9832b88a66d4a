-- ===== src/Kube/Logs.antt =====
-- ChooseContainerForLogs and InspectPodLogs. The bodies go to the debug log only.
use k8s_ai_remediator.Prelude.{
  Bytes, codes, ◌++◌, List, [], ◌∷◌, Option, none, some, Bool, not, ◌||◌, ◌&&◌, true, false, ℤ,
  negsuc, ltb_ℤ, Map, at, eqb, any_of, if◌then◌else◌,
}
use k8s_ai_remediator.Result.{Error, Result, err, errorf, is_not_found}
use k8s_ai_remediator.Text.{equal_fold}
use k8s_ai_remediator.Cluster.{Pod, ContainerStatus}
use k8s_ai_remediator.Effects.{Prog, ret, ask, get_pod, read_logs, ◌>>=◌, on_ok}
use k8s_ai_remediator.Kube.Resolve.{first_pod_for_deployment}

-- the loop over the statuses: the first one with the most restarts
unfoldable pub most_restarted : ℤ → Bytes → List ContainerStatus → Bytes
most_restarted max selected [] = selected
most_restarted max selected (st ∷ sts) =
    let more = ltb_ℤ max st.restart_count in
    most_restarted (if more then st.restart_count else max) (if more then st.name else selected) sts

abbrev first_or_blank : List Bytes → Bytes
first_or_blank [] = []
first_or_blank (c ∷ cs) = c

unfoldable pub choose_container_for_logs : Pod → Bytes → Bytes
unfolding most_restarted
choose_container_for_logs pod preferred =
    let selected = most_restarted (negsuc 0) [] pod.statuses in
    if not (eqb preferred []) && any_of (λ c. eqb c preferred) pod.containers
    then preferred
    else if not (eqb selected [])
    then selected
    else first_or_blank pod.containers

abbrev any_not_found : Error → Error → Bool
any_not_found a b = is_not_found a || is_not_found b

-- the outcome of the two reads
unfoldable pub logs_outcome : Bytes → Result Bytes → Result Bytes → Option Error
logs_outcome container (err a) (err b) =
    if any_not_found a b
    then none
    else some (
        errorf (
          codes "cannot read current or previous logs for container "
          ++ (container ++ (codes ": current=" ++ (a.text ++ (codes " previous=" ++ b.text))))))
logs_outcome _ _ _ = none

unfoldable pub inspect_pod : Bytes → Bytes → Map Bytes → ℤ → Prog (Option Error)
unfolding choose_container_for_logs logs_outcome
inspect_pod ns pod_name params tail_lines = do
  got ← ask (get_pod ns pod_name)
  on_ok got
      (λ pod.
        let container = choose_container_for_logs pod (at (codes "container") params) in
        if eqb container []
        then ret (some (errorf (codes "no container available for pod " ++ pod_name)))
        else (do
          current ← ask (read_logs ns pod_name container false tail_lines)
          previous ← ask (read_logs ns pod_name container true tail_lines)
          ret (logs_outcome container current previous)))
      (λ e. ret (if is_not_found e then none else some e))

unfoldable pub inspect_pod_logs : Bytes → Bytes → Bytes → Map Bytes → ℤ → Prog (Option Error)
unfolding inspect_pod
inspect_pod_logs ns kind name params tail_lines =
    if equal_fold kind (codes "Deployment")
    then (do
      found ← first_pod_for_deployment ns name
      on_ok found (λ pod_name. inspect_pod ns pod_name params tail_lines) (λ e. ret (some e)))
    else if equal_fold kind (codes "Pod")
    then inspect_pod ns name params tail_lines
    else ret (some (errorf (codes "inspect_pod_logs requires resource_kind=Pod or Deployment")))
