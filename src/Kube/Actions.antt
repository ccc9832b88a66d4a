-- ===== src/Kube/Actions.antt =====
-- RestartDeployment, DeletePod, DeleteAndRecreatePod and ScaleDeployment.
use k8s_ai_remediator.Prelude.{
  ℕ, Bytes, codes, [], ◌∷◌, Option, none, some, Bool, ◌||◌, ℤ, pos, ltb_ℤ, insert, if◌then◌else◌,
}
use k8s_ai_remediator.Result.{Error, ok, errorf, is_not_found}
use k8s_ai_remediator.Text.Numbers.{itoa}
use k8s_ai_remediator.Effects.{Prog, ret, ask, delete_pod, ◌>>=◌, on_none}
use k8s_ai_remediator.Kube.External.{External}
use k8s_ai_remediator.Kube.LastChange.{set_last_change_annotation}
use k8s_ai_remediator.Kube.Mutate.{Mutation, mutate_deployment}

unfoldable pub stamp_restart : Mutation
stamp_restart at dep = ok (record dep {
  template_annotations = insert (codes "ai-remediator/restarted-at") at dep.template_annotations;
})

unfoldable pub restart_deployment : External → Bytes → Bytes → Bool → Prog (Option Error)
unfolding stamp_restart
restart_deployment x ns name dry_run =
    if dry_run then ret none else mutate_deployment x ns name stamp_restart

-- the call of both deletions; a pod that is gone counts as deleted
unfoldable pub delete_unless_gone : Bytes → Bytes → Option ℕ → Prog (Option Error)
delete_unless_gone ns name grace = do
  e ← ask (delete_pod ns name grace)
  on_none e (ret none) (λ failure. ret (if is_not_found failure then none else some failure))

unfoldable pub delete_pod_gracefully : Bytes → Bytes → Bool → Prog (Option Error)
unfolding delete_unless_gone
delete_pod_gracefully ns name dry_run =
    if dry_run then ret none else delete_unless_gone ns name none

unfoldable pub delete_and_recreate_pod : Bytes → Bytes → Bool → Prog (Option Error)
unfolding delete_unless_gone
delete_and_recreate_pod ns name dry_run =
    if dry_run then ret none else delete_unless_gone ns name (some 0)

abbrev replicas_or_one : Option ℤ → ℤ
replicas_or_one none = pos 1
replicas_or_one (some r) = r

unfoldable pub set_replicas : ℤ → Mutation
set_replicas replicas at dep =
    let previous = (codes "replicas", itoa (replicas_or_one dep.replicas)) ∷ [] in
    ok (record (set_last_change_annotation dep (codes "scale_deployment") [] previous at) {
      replicas = some replicas;
    })

unfoldable pub scale_deployment : External → Bytes → Bytes → ℤ → ℤ → ℤ → Bool → Prog (Option Error)
unfolding set_replicas
scale_deployment x ns name replicas min_scale max_scale dry_run =
    if ltb_ℤ replicas min_scale || ltb_ℤ max_scale replicas
    then ret (some (errorf (codes "replicas outside policy")))
    else if dry_run
    then ret none
    else mutate_deployment x ns name (set_replicas replicas)
