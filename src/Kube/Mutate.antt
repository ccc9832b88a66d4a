-- ===== src/Kube/Mutate.antt =====
-- mutateDeployment, and the dry-run path that the patches share. A mutation reads the time, so it
-- takes a timestamp.
use k8s_ai_remediator.Prelude.{Bytes, Option, none, some, Bool, if◌then◌else◌}
use k8s_ai_remediator.Result.{Error, Result}
use k8s_ai_remediator.Cluster.{Deployment}
use k8s_ai_remediator.Effects.{
  Prog, ret, ask, get_deployment, now_rfc3339, update_deployment, ◌>>=◌, on_ok,
}
use k8s_ai_remediator.Kube.External.{External}

abbrev pub Mutation : Type 0
Mutation = Bytes → Deployment → Result Deployment

-- one round: read, mutate, write back
unfoldable pub attempt : Bytes → Bytes → Mutation → Prog (Option Error)
attempt ns name mutate = do
  got ← ask (get_deployment ns name)
  on_ok got
      (λ dep. do
        at ← ask now_rfc3339
        on_ok (mutate at dep) (λ dep'. ask (update_deployment ns dep')) (λ e. ret (some e)))
      (λ e. ret (some e))

unfoldable pub mutate_deployment : External → Bytes → Bytes → Mutation → Prog (Option Error)
unfolding attempt
mutate_deployment x ns name mutate = x.retry_on_conflict (attempt ns name mutate)

-- `dep, err := Get(…); …; return apply(dep)`
unfoldable pub validate_only : Bytes → Bytes → Mutation → Prog (Option Error)
validate_only ns name mutate = do
  got ← ask (get_deployment ns name)
  on_ok got
      (λ dep. do at ← ask now_rfc3339; on_ok (mutate at dep) (λ dep'. ret none) (λ e. ret (some e)))
      (λ e. ret (some e))

unfoldable pub apply_patch : External → Bytes → Bytes → Mutation → Bool → Prog (Option Error)
unfolding mutate_deployment validate_only
apply_patch x ns name mutate dry_run =
    if dry_run then validate_only ns name mutate else mutate_deployment x ns name mutate
