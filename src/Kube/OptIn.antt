-- ===== src/Kube/OptIn.antt =====
-- DeploymentAllowsPatch: the per-Deployment opt-in to the patch actions.
use k8s_ai_remediator.Prelude.{Bytes, codes, Bool, false, ◌||◌, [], any_of, at, eqb, if◌then◌else◌}
use k8s_ai_remediator.Text.{trim_space, to_lower, split}
use k8s_ai_remediator.Cluster.{Deployment}

unfoldable pub allow_patch_annotation : Bytes
allow_patch_annotation = codes "ai-remediator/allow-patch"

-- one entry of the comma-separated list
unfoldable pub is_scope : Bytes → Bytes → Bool
is_scope scope part =
    let p = trim_space (to_lower part) in eqb p (codes "*") || eqb p (to_lower scope)

unfoldable pub deployment_allows_patch : Deployment → Bytes → Bool
unfolding allow_patch_annotation
deployment_allows_patch dep scope =
    let raw = trim_space (at allow_patch_annotation dep.annotations) in
    if eqb raw [] then false else any_of (is_scope scope) (split b',' raw)
