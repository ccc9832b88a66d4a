-- ===== src/Kube/Images.antt =====
-- SetDeploymentImage and PatchDeploymentRegistry.
use k8s_ai_remediator.Prelude.{
  ℕ, Bytes, codes, ◌++◌, [], ◌∷◌, Option, none, some, Bool, not, eqb, if◌then◌else◌,
}
use k8s_ai_remediator.Result.{Error, Result, ok, err, fail, errorf, ◌>>=◌}
use k8s_ai_remediator.Text.{trim_space}
use k8s_ai_remediator.Text.Numbers.{quote}
use k8s_ai_remediator.Cluster.{Container, Deployment}
use k8s_ai_remediator.Effects.{Prog, ret, call, get_deployment, on_ok}
use k8s_ai_remediator.Kube.External.{External}
use k8s_ai_remediator.Kube.Containers.{find_container_index, container_at, set_container}
use k8s_ai_remediator.Kube.LastChange.{set_last_change_annotation}
use k8s_ai_remediator.Kube.OptIn.{deployment_allows_patch, allow_patch_annotation}
use k8s_ai_remediator.Kube.Mutate.{mutate_deployment, Mutation, apply_patch}
use k8s_ai_remediator.Kube.References.{swap_registry}

pub no_op_error : Container → Bytes → Bytes
no_op_error c image =
    codes "set_deployment_image is a no-op: container "
    ++ (quote c.name
        ++ (codes " already runs "
            ++ (quote image
                ++ codes
                    "; for transient pull failures use delete_failed_pod or restart_deployment")))

unfoldable pub pick_container_for_image : Deployment → Bytes → Bytes → Result ℕ
pick_container_for_image dep image container = do
  idx ← find_container_index dep.containers container
  c ← container_at dep.containers idx
  if eqb c.image image then fail (no_op_error c image) else ok idx

-- the mutation of both writers of an image: remember the old one, then write
unfoldable pub write_image : Bytes → Bytes → ℕ → Container → Bytes → Deployment → Deployment
write_image action image idx c at dep =
    set_container (set_last_change_annotation dep action c.name ((codes "image", c.image) ∷ []) at)
      idx (record c { image = image })

unfoldable pub change_image : Bytes → Bytes → Mutation
unfolding pick_container_for_image write_image
change_image image container at dep = do
  idx ← pick_container_for_image dep image container
  c ← container_at dep.containers idx
  ok (write_image (codes "set_deployment_image") image idx c at dep)

abbrev error_of {ℓ} : {A : Type ℓ} → Result A → Option Error
error_of (ok a) = none
error_of (err e) = some e

-- the dry run: read and validate
unfoldable pub validate_image : Bytes → Bytes → Bytes → Bytes → Prog (Option Error)
validate_image ns name image container = call (get_deployment ns name) (λ got.
    on_ok got (λ dep. ret (error_of (pick_container_for_image dep image container)))
      (λ e. ret (some e)))

unfoldable pub set_deployment_image :
    External → Bytes → Bytes → Bytes → Bytes → Bool → Prog (Option Error)
unfolding change_image validate_image
set_deployment_image x ns name image container dry_run =
    if eqb (trim_space image) []
    then ret (some (errorf (codes "image parameter is required")))
    else if dry_run
    then validate_image ns name image container
    else mutate_deployment x ns name (change_image image container)

-- `deployment ns/name does not opt in to …`
unfoldable pub no_opt_in : Bytes → Bytes → Bytes → Bytes
no_opt_in action ns name =
    codes "deployment "
    ++ (ns
        ++ (b'/'
            ∷ (name
                ++ (codes " does not opt in to "
                    ++ (action
                        ++ (codes " (set annotation " ++ (allow_patch_annotation ++ codes ")")))))))

unfoldable pub change_registry : Bytes → Bytes → Bytes → Bytes → Mutation
unfolding write_image no_opt_in
change_registry ns name container new_registry at dep =
    if not (deployment_allows_patch dep (codes "registry"))
    then fail (no_opt_in (codes "patch_registry") ns name)
    else (do
      idx ← find_container_index dep.containers container
      c ← container_at dep.containers idx
      new_image ← swap_registry c.image new_registry
      if eqb new_image c.image
          then fail (
              codes "new registry produces the same image "
              ++ (quote new_image ++ codes "; no change"))
          else ok (write_image (codes "patch_registry") new_image idx c at dep))

unfoldable pub patch_deployment_registry :
    External → Bytes → Bytes → Bytes → Bytes → Bool → Prog (Option Error)
unfolding change_registry
patch_deployment_registry x ns name container new_registry dry_run =
    apply_patch x ns name (change_registry ns name container new_registry) dry_run
