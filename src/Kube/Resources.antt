-- ===== src/Kube/Resources.antt =====
-- PatchDeploymentResources.
pub mod Bounds
use k8s_ai_remediator.Prelude.{
  Bytes, codes, ◌++◌, [], ◌∷◌, Option, none, some, Bool, true, false, not, ◌||◌, ◌&&◌, Map, at, eqb,
  if◌then◌else◌,
}
use k8s_ai_remediator.Result.{Error, Result, ok, err, fail, ◌>>=◌}
use k8s_ai_remediator.Text.{trim_space}
use k8s_ai_remediator.Text.Numbers.{quote}
use k8s_ai_remediator.Cluster.{
  Quantity, Container, quantity_lt, max_cpu_quantity, max_memory_quantity, min_cpu_quantity,
  min_memory_quantity,
}
use k8s_ai_remediator.Effects.{Prog}
use k8s_ai_remediator.Kube.External.{External}
use k8s_ai_remediator.Kube.Containers.{find_container_index, container_at, set_container}
use k8s_ai_remediator.Kube.LastChange.{set_last_change_annotation}
use k8s_ai_remediator.Kube.OptIn.{deployment_allows_patch}
use k8s_ai_remediator.Kube.Images.{no_opt_in}
use k8s_ai_remediator.Kube.Mutate.{Mutation, apply_patch}

abbrev invalid_quantity : Bytes → Result Quantity → Result Quantity
invalid_quantity raw (ok q) = ok q
invalid_quantity raw (err e) =
    fail (codes "invalid quantity " ++ (quote raw ++ (codes ": " ++ e.text)))

unfoldable pub parse_quantity_in_range : External → Bytes → Quantity → Quantity → Result Quantity
parse_quantity_in_range x raw min max = do
  q ← invalid_quantity raw (x.parse_quantity (trim_space raw))
  if quantity_lt q min || quantity_lt max q
      then fail (
          codes "quantity "
          ++ (q.shown
              ++ (codes " outside bounds [" ++ (min.shown ++ (b',' ∷ (max.shown ++ codes "]"))))))
      else ok q

abbrev labelled : Bytes → Result Quantity → Result (Option Quantity)
labelled key (ok q) = ok (some q)
labelled key (err e) = err (record e { text = key ++ (codes ": " ++ e.text) })

-- one of the four parameters; `none` where it is blank
unfoldable pub quantity_param :
    External → Map Bytes → Bytes → Quantity → Quantity → Result (Option Quantity)
unfolding parse_quantity_in_range
quantity_param x params key min max =
    let raw = trim_space (at key params) in
    if eqb raw [] then ok none else labelled key (parse_quantity_in_range x raw min max)

abbrev pub override : Option Quantity → Option Quantity → Option Quantity
override old none = old
override old (some q) = some q

abbrev is_none {ℓ} : {A : Type ℓ} → Option A → Bool
is_none none = true
is_none (some a) = false

abbrev pub exceeds : Option Quantity → Option Quantity → Bool
exceeds (some request) (some limit) = quantity_lt limit request
exceeds _ _ = false

abbrev shown_or_blank : Option Quantity → Bytes
shown_or_blank none = []
shown_or_blank (some q) = q.shown

pub exceeds_error : Bytes → Option Quantity → Option Quantity → Bytes
exceeds_error resource request limit =
    resource
    ++ (codes " request "
        ++ (shown_or_blank request ++ (codes " exceeds limit " ++ shown_or_blank limit)))

-- requests must not exceed limits where both are set, CPU before memory
unfoldable pub check_limits : Container → Result Container
check_limits c =
    if exceeds c.cpu_request c.cpu_limit
    then fail (exceeds_error (codes "cpu") c.cpu_request c.cpu_limit)
    else if exceeds c.memory_request c.memory_limit
    then fail (exceeds_error (codes "memory") c.memory_request c.memory_limit)
    else ok c

abbrev entry_of : Bytes → Option Quantity → Map Bytes → Map Bytes
entry_of key none m = m
entry_of key (some q) m = (key, q.shown) ∷ m

previous_quantities : Container → Map Bytes
previous_quantities c = entry_of (codes "cpu_request") c.cpu_request (
    entry_of (codes "memory_request") c.memory_request (
      entry_of (codes "cpu_limit") c.cpu_limit (entry_of (codes "memory_limit") c.memory_limit [])))

unfoldable pub set_quantities : External → Map Bytes → Container → Result Container
unfolding quantity_param
set_quantities x params c = do
  cpu_request ← quantity_param x params (codes "cpu_request") min_cpu_quantity max_cpu_quantity
  memory_request ←
      quantity_param x params (codes "memory_request") min_memory_quantity max_memory_quantity
  cpu_limit ← quantity_param x params (codes "cpu_limit") min_cpu_quantity max_cpu_quantity
  memory_limit ←
      quantity_param x params (codes "memory_limit") min_memory_quantity max_memory_quantity
  if is_none cpu_request && is_none memory_request && is_none cpu_limit && is_none memory_limit
      then fail (
          codes
            "patch_resources requires at least one of cpu_request, memory_request, cpu_limit, memory_limit")
      else check_limits (record c {
        cpu_request = override c.cpu_request cpu_request;
        memory_request = override c.memory_request memory_request;
        cpu_limit = override c.cpu_limit cpu_limit;
        memory_limit = override c.memory_limit memory_limit;
      })

unfoldable pub change_resources : External → Bytes → Bytes → Bytes → Map Bytes → Mutation
unfolding set_quantities previous_quantities
change_resources x ns name container params time dep =
    if not (deployment_allows_patch dep (codes "resources"))
    then fail (no_opt_in (codes "patch_resources") ns name)
    else (do
      idx ← find_container_index dep.containers container
      c ← container_at dep.containers idx
      c' ← set_quantities x params c
      ok (
          set_container
            (set_last_change_annotation dep (codes "patch_resources") c.name (previous_quantities c)
              time)
            idx c'))

unfoldable pub patch_deployment_resources :
    External → Bytes → Bytes → Bytes → Map Bytes → Bool → Prog (Option Error)
unfolding change_resources
patch_deployment_resources x ns name container params dry_run =
    apply_patch x ns name (change_resources x ns name container params) dry_run
