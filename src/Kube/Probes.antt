-- ===== src/Kube/Probes.antt =====
-- PatchDeploymentProbe. The caller's fields are a list here; Go visits its map in no fixed order.
pub mod Bounds
use k8s_ai_remediator.Prelude.{
  Bytes, codes, ◌++◌, [], ◌∷◌, Option, none, some, Bool, not, ◌||◌, ℤ, pos, ltb_ℤ, Map, eqb,
  if◌then◌else◌,
}
use k8s_ai_remediator.Result.{Error, Result, ok, err, fail, ◌>>=◌}
use k8s_ai_remediator.Text.{trim_space, to_lower}
use k8s_ai_remediator.Text.Numbers.{quote, itoa, atoi}
use k8s_ai_remediator.Cluster.{Probe, Container}
use k8s_ai_remediator.Effects.{Prog}
use k8s_ai_remediator.Kube.External.{External}
use k8s_ai_remediator.Kube.Containers.{find_container_index, container_at, set_container}
use k8s_ai_remediator.Kube.LastChange.{set_last_change_annotation}
use k8s_ai_remediator.Kube.OptIn.{deployment_allows_patch}
use k8s_ai_remediator.Kube.Images.{no_opt_in}
use k8s_ai_remediator.Kube.Mutate.{Mutation, apply_patch}

pub data Field : Type 0 where
  initial_delay period failures successes timeout : Field

unfoldable pub field_of : Bytes → Option Field
field_of key =
    if eqb key (codes "initial_delay_seconds")
    then some initial_delay
    else if eqb key (codes "period_seconds")
    then some period
    else if eqb key (codes "failure_threshold")
    then some failures
    else if eqb key (codes "success_threshold")
    then some successes
    else if eqb key (codes "timeout_seconds")
    then some timeout
    else none

-- ProbeFieldBounds
unfoldable pub field_bounds : Field → ℤ × ℤ
field_bounds initial_delay = (pos 0, pos 600)
field_bounds period = (pos 1, pos 300)
field_bounds failures = (pos 1, pos 20)
field_bounds successes = (pos 1, pos 5)
field_bounds timeout = (pos 1, pos 60)

pub bounds_error : Bytes → ℤ → ℤ × ℤ → Bytes
bounds_error key n (lo, hi) =
    codes "probe field "
    ++ (quote key
        ++ (b'='
            ∷ (itoa n
                ++ (codes " outside bounds [" ++ (itoa lo ++ (b',' ∷ (itoa hi ++ codes "]")))))))

abbrev in_bounds : Bytes → ℤ × ℤ → ℤ → Result ℤ
in_bounds key bounds n =
    if ltb_ℤ n bounds.0 || ltb_ℤ bounds.1 n then fail (bounds_error key n bounds) else ok n

abbrev not_an_integer : Bytes → Result ℤ → Result ℤ
not_an_integer key (ok n) = ok n
not_an_integer key (err e) =
    fail (codes "probe field " ++ (quote key ++ (codes " not an integer: " ++ e.text)))

unfoldable pub parse_probe_field : Bytes → Bytes → Result (Field × ℤ)
unfolding field_bounds
parse_probe_field key raw = elim (field_of key) [
  | none ↦ fail (codes "unknown probe field " ++ quote key)
  | some f ↦ do
    n ← not_an_integer key (atoi (trim_space raw))
    v ← in_bounds key (field_bounds f) n
    ok (f, v)
]

unfoldable pub set_field : Probe → Field → ℤ → Probe
set_field p initial_delay v = record p { initial_delay_seconds = v }
set_field p period v = record p { period_seconds = v }
set_field p failures v = record p { failure_threshold = v }
set_field p successes v = record p { success_threshold = v }
set_field p timeout v = record p { timeout_seconds = v }

-- the loop over the fields
unfoldable pub set_fields : Map Bytes → Probe → Result Probe
unfolding set_field
set_fields [] p = ok p
set_fields ((key, raw) ∷ fields) p = do
  (f, v) ← parse_probe_field key raw
  set_fields fields (set_field p f v)

-- `changed` stays false
abbrev require_change : Map Bytes → Result Probe → Result Probe
require_change [] r = fail (codes "patch_probe requires at least one probe field in parameters")
require_change (f ∷ fs) r = r

pub data ProbeKind : Type 0 where
  readiness_probe liveness_probe : ProbeKind

unfoldable pub probe_kind : Bytes → Option ProbeKind
probe_kind probe_type =
    let t = to_lower (trim_space probe_type) in
    if eqb t (codes "readiness")
    then some readiness_probe
    else if eqb t (codes "liveness")
    then some liveness_probe
    else none

abbrev pub get_probe : ProbeKind → Container → Option Probe
get_probe readiness_probe c = c.readiness
get_probe liveness_probe c = c.liveness

abbrev pub put_probe : ProbeKind → Container → Probe → Container
put_probe readiness_probe c p = record c { readiness = some p }
put_probe liveness_probe c p = record c { liveness = some p }

previous_timing : Bytes → Probe → Map Bytes
previous_timing probe_type p =
    (codes "probe", to_lower (trim_space probe_type))
    ∷ (codes "initial_delay_seconds", itoa p.initial_delay_seconds)
    ∷ (codes "period_seconds", itoa p.period_seconds)
    ∷ (codes "failure_threshold", itoa p.failure_threshold)
    ∷ (codes "success_threshold", itoa p.success_threshold)
    ∷ (codes "timeout_seconds", itoa p.timeout_seconds)
    ∷ []

abbrev from_option {ℓ} : {A : Type ℓ} → Option A → Bytes → Result A
from_option none message = fail message
from_option (some a) message = ok a

unfoldable pub change_probe : Bytes → Bytes → Bytes → Bytes → Map Bytes → Mutation
unfolding previous_timing set_fields
change_probe ns name container probe_type fields at dep =
    if not (deployment_allows_patch dep (codes "probe"))
    then fail (no_opt_in (codes "patch_probe") ns name)
    else (do
      idx ← find_container_index dep.containers container
      c ← container_at dep.containers idx
      kind ← from_option (probe_kind probe_type) (codes "probe must be one of: readiness, liveness")
      p ← from_option (get_probe kind c) (
          codes "container "
          ++ (quote c.name ++ (codes " has no " ++ (probe_type ++ codes " probe to patch"))))
      p' ← require_change fields (set_fields fields p)
      ok (
          set_container
            (set_last_change_annotation dep (codes "patch_probe") c.name
              (previous_timing probe_type p) at)
            idx (put_probe kind c p')))

unfoldable pub patch_deployment_probe :
    External → Bytes → Bytes → Bytes → Bytes → Map Bytes → Bool → Prog (Option Error)
unfolding change_probe
patch_deployment_probe x ns name container probe_type fields dry_run =
    apply_patch x ns name (change_probe ns name container probe_type fields) dry_run
