-- ===== src/Kube/Targets.antt =====
-- The Deployment that a decision targets, as its parameters, its object and the API server's answers
-- tell it (ResolveDeploymentTarget of internal/kube/kube.go).
use k8s_ai_remediator.Prelude.{
  ◌≡◌, ◌⊎◌, inl, inr, true, Bytes, codes, List, [], ◌∷◌, Option, none, some, Map, at, eqb,
  if◌then◌else◌, refl, ap, ◌∙◌, sym,
}
use k8s_ai_remediator.Text.{equal_fold, trim_space}
use k8s_ai_remediator.Text.Trim.{trim_space_idem}
use k8s_ai_remediator.Effects.Contract.{Given}
use k8s_ai_remediator.Kube.Owners.{IsOwner}
use k8s_ai_remediator.Kube.Resolve.{named_target}

-- the first text that is not blank, without its outer blanks
unfoldable pub first_filled : List Bytes → Option Bytes
first_filled [] = none
first_filled (t ∷ ts) =
    let rest = first_filled ts in if eqb (trim_space t) [] then rest else some (trim_space t)

-- the Deployment that the parameters name
abbrev pub parameter_name : Map Bytes → Option Bytes
parameter_name params =
    first_filled (at (codes "deployment_name") params ∷ at (codes "deployment") params ∷ [])

pub named_target-parameter_name : (params : Map Bytes) → named_target params ≡ parameter_name params
unfolding named_target first_filled
named_target-parameter_name params = refl

-- a name, perhaps without its outer blanks
abbrev pub IsTrimOf : Bytes → Bytes → Type 0
IsTrimOf name full = (name ≡ full) ⊎ (name ≡ trim_space full)

-- The Deployment that the parameters name, or else the Deployment that is the object, or else the
-- one that the server showed as the owner of the pod that is the object.
pub data IsTarget (gave : Given) (ns kind object : Bytes) (params : Map Bytes) (name : Bytes)
    : Type 0 where
  by_parameter : parameter_name params ≡ some name → IsTarget gave ns kind object params name
  by_object :
      parameter_name params ≡ none
      → equal_fold kind (codes "Deployment") ≡ true
      → IsTrimOf name object
      → IsTarget gave ns kind object params name
  by_owner :
      (owner : Bytes)
      → parameter_name params ≡ none
      → equal_fold kind (codes "Pod") ≡ true
      → IsOwner gave ns object owner
      → IsTrimOf name owner
      → IsTarget gave ns kind object params name

IsTrimOf-trim : (name full : Bytes) → IsTrimOf name full → IsTrimOf (trim_space name) full
IsTrimOf-trim name full (inl e) = inr (ap trim_space e)
IsTrimOf-trim name full (inr e) = inr (ap trim_space e ∙ trim_space_idem full)

module _ (gave : Given) (ns kind object : Bytes) (params : Map Bytes) where
  -- A target stays one without its outer blanks, if a name in the parameters has none.
  pub IsTarget-trim :
      (name : Bytes)
      → ((t : Bytes) → parameter_name params ≡ some t → trim_space t ≡ t)
      → IsTarget gave ns kind object params name
      → IsTarget gave ns kind object params (trim_space name)
  IsTarget-trim name trimmed (by_parameter h) = by_parameter (h ∙ ap some (sym (trimmed name h)))
  IsTarget-trim name trimmed (by_object none_named is h) =
      by_object none_named is (IsTrimOf-trim name object h)
  IsTarget-trim name trimmed (by_owner owner none_named is owns h) =
      by_owner owner none_named is owns (IsTrimOf-trim name owner h)
