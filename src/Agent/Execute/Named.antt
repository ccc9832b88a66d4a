-- ===== src/Agent/Execute/Named.antt =====
-- The target that the parameters name, under the writes that the loop, the escalations and the
-- completions make to the parameters.
use k8s_ai_remediator.Prelude.{
  ◌≡◌, refl, arith, Bytes, codes, [], none, some, Bool, true, false, ◌⊎◌, inl, inr, Bool-cases, Map,
  eqb, insert, erase, lookup-erase, at, lookup-insert, if◌then◌else◌, ap, ◌∙◌, subst, sym,
}
use k8s_ai_remediator.Text.{trim_space}
use k8s_ai_remediator.Text.Trim.{trim_space_idem}
use mathlib.Core.Bool.{true≢false}
use mathlib.Core.Option.{some-injective}
use k8s_ai_remediator.Model.{Decision, Action, patch_probe, patch_resources}
use k8s_ai_remediator.Policy.{is_restart}
use k8s_ai_remediator.Effects.Contract.{Given}
use k8s_ai_remediator.Kube.Targets.{IsTarget, by_parameter, by_object, by_owner, IsTarget-trim}
use k8s_ai_remediator.Kube.Targets.{first_filled, parameter_name}

pub at-insert :
    (k j v : Bytes) (m : Map Bytes) → at j (insert k v m) ≡ (if eqb k j then v else at j m)
unfolding at
at-insert k j v m = ground (arith, lookup-insert k j v m)

pub at-insert-other :
    (k j v : Bytes) (m : Map Bytes) → eqb k j ≡ false → at j (insert k v m) ≡ at j m
at-insert-other k j v m other = at-insert k j v m ∙ ap (λ b. if b then v else at j m) other

pub at-insert-same : (k v : Bytes) (m : Map Bytes) → eqb k k ≡ true → at k (insert k v m) ≡ v
at-insert-same k v m same = at-insert k k v m ∙ ap (λ b. if b then v else at k m) same

pub at-erase-other : (k j : Bytes) (m : Map Bytes) → eqb k j ≡ false → at j (erase k m) ≡ at j m
unfolding at
at-erase-other k j m other = ground (arith, other, lookup-erase k j m)

pub parameter_name-insert :
    (k v : Bytes) (m : Map Bytes)
    → eqb k (codes "deployment_name") ≡ false
    → eqb k (codes "deployment") ≡ false
    → parameter_name (insert k v m) ≡ parameter_name m
unfolding first_filled
parameter_name-insert k v m h g =
    rw
      (
        at-insert-other k (codes "deployment_name") v m h,
        at-insert-other k (codes "deployment") v m g,
      )
      refl

-- A named target is trimmed and not empty.
pub parameter_name_trimmed :
    (m : Map Bytes) (t : Bytes)
    → parameter_name m ≡ some t
    → (trim_space t ≡ t) × (eqb t [] ≡ false)
unfolding first_filled
parameter_name_trimmed m t h = ground (
  arith,
  h,
  trim_space_idem (at (codes "deployment_name") m),
  trim_space_idem (at (codes "deployment") m),
)

-- The target under a new name in the parameters
insert_name-filled :
    (m : Map Bytes) (x : Bytes)
    → eqb (trim_space x) [] ≡ false
    → parameter_name (insert (codes "deployment_name") x m) ≡ some (trim_space x)
unfolding first_filled eqb
insert_name-filled m x full = rw (at-insert-same (codes "deployment_name") x m refl, full) refl

insert_name-blank :
    (m : Map Bytes) (x : Bytes)
    → eqb (trim_space x) [] ≡ true
    → parameter_name m ≡ none
    → parameter_name (insert (codes "deployment_name") x m) ≡ none
unfolding first_filled eqb
insert_name-blank m x blank absent =
    rw
      (
        at-insert-same (codes "deployment_name") x m refl,
        at-insert-other (codes "deployment_name") (codes "deployment") x m refl,
        blank,
      )
      (ground (arith, absent))

module _ (gave : Given) (ns kind object : Bytes) where
  pub IsTarget-same :
      (m m' : Map Bytes) (name : Bytes)
      → parameter_name m' ≡ parameter_name m
      → IsTarget gave ns kind object m' name
      → IsTarget gave ns kind object m name
  IsTarget-same m m' name same (by_parameter h) = by_parameter (sym same ∙ h)
  IsTarget-same m m' name same (by_object absent is h) = by_object (sym same ∙ absent) is h
  IsTarget-same m m' name same (by_owner owner absent is owns h) =
      by_owner owner (sym same ∙ absent) is owns h

  of_filled :
      (m : Map Bytes) (x name : Bytes)
      → IsTarget gave ns kind object m x
      → parameter_name (insert (codes "deployment_name") x m) ≡ some (trim_space x)
      → IsTarget gave ns kind object (insert (codes "deployment_name") x m) name
      → IsTarget gave ns kind object m name
  of_filled m x name resolved named (by_parameter h) =
      subst (IsTarget gave ns kind object m) (some-injective _ _ (sym named ∙ h))
        (IsTarget-trim gave ns kind object m x (λ t is. (parameter_name_trimmed m t is).0) resolved)
  of_filled m x name resolved named (by_object absent is h) = absurd (cc (sym named ∙ absent))
  of_filled m x name resolved named (by_owner owner absent is owns h) =
      absurd (cc (sym named ∙ absent))

  is_unnamed :
      (m : Map Bytes) (x : Bytes)
      → IsTarget gave ns kind object m x
      → eqb (trim_space x) [] ≡ true
      → parameter_name m ≡ none
  is_unnamed m x (by_parameter h) blank =
      let (trimmed, filled) = parameter_name_trimmed m x h in
      absurd (true≢false (sym blank ∙ ap (λ t. eqb t []) trimmed ∙ filled))
  is_unnamed m x (by_object absent is h) blank = absent
  is_unnamed m x (by_owner owner absent is owns h) blank = absent

  -- A resolved target in the parameters leaves the target as it was.
  pub IsTarget-insert :
      (m : Map Bytes) (x name : Bytes)
      → IsTarget gave ns kind object m x
      → IsTarget gave ns kind object (insert (codes "deployment_name") x m) name
      → IsTarget gave ns kind object m name
  IsTarget-insert m x name resolved h = elim (Bool-cases (eqb (trim_space x) [])) [
    | inr full ↦ of_filled m x name resolved (insert_name-filled m x full) h
    | inl blank ↦
        let absent = is_unnamed m x resolved blank in
        IsTarget-same m (insert (codes "deployment_name") x m) name
          (insert_name-blank m x blank absent ∙ sym absent) h
  ]

-- the Deployment that a decision targets
abbrev pub IsTargetOf : Given → Decision → Bytes → Type 0
IsTargetOf gave d = IsTarget gave d.namespace d.resource_kind d.resource_name d.parameters

abbrev pub is_patch : Action → Bool
is_patch patch_probe = true
is_patch patch_resources = true
is_patch _ = false

-- the decision as it was, or a patch in place of a restart
abbrev pub IsSource : Decision → Decision → Type 0
IsSource d d' =
    ((d'.confidence ≡ d.confidence) × (d'.action ≡ d.action))
    ⊎ ((is_restart d.action ≡ true) × (is_patch d'.action ≡ true))

-- The decision has its object and no new target.
pub record IsSameTarget (gave : Given) (d d' : Decision) : Type 0 where
  pub namespace : d'.namespace ≡ d.namespace
  pub resource_kind : d'.resource_kind ≡ d.resource_kind
  pub resource_name : d'.resource_name ≡ d.resource_name
  pub target : (name : Bytes) → IsTargetOf gave d' name → IsTargetOf gave d name
  pub source : IsSource d d'

pub IsSameTarget-refl : (gave : Given) (d : Decision) → IsSameTarget gave d d
IsSameTarget-refl gave d = record {
  namespace = refl;
  resource_kind = refl;
  resource_name = refl;
  target = λ name h. h;
  source = inl (refl, refl);
}

IsSource-trans : (d e f : Decision) → IsSource d e → IsSource e f → IsSource d f
IsSource-trans d e f (inl (c, a)) (inl (c', a')) = inl (c' ∙ c, a' ∙ a)
IsSource-trans d e f (inl (c, a)) (inr (was, now)) = inr (ap is_restart (sym a) ∙ was, now)
IsSource-trans d e f (inr (was, now)) (inl (c', a')) = inr (was, ap is_patch a' ∙ now)
IsSource-trans d e f (inr (was, now)) (inr (was', now')) = inr (was, now')

pub IsSameTarget-trans :
    (gave : Given) (d e f : Decision)
    → IsSameTarget gave d e
    → IsSameTarget gave e f
    → IsSameTarget gave d f
IsSameTarget-trans gave d e f p q = record {
  namespace = q.namespace ∙ p.namespace;
  resource_kind = q.resource_kind ∙ p.resource_kind;
  resource_name = q.resource_name ∙ p.resource_name;
  target = λ name h. p.target name (q.target name h);
  source = IsSource-trans d e f p.source q.source;
}
