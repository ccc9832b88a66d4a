-- ===== src/Kube/Owners.antt =====
-- The Deployment that owns a Pod through a ReplicaSet, as the API server's answers tell it
-- (ResolveDeploymentFromPod of internal/kube/kube.go).
use k8s_ai_remediator.Prelude.{
  ◌≡◌, ◌⊎◌, inl, inr, true, false, Bytes, codes, List, [], ◌∷◌, Option, none, some, eqb, eqb_sound,
  All, Any, Bool-cases, Option-cases, subst, sym, ltb, length, arith,
}
use k8s_ai_remediator.Result.{Error, Result, ok, err}
use k8s_ai_remediator.Cluster.{Owner, Pod, ReplicaSet, Deployment}
use k8s_ai_remediator.Effects.{get_pod, get_replica_set, get_deployment}
use k8s_ai_remediator.Effects.Contract.{Given}
use k8s_ai_remediator.Kube.Resolve.{deployment_owner, init}
use k8s_ai_remediator.Text.{split, join}

abbrev pub OwnedBy : Bytes → List Owner → Type 0
OwnedBy name = Any (λ o. (o.kind ≡ codes "Deployment") × (o.name ≡ name))

abbrev pub NotOwned : List Owner → Type 0
NotOwned = All (λ o. eqb o.kind (codes "Deployment") ≡ false)

module _ (gave : Given) (ns : Bytes) where
  -- one of the owners is a ReplicaSet that the Deployment owns
  pub data HasOwner (name : Bytes) : List Owner → Type 0 where
    here :
        {o : Owner} {os : List Owner} (rs : ReplicaSet)
        → o.kind ≡ codes "ReplicaSet"
        → gave (get_replica_set ns o.name) (ok rs)
        → OwnedBy name rs.owners
        → HasOwner name (o ∷ os)
    there : {o : Owner} {os : List Owner} → HasOwner name os → HasOwner name (o ∷ os)

  -- no owner is such a ReplicaSet, or one cannot be read
  pub data IsUnowned : List Owner → Type 0 where
    no_owner : IsUnowned []
    no_replica_set :
        {o : Owner} {os : List Owner}
        → eqb o.kind (codes "ReplicaSet") ≡ false
        → IsUnowned os
        → IsUnowned (o ∷ os)
    not_owned :
        {o : Owner} {os : List Owner} (rs : ReplicaSet)
        → gave (get_replica_set ns o.name) (ok rs)
        → NotOwned rs.owners
        → IsUnowned os
        → IsUnowned (o ∷ os)
    unread :
        {o : Owner} {os : List Owner} (e : Error)
        → gave (get_replica_set ns o.name) (err e)
        → IsUnowned (o ∷ os)

  -- the server showed the Deployment as the owner of the pod
  pub record IsOwner (pod name : Bytes) : Type 0 where
    pub answer : Pod
    pub given : gave (get_pod ns pod) (ok answer)
    pub owner : HasOwner name answer.owners

  -- the server showed no Deployment as the owner of the pod
  abbrev pub NoOwner : Bytes → Type 0
  NoOwner pod =
      ((e : Error) × gave (get_pod ns pod) (err e))
      ⊎ ((p : Pod) × gave (get_pod ns pod) (ok p) × IsUnowned p.owners)

  unfoldable pub Followed : List Owner → Result Bytes → Type 0
  Followed os (ok name) = HasOwner name os
  Followed os (err e) = IsUnowned os

  unfoldable pub Resolved : Bytes → Result Bytes → Type 0
  Resolved pod (ok name) = IsOwner pod name
  Resolved pod (err e) = NoOwner pod

-- the name without its last part, and without its last two
abbrev pub parent : Bytes → Bytes
parent pod = join (codes "-") (init (split b'-' pod))

abbrev pub grandparent : Bytes → Bytes
grandparent pod = join (codes "-") (init (init (split b'-' pod)))

-- The Deployment that the name of a pod suggests: the owner of the ReplicaSet that has the name
-- without its last part, or, where that cannot be read, the one with the name without two parts.
pub data IsInferred (gave : Given) (ns pod : Bytes) : Option Bytes → Type 0 where
  too_short : ltb (length (split b'-' pod)) 3 ≡ true → IsInferred gave ns pod none
  by_replica_set :
      (rs : ReplicaSet) (name : Bytes)
      → gave (get_replica_set ns (parent pod)) (ok rs)
      → OwnedBy name rs.owners
      → IsInferred gave ns pod (some name)
  by_no_owner :
      (rs : ReplicaSet)
      → gave (get_replica_set ns (parent pod)) (ok rs)
      → NotOwned rs.owners
      → IsInferred gave ns pod none
  by_name :
      (e : Error) (dep : Deployment)
      → gave (get_replica_set ns (parent pod)) (err e)
      → gave (get_deployment ns (grandparent pod)) (ok dep)
      → IsInferred gave ns pod (some (grandparent pod))
  by_no_name :
      (e e' : Error)
      → gave (get_replica_set ns (parent pod)) (err e)
      → gave (get_deployment ns (grandparent pod)) (err e')
      → IsInferred gave ns pod none

pub deployment_owner-some :
    (os : List Owner) (name : Bytes) → deployment_owner os ≡ some name → OwnedBy name os
unfolding deployment_owner
deployment_owner-some [] name h = absurd (cc h)
deployment_owner-some (o ∷ os) name h = elim (Bool-cases (eqb o.kind (codes "Deployment"))) [
  | inl is ↦ inl (eqb_sound o.kind (codes "Deployment") is, ground (arith, is, h))
  | inr other ↦ inr (deployment_owner-some os name (ground (arith, other, h)))
]

pub deployment_owner-none : (os : List Owner) → deployment_owner os ≡ none → NotOwned os
unfolding deployment_owner
deployment_owner-none [] h = tt
deployment_owner-none (o ∷ os) h = elim (Bool-cases (eqb o.kind (codes "Deployment"))) [
  | inl is ↦ absurd (ground (arith, is, h))
  | inr other ↦ (other, deployment_owner-none os (ground (arith, other, h)))
]

pub IsInferred-owner :
    (gave : Given) (ns pod : Bytes) (rs : ReplicaSet)
    → gave (get_replica_set ns (parent pod)) (ok rs)
    → IsInferred gave ns pod (deployment_owner rs.owners)
IsInferred-owner gave ns pod rs given = elim (Option-cases (deployment_owner rs.owners)) [
  | inl absent ↦
      subst (IsInferred gave ns pod) (sym absent)
        (by_no_owner rs given (deployment_owner-none rs.owners absent))
  | inr (name, is_name) ↦
      subst (IsInferred gave ns pod) (sym is_name)
        (by_replica_set rs name given (deployment_owner-some rs.owners name is_name))
]
