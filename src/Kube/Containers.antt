-- ===== src/Kube/Containers.antt =====
-- findContainerIndex, and the container that an index stands for.
use k8s_ai_remediator.Prelude.{
  ℕ, zero, suc, Bytes, codes, ◌++◌, List, [], ◌∷◌, Option, none, some, eqb, get_elem?, set, Bool,
  length, if◌then◌else◌, ◌==◌,
}
use k8s_ai_remediator.Result.{Result, ok, fail}
use k8s_ai_remediator.Text.{trim_space}
use k8s_ai_remediator.Text.Numbers.{quote}
use k8s_ai_remediator.Cluster.{Container, Deployment}

-- the first index at which the test holds
unfoldable pub find_index : (Container → Bool) → List Container → Option ℕ
find_index p [] = none
find_index p (c ∷ cs) =
    let rest = find_index p cs in
    if p c then some zero else elim rest [ none ↦ none | some i ↦ some (suc i) ]

abbrev pub or_else {ℓ} : {A : Type ℓ} → Option A → Option A → Option A
or_else (some a) b = some a
or_else none b = b

-- by name, then by image, then the only container
unfoldable pub find_by_ref : List Container → Bytes → Option ℕ
unfolding find_index
find_by_ref cs ref =
    or_else (find_index (λ c. eqb c.name ref) cs)
      (or_else (find_index (λ c. eqb c.image ref) cs) (if length cs == 1 then some 0 else none))

abbrev or_not_found : Option ℕ → Bytes → Result ℕ
or_not_found (some i) ref = ok i
or_not_found none ref = fail (codes "container " ++ (quote ref ++ codes " not found"))

unfoldable pub find_container_index : List Container → Bytes → Result ℕ
unfolding find_by_ref
find_container_index [] raw = fail (codes "deployment has no containers")
find_container_index (c ∷ cs) raw =
    let ref = trim_space raw in
    if eqb ref [] then ok 0 else or_not_found (find_by_ref (c ∷ cs) ref) ref

-- `Containers[idx]`; out of range Go would panic
abbrev pub container_at : List Container → ℕ → Result Container
container_at cs i = elim (get_elem? cs i) [
  | some c ↦ ok c
  | none ↦ fail (codes "index out of range")
]

abbrev pub set_container : Deployment → ℕ → Container → Deployment
set_container dep i c = record dep { containers = set dep.containers i c }
