-- ===== src/Kube/Writes.antt =====
-- The retry loop and the two paths of a mutation (internal/kube/kube.go), under a contract.
use k8s_ai_remediator.Prelude.{
  ◌≡◌, refl, ℕ, zero, suc, false, Bool, Bytes, Option, none, some, sym, subst,
}
use k8s_ai_remediator.Result.{Error, ok, is_conflict}
use k8s_ai_remediator.Cluster.{Deployment}
use k8s_ai_remediator.Effects.{Prog, get_deployment, update_deployment, delete_pod}
use k8s_ai_remediator.Effects.Contract.{
  Contract, Meets, done, next, Anything, Meets-bind, Meets-on_ok, Meets-on_none, Meets-if,
  AllowsReads, is_guarded,
}
use k8s_ai_remediator.Kube.External.{External, RetryLaw, attempts, again}
use k8s_ai_remediator.Kube.Mutate.{Mutation, attempt, mutate_deployment, validate_only, apply_patch}
use k8s_ai_remediator.Kube.Actions.{delete_unless_gone}

module _ (k : Contract) (reads : AllowsReads k) where
  -- everything that `f` makes of a deployment that the server may answer can be written
  abbrev pub CanWrite : Bytes → Bytes → Mutation → Type 0
  CanWrite ns name f =
      (at : Bytes) (dep dep' : Deployment)
      → k.grants (get_deployment ns name) (ok dep)
      → f at dep ≡ ok dep'
      → k.permits (update_deployment ns dep')

  attempt-Meets :
      (ns name : Bytes) (f : Mutation) → CanWrite ns name f → Meets k Anything (attempt ns name f)
  unfolding attempt is_guarded
  attempt-Meets ns name f can = next _ _ (reads _ refl) (λ got granted.
      Meets-on_ok got _ _
        (λ dep is_dep. next _ _ (reads _ refl) (λ at _.
          Meets-on_ok (f at dep) _ _
            (λ dep' made.
              next _ _
                (can at dep dep' (subst (k.grants (get_deployment ns name)) is_dep granted) made)
                (λ e _. done _ tt))
            (λ e. done _ tt)))
        (λ e. done _ tt))

  again-Meets :
      (e : Option Error) (m : Prog (Option Error))
      → Meets k Anything m
      → Meets k Anything (again e m)
  again-Meets none m h = done _ tt
  again-Meets (some e) m h = Meets-if (is_conflict e) _ _ (λ _. h) (λ _. done _ tt)

  attempts-Meets :
      (n : ℕ) (m : Prog (Option Error)) → Meets k Anything m → Meets k Anything (attempts n m)
  attempts-Meets zero m h = h
  attempts-Meets (suc n) m h =
      Meets-bind m _ h (λ e _. again-Meets e (attempts n m) (attempts-Meets n m h))

  pub mutate_deployment-Meets :
      (x : External) (ns name : Bytes) (f : Mutation)
      → RetryLaw x
      → CanWrite ns name f
      → Meets k Anything (mutate_deployment x ns name f)
  unfolding mutate_deployment
  mutate_deployment-Meets x ns name f law can =
      let bound = law.bounded (attempt ns name f) in
      subst (Meets k Anything) (sym bound.1)
        (attempts-Meets bound.0 (attempt ns name f) (attempt-Meets ns name f can))

  validate_only-Meets :
      (ns name : Bytes) (f : Mutation) → Meets k Anything (validate_only ns name f)
  unfolding validate_only is_guarded
  validate_only-Meets ns name f = next _ _ (reads _ refl) (λ got _.
      Meets-on_ok got _ _
        (λ dep _.
          next _ _ (reads _ refl)
            (λ at _. Meets-on_ok (f at dep) _ _ (λ dep' _. done _ tt) (λ e. done _ tt)))
        (λ e. done _ tt))

  pub apply_patch-Meets :
      (x : External) (ns name : Bytes) (f : Mutation) (dry_run : Bool)
      → RetryLaw x
      → (dry_run ≡ false → CanWrite ns name f)
      → Meets k Anything (apply_patch x ns name f dry_run)
  unfolding apply_patch
  apply_patch-Meets x ns name f dry_run law can =
      Meets-if dry_run _ _ (λ _. validate_only-Meets ns name f)
        (λ live. mutate_deployment-Meets x ns name f law (can live))

  pub delete_unless_gone-Meets :
      (ns name : Bytes) (grace : Option ℕ)
      → k.permits (delete_pod ns name grace)
      → Meets k Anything (delete_unless_gone ns name grace)
  unfolding delete_unless_gone
  delete_unless_gone-Meets ns name grace can =
      next _ _ can (λ e _. Meets-on_none e _ _ (λ _. done _ tt) (λ f _. done _ tt))
