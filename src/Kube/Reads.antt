-- ===== src/Kube/Reads.antt =====
-- The programs of internal/kube/kube.go that only read, under a contract.
use k8s_ai_remediator.Prelude.{
  none, ◌≡◌, refl, sym, ap, ◌∙◌, inl, inr, subst, eqb_sound, Bytes, List, [], ◌∷◌, some, eqb, codes,
  at, ltb, length, Map, ℤ,
}
use k8s_ai_remediator.Result.{Result, ok, err, ok_inj}
use k8s_ai_remediator.Text.{equal_fold, split}
use k8s_ai_remediator.Cluster.{Owner, Pod}
use k8s_ai_remediator.Effects.Contract.{
  Contract, Meets, done, next, Anything, Meets-bind, Meets-on_ok, Meets-on_result, Meets-on_none,
  Meets-if, Meets-weaken, AllowsReads, is_guarded,
}
use k8s_ai_remediator.Kube.Resolve.{
  follow_owners, resolve_deployment_from_pod, infer_deployment_from_pod_name, deployment_owner,
  first_pod_for_deployment, list_first, resolve_deployment_target, named_target,
}
use k8s_ai_remediator.Kube.Owners.{
  IsInferred, too_short, by_name, by_no_name, IsInferred-owner, parent, grandparent, here, there,
  IsUnowned, no_owner, no_replica_set, not_owned, unread, IsOwner, Followed, Resolved,
  deployment_owner-some, deployment_owner-none,
}
use k8s_ai_remediator.Effects.{get_pod, get_replica_set, get_deployment}
use k8s_ai_remediator.Kube.Targets.{
  IsTarget, by_parameter, by_object, by_owner, parameter_name, named_target-parameter_name,
}
use k8s_ai_remediator.Kube.Logs.{inspect_pod, inspect_pod_logs, choose_container_for_logs}
use k8s_ai_remediator.Kube.Snapshot.{deployment_snapshot, pod_status_summary}

module _ (k : Contract) (reads : AllowsReads k) where
  -- the rest of the owners behind one that leads to no Deployment
  after :
      (ns : Bytes) (o : Owner) (os : List Owner)
      → (IsUnowned k.grants ns os → IsUnowned k.grants ns (o ∷ os))
      → (r : Result Bytes) → Followed k.grants ns os r
      → Followed k.grants ns (o ∷ os) r
  unfolding Followed
  after ns o os skip (ok name) h = there h
  after ns o os skip (err e) h = skip h

  resolved :
      (ns pod : Bytes) (p : Pod)
      → k.grants (get_pod ns pod) (ok p)
      → (r : Result Bytes) → Followed k.grants ns p.owners r
      → Resolved k.grants ns pod r
  unfolding Followed Resolved
  resolved ns pod p given (ok name) h = record { answer = p; given = given; owner = h }
  resolved ns pod p given (err e) h = inr (p, given, h)

  pub follow_owners-Meets :
      (ns : Bytes) (os : List Owner) → Meets k (Followed k.grants ns os) (follow_owners ns os)
  unfolding follow_owners is_guarded Followed
  follow_owners-Meets ns [] = done _ no_owner
  follow_owners-Meets ns (o ∷ os) =
      let rest = follow_owners-Meets ns os in
      Meets-if (eqb o.kind (codes "ReplicaSet")) _ _
        (λ is_set. next _ _ (reads _ refl) (λ r given.
          Meets-on_result r _ _
            (λ rs is_rs.
              let given' = subst (k.grants (get_replica_set ns o.name)) is_rs given in
              Meets-on_none (deployment_owner rs.owners) _ _
                (λ absent.
                  Meets-weaken _ _
                    (λ r'.
                      after ns o os (not_owned rs given' (deployment_owner-none rs.owners absent))
                        r')
                    rest)
                (λ n is_n. done _ (
                  here rs (eqb_sound o.kind _ is_set) given'
                    (deployment_owner-some rs.owners n is_n))))
            (λ e is_e.
              done _ (unread e (subst (k.grants (get_replica_set ns o.name)) is_e given)))))
        (λ other. Meets-weaken _ _ (λ r'. after ns o os (no_replica_set other) r') rest)

  Resolved-IsOwner :
      (ns pod name : Bytes) → Resolved k.grants ns pod (ok name) → IsOwner k.grants ns pod name
  unfolding Resolved
  Resolved-IsOwner ns pod name h = h

  pub resolve_deployment_from_pod-Meets :
      (ns pod : Bytes) → Meets k (Resolved k.grants ns pod) (resolve_deployment_from_pod ns pod)
  unfolding resolve_deployment_from_pod is_guarded Resolved Followed
  resolve_deployment_from_pod-Meets ns pod = next _ _ (reads _ refl) (λ r given.
      Meets-on_result r _ _
        (λ p is_p.
          let given' = subst (k.grants (get_pod ns pod)) is_p given in
          Meets-weaken _ _ (resolved ns pod p given') (follow_owners-Meets ns p.owners))
        (λ e is_e. done _ (inl (e, subst (k.grants (get_pod ns pod)) is_e given))))

  pub infer_deployment_from_pod_name-Meets :
      (ns pod : Bytes)
      → Meets k (IsInferred k.grants ns pod) (infer_deployment_from_pod_name ns pod)
  unfolding infer_deployment_from_pod_name is_guarded
  infer_deployment_from_pod_name-Meets ns pod =
      Meets-if (ltb (length (split b'-' pod)) 3) _ _ (λ short. done _ (too_short short))
        (λ _. next _ _ (reads _ refl) (λ r given.
          Meets-on_result r _ _
            (λ rs is_rs. done _ (
              IsInferred-owner k.grants ns pod rs
                (subst (k.grants (get_replica_set ns (parent pod))) is_rs given)))
            (λ e is_e.
              let given' = subst (k.grants (get_replica_set ns (parent pod))) is_e given in
              next _ _ (reads _ refl) (λ g answered.
                Meets-on_result g _ _
                  (λ d is_d. done _ (
                    by_name e d given'
                      (subst (k.grants (get_deployment ns (grandparent pod))) is_d answered)))
                  (λ e' is_e'. done _ (
                    by_no_name e e' given'
                      (subst (k.grants (get_deployment ns (grandparent pod))) is_e' answered)))))))

  list_first-Meets : (ns : Bytes) (m : Map Bytes) → Meets k Anything (list_first ns m)
  unfolding list_first is_guarded
  list_first-Meets ns [] = done _ tt
  list_first-Meets ns (l ∷ ls) =
      next _ _ (reads _ refl) (λ r _. Meets-on_ok r _ _ (λ ps _. done _ tt) (λ e. done _ tt))

  pub first_pod_for_deployment-Meets :
      (ns name : Bytes) → Meets k Anything (first_pod_for_deployment ns name)
  unfolding first_pod_for_deployment is_guarded
  first_pod_for_deployment-Meets ns name =
      next _ _ (reads _ refl)
        (λ r _. Meets-on_ok r _ _ (λ dep _. list_first-Meets ns dep.match_labels) (λ e. done _ tt))

  pub deployment_snapshot-Meets : (ns name : Bytes) → Meets k Anything (deployment_snapshot ns name)
  unfolding deployment_snapshot is_guarded
  deployment_snapshot-Meets ns name =
      next _ _ (reads _ refl) (λ r _. Meets-on_ok r _ _ (λ dep _. done _ tt) (λ e. done _ tt))

  pub pod_status_summary-Meets : (ns name : Bytes) → Meets k Anything (pod_status_summary ns name)
  unfolding pod_status_summary is_guarded
  pod_status_summary-Meets ns name =
      next _ _ (reads _ refl) (λ r _. Meets-on_ok r _ _ (λ pod _. done _ tt) (λ e. done _ tt))

  inspect_pod-Meets :
      (ns pod : Bytes) (params : Map Bytes) (tail : ℤ)
      → Meets k Anything (inspect_pod ns pod params tail)
  unfolding inspect_pod is_guarded
  inspect_pod-Meets ns pod params tail = next _ _ (reads _ refl) (λ r _.
      Meets-on_ok r _ _
        (λ p _.
          Meets-if (eqb (choose_container_for_logs p (at (codes "container") params)) []) _ _
            (λ _. done _ tt)
            (λ _. next _ _ (reads _ refl) (λ c _. next _ _ (reads _ refl) (λ q _. done _ tt))))
        (λ e. done _ tt))

  pub inspect_pod_logs-Meets :
      (ns kind name : Bytes) (params : Map Bytes) (tail : ℤ)
      → Meets k Anything (inspect_pod_logs ns kind name params tail)
  unfolding inspect_pod_logs
  inspect_pod_logs-Meets ns kind name params tail =
      Meets-if (equal_fold kind (codes "Deployment")) _ _
        (λ _. Meets-bind _ _ (first_pod_for_deployment-Meets ns name) (λ r _.
          Meets-on_ok r _ _ (λ pod _. inspect_pod-Meets ns pod params tail) (λ e. done _ tt)))
        (λ _.
          Meets-if (equal_fold kind (codes "Pod")) _ _ (λ _. inspect_pod-Meets ns name params tail)
            (λ _. done _ tt))

  -- The name in the parameters is the target; only without one is the cluster asked.
  pub resolve_deployment_target-Meets :
      (ns kind name : Bytes) (params : Map Bytes)
      → Meets k
          (λ r. (t : Bytes) → r ≡ ok t → IsTarget k.grants ns kind name params t)
          (resolve_deployment_target ns kind name params)
  unfolding resolve_deployment_target
  resolve_deployment_target-Meets ns kind name params =
      Meets-on_none (named_target params) _ _
        (λ unnamed.
          let absent : parameter_name params ≡ none =
            sym (named_target-parameter_name params) ∙ unnamed in
          Meets-if (equal_fold kind (codes "Deployment")) _ _
            (λ is. done _ (λ t e. by_object absent is (inl (sym (ok_inj e)))))
            (λ _.
              Meets-if (equal_fold kind (codes "Pod")) _ _
                (λ is.
                  Meets-weaken _ _
                    (λ r h t e.
                      by_owner t absent is
                        (Resolved-IsOwner ns name t (subst (Resolved k.grants ns name) e h))
                        (inl refl))
                    (resolve_deployment_from_pod-Meets ns name))
                (λ _. done _ (λ t e. absurd (cc e)))))
        (λ v named. done _ (λ t e.
          by_parameter (sym (named_target-parameter_name params) ∙ (named ∙ ap some (ok_inj e)))))
