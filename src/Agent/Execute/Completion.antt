-- ===== src/Agent/Execute/Completion.antt =====
-- What executeDecision completes before it patches: the probe, its timing and the quantities.
use k8s_ai_remediator.Prelude.{
  Bytes, codes, ◌++◌, [], ◌∷◌, Option, none, some, Bool, ◌||◌, Map, at, eqb, if◌then◌else◌,
}
use k8s_ai_remediator.Result.{Result, ok, fail}
use k8s_ai_remediator.Text.{trim_space, to_lower, equal_fold}
use k8s_ai_remediator.Policy.{is_oom_context}
use k8s_ai_remediator.Effects.{Prog, ret, ask, get_deployment, ◌>>=◌, on_ok}
use k8s_ai_remediator.Kube.External.{External}
use k8s_ai_remediator.Agent.Memory.{
  with_oom_memory_floor, has_resource_params, with_schedulable_resource_defaults,
}
use k8s_ai_remediator.Agent.Escalation.{choose_probe_from_deployment}

abbrev pub is_scheduling_failure : Bytes → Bool
is_scheduling_failure reason = equal_fold (trim_space reason) (codes "FailedScheduling")

unfoldable pub completed_resources :
    External → Bytes → Bytes → Map Bytes → Bytes → Bytes → Prog (Map Bytes)
completed_resources x ns dep params reason extra =
    if is_oom_context extra
    then with_oom_memory_floor x ns dep params
    else if has_resource_params params
    then ret params
    else if is_scheduling_failure reason
    then ret (with_schedulable_resource_defaults params)
    else with_oom_memory_floor x ns dep params

abbrev given_field : Map Bytes → Bytes → Map Bytes → Map Bytes
given_field params key rest =
    let v = trim_space (at key params) in if eqb v [] then rest else (key, v) ∷ rest

-- the timing fields that are given
unfoldable pub given_fields : Map Bytes → Map Bytes
given_fields params = given_field params (codes "initial_delay_seconds") (
    given_field params (codes "period_seconds") (
      given_field params (codes "failure_threshold") (
        given_field params (codes "success_threshold")
          (given_field params (codes "timeout_seconds") []))))

abbrev or_tolerant : Map Bytes → Map Bytes
or_tolerant [] =
    (codes "failure_threshold", codes "6")
    ∷ (codes "period_seconds", codes "15")
    ∷ (codes "timeout_seconds", codes "5")
    ∷ []
or_tolerant (f ∷ fs) = f ∷ fs

unfoldable pub probe_fields : Map Bytes → Map Bytes
unfolding given_fields
probe_fields params = or_tolerant (given_fields params)

pub no_probe_error : Bytes → Bytes
no_probe_error dep =
    codes "probe must be one of: readiness, liveness (and deployment "
    ++ (dep ++ codes " has no probe to derive a default from)")

abbrev pub derived_probe : Bytes → Bytes → Option (Bytes × Bytes) → Result (Bytes × Bytes)
derived_probe dep container none = fail (no_probe_error dep)
derived_probe dep container (some (c, p)) = ok ((if eqb container [] then c else container), p)

-- the container and the probe type, derived from the Deployment if the parameters name no probe
unfoldable pub completed_probe : Bytes → Bytes → Map Bytes → Prog (Result (Bytes × Bytes))
completed_probe ns dep params =
    let container = trim_space (at (codes "container") params) in
    let probe_type = to_lower (trim_space (at (codes "probe") params)) in
    if eqb probe_type (codes "readiness") || eqb probe_type (codes "liveness")
    then ret (ok (container, probe_type))
    else (do
      got ← ask (get_deployment ns dep)
      on_ok got (λ d. ret (derived_probe dep container (choose_probe_from_deployment d)))
          (λ e. ret (
            fail (
              codes "probe must be one of: readiness, liveness (deriving a default failed: "
              ++ (e.text ++ codes ")")))))
