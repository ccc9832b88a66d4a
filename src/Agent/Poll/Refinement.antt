-- ===== src/Agent/Poll/Refinement.antt =====
-- One poll of runLoopWithStore (cmd/agent/main.go) against its contract.
pub mod Pinned
mod Executed
mod Scope
use mathlib.Core.Bool.{true≢false}
use k8s_ai_remediator.Prelude.{
  ◌≡◌, ◌≢◌, ◌⊎◌, inl, inr, refl, arith, ap, ◌∙◌, sym, subst, true, false, not, ◌&&◌, ◌||◌, Bool,
  Bytes, List, [], ◌∷◌, some, none, eqb, eqb_sound, eqb_self, any_of, any_of-All, any_of-Any, All,
  Any, ℕ, ltb, leb, ltb_ℤ, pos, Option,
}
use k8s_ai_remediator.Result.{Error, ok, err}
use k8s_ai_remediator.Model.{Decision, parse_severity, meets_minimum, is_operator_gated}
use k8s_ai_remediator.Config.{AgentConfig}
use k8s_ai_remediator.Cluster.{Deployment, Event}
use k8s_ai_remediator.Dedup.{Store}
use k8s_ai_remediator.Kube.External.{External, RetryLaw}
use k8s_ai_remediator.Effects.{
  Call, Answer, ret, get_deployment, get_replica_set, get_pod, list_pods, update_deployment,
  delete_pod, read_logs, list_tags, list_events, time_now, now_rfc3339, time_left, decide, add_one,
  record_decision, notify_decision,
}
use k8s_ai_remediator.Effects.Contract.{
  Contract, Given, Meets, done, next, Anything, Meets-bind, Meets-on_ok, Meets-on_none, Meets-if,
  Meets-loosen, AllowsReads, is_guarded,
}
use k8s_ai_remediator.Agent.Execute.{execute_decision}
use k8s_ai_remediator.Agent.Execute.Contract.{
  execution_contract, Change, restarted, scaled, image_set, probe_patched, resources_patched,
  registry_patched,
}
use k8s_ai_remediator.Policy.Prompt.{build_prompt}
use k8s_ai_remediator.Agent.Execute.Refinement.{execute_decision-Meets}
use k8s_ai_remediator.Agent.Poll.{
  in_scope, is_included, pin_decision, act, handle_decision, consult, give_up, handle_fresh,
  handle_unseen, poll_events, poll, report, notify, skipped, cap_reached, bump, dedupe_ttl,
  seen_ttl, event_key, llm_call_budget, count_failure,
}
use k8s_ai_remediator.Agent.Poll.Target.{Incident, signal_of}
use k8s_ai_remediator.Agent.Poll.Contract.{IsInScope, IsCause, IsListed, IsAdvice, poll_contract}
use Executed.{poll_contract-AllowsReads, executed-Meets}
use Scope.{in_scope-IsInScope}
use Pinned.{IsIncident, incident_of-Meets, pinned-Restricts}

not-false : {b : Bool} → not b ≡ false → b ≡ true
not-false {b} h = ground arith

-- each of the listed events is one
All-IsListed : (gave : Given) (es : List Event) → gave list_events (ok es) → All (IsListed gave) es
All-IsListed gave es given = go es (λ e h. h)
  where
    go :
        (rest : List Event)
        → ((e : Event) → Any (λ e'. e' ≡ e) rest → Any (λ e'. e' ≡ e) es)
        → All (IsListed gave) rest
    go [] among = tt
    go (e ∷ rest) among = ((es, given, among e (inl refl)), go rest (λ e' h. among e' (inr h)))

module _ (x : External) (cfg : AgentConfig) (gave : Given) (law : RetryLaw x) where
  abbrev k : Contract
  k = poll_contract x cfg gave

  count_failure-Meets : (e : Option Error) → Meets k Anything (count_failure e)
  count_failure-Meets none = done _ tt
  count_failure-Meets (some e) = next _ _ tt (λ _ _. done _ tt)

  module _ (s : Store) (now : ℕ) (e : Event) (is_listed : IsListed gave e)
      (scope : IsInScope cfg e) where
    act-Meets :
        (i : Incident) (known : IsIncident gave e i) (raw : Decision)
        → IsAdvice gave e i.extra raw
        → (st : s.State) → Meets k Anything (act s x cfg now e i (pin_decision e i raw) st)
    unfolding act report notify is_guarded
    act-Meets i known raw advice st =
        Meets-bind _ _ (executed-Meets x cfg gave e is_listed scope i known raw advice law)
          (λ outcome _.
            Meets-bind _ _ (count_failure-Meets outcome.error)
              (λ _ _. next _ _ tt (λ _ _. next _ _ tt (λ _ _. done _ tt))))

    handle_decision-Meets :
        (i : Incident)
        → IsIncident gave e i
        → (raw : Decision) → IsAdvice gave e i.extra raw
        → (st : s.State) → Meets k Anything (handle_decision s x cfg now e i raw st)
    unfolding handle_decision report
    handle_decision-Meets i known raw advice st =
        let d = pin_decision e i raw in
        next _ _ tt (λ _ _.
          Meets-if
            (not (meets_minimum (parse_severity d.severity) (parse_severity cfg.min_severity))
              && not (is_operator_gated d.action))
            _ _ (λ _. next _ _ tt (λ _ _. next _ _ tt (λ _ _. done _ tt)))
            (λ _. act-Meets i known raw advice st))

    consult-Meets :
        (i : Incident)
        → IsIncident gave e i
        → (st : s.State) → Meets k Anything (consult s x cfg now e i st)
    unfolding consult
    consult-Meets i known st = next _ _ tt (λ _ _. next _ _ tt (λ answer given.
        Meets-on_ok answer _ _
          (λ d is_d.
            handle_decision-Meets i known d
              (subst
                (gave (
                  decide (
                    build_prompt e.namespace e.object_kind e.object_name e.event_type e.reason
                      e.message i.extra)))
                is_d given)
              st)
          (λ failure. next _ _ tt (λ _ _. done _ tt))))

    give_up-Meets :
        (i : Incident) (tried : ℕ) (st : s.State)
        → Meets k Anything (give_up s cfg now e i tried st)
    unfolding give_up report notify
    give_up-Meets i tried st =
        next _ _ tt (λ _ _. next _ _ tt (λ _ _. next _ _ tt (λ _ _. done _ tt)))

    skipped-Meets : (st : s.State) → Meets k Anything (skipped s st)
    skipped-Meets st = next _ _ tt (λ _ _. done _ tt)

    handle_fresh-Meets : (st : s.State) → Meets k Anything (handle_fresh s x cfg now e st)
    unfolding handle_fresh
    handle_fresh-Meets st =
        Meets-bind _ _ (incident_of-Meets k (poll_contract-AllowsReads x cfg gave) e) (λ i known.
          let fresh = s.is_signal_fresh (signal_of e i) now (dedupe_ttl cfg) st in
          let tried = s.attempts (signal_of e i) now fresh.0 in
          Meets-if fresh.1 _ _ (λ _. skipped-Meets fresh.0)
            (λ _.
              Meets-if (ltb 0 cfg.signal_max_attempts && leb cfg.signal_max_attempts tried.1) _ _
                (λ _.
                  Meets-bind _ (λ st'. ret (st', false)) (give_up-Meets i tried.1 tried.0)
                    (λ st' _. done (st', false) tt))
                (λ _.
                  Meets-bind _ (λ st'. ret (st', true)) (consult-Meets i known _)
                    (λ st' _. done (st', true) tt))))

    handle_unseen-Meets : (st : s.State) → Meets k Anything (handle_unseen s x cfg now e st)
    unfolding handle_unseen
    handle_unseen-Meets st =
        let seen = s.mark_seen (event_key e) now (seen_ttl cfg) st in
        Meets-if seen.1 _ _ (λ _. handle_fresh-Meets seen.0) (λ _. skipped-Meets seen.0)

  poll_events-Meets :
      (s : Store) (now : ℕ) (es : List Event)
      → All (IsListed gave) es
      → (processed : ℕ) (st : s.State) → Meets k Anything (poll_events s x cfg now es processed st)
  unfolding poll_events
  poll_events-Meets s now [] are_listed processed st = done _ tt
  poll_events-Meets s now (e ∷ es) (is_listed, are_listed) processed st =
      Meets-if (not (in_scope cfg e)) _ _
        (λ _. next _ _ tt (λ _ _. poll_events-Meets s now es are_listed processed st))
        (λ kept.
          let scope = in_scope-IsInScope cfg e (not-false kept) in
          Meets-if (cap_reached cfg processed) _ _ (λ _. next _ _ tt (λ _ _. done _ tt))
            (λ _. next _ _ tt (λ left _.
              Meets-if (ltb_ℤ left (pos (llm_call_budget cfg))) _ _
                (λ _. next _ _ tt (λ _ _. done _ tt))
                (λ _.
                  Meets-bind _ _ (handle_unseen-Meets s now e is_listed scope st)
                    (λ h _. poll_events-Meets s now es are_listed (bump processed h.1) h.0)))))

-- For every External whose retry loop repeats an attempt after conflicts only, a bounded number of
-- times, and every store, one poll writes nothing that its contract forbids, whatever the API
-- server, the registry, the model and the clock answer: each write is made without dry_run, for an
-- event that the server listed, that is a warning of a namespace that the operator includes and
-- does not exclude, in the event's own namespace; a deleted pod is the event's object; a written
-- Deployment is one of the changes that the configuration allows, for the decision that the model
-- answered to the event's prompt, of a Deployment that the server gave, with no restart for an
-- event that is Unhealthy or FailedScheduling and no scaling for one that is FailedScheduling. It is
-- the Deployment that stands for the event: the object of an event on a Deployment, and for an
-- event on a pod the one that the server showed as its owner, or else the one that the pod's name
-- suggests. Where none stands for the event, or its name is blank, the model's parameters may name
-- any Deployment of the namespace.
pub poll-Meets :
    (x : External) (cfg : AgentConfig) (gave : Given) (s : Store) (st : s.State)
    → RetryLaw x
    → Meets (poll_contract x cfg gave) Anything (poll s x cfg st)
unfolding poll
poll-Meets x cfg gave s st law = next _ _ tt (λ answer granted.
    Meets-on_ok answer _ _
      (λ es is_es. next _ _ tt (λ now _.
        poll_events-Meets x cfg gave law s now es
          (All-IsListed gave es (subst (gave list_events) is_es granted)) 0 _))
      (λ e. done _ tt))
