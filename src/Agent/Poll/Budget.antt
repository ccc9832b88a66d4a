-- ===== src/Agent/Poll/Budget.antt =====
-- MAX_EVENTS_PER_POLL (cmd/agent/main.go) and the calls of the model in one poll.
use mathlib.Core.Bool.{true≢false}
use k8s_ai_remediator.Prelude.{
  ◌≡◌, refl, arith, ℕ, suc, ◌-◌, ◌≤◌, ◌<◌, Bool, true, false, not, ◌&&◌, ltb, leb, Bytes, List, [],
  ◌∷◌, Option, none, some, if◌then◌else◌, ltb_ℤ, pos,
}
use k8s_ai_remediator.Result.{Error}
use k8s_ai_remediator.Model.{Decision, parse_severity, meets_minimum, is_operator_gated}
use k8s_ai_remediator.Config.{AgentConfig}
use k8s_ai_remediator.Cluster.{Event}
use k8s_ai_remediator.Dedup.{Store}
use k8s_ai_remediator.Kube.External.{External, RetryLaw}
use k8s_ai_remediator.Effects.{ret}
use k8s_ai_remediator.Effects.Contract.{Given, Contract, is_guarded}
use k8s_ai_remediator.Effects.Spending.{
  Spends, stop, spend, Spends-pass, is_ask, Spends-more, Spends-if, Spends-bind, Spends-on_ok,
  Spends-of-Meets,
}
use k8s_ai_remediator.Agent.Execute.{execute_decision}
use k8s_ai_remediator.Agent.Execute.Contract.{execution_contract}
use k8s_ai_remediator.Agent.Execute.Refinement.{execute_decision-Meets}
use k8s_ai_remediator.Agent.Poll.{
  in_scope, pin_decision, act, handle_decision, consult, give_up, handle_fresh, handle_unseen,
  poll_events, poll, report, notify, skipped, cap_reached, bump, dedupe_ttl, seen_ttl, event_key,
  llm_call_budget, count_failure,
}
use k8s_ai_remediator.Agent.Poll.Target.{Incident, signal_of, incident_of}
use k8s_ai_remediator.Agent.Poll.Refinement.Pinned.{incident_of-Meets}

-- a contract with nothing but reads
abbrev quiet : Contract
quiet = record { permits = λ c. is_guarded c ≡ false; grants = λ c r. Unit }

incident_of-Spends : (n : ℕ) (e : Event) → Spends (λ _. n) n (incident_of e)
unfolding is_guarded
incident_of-Spends n e =
    Spends-of-Meets {k = quiet} n _ (λ q h. true≢false h) (λ c r. tt)
      (incident_of-Meets quiet (λ c h. h) e)

abbrev anything_given : Given
anything_given c r = Unit

module _ (x : External) (cfg : AgentConfig) (law : RetryLaw x) (s : Store) (now : ℕ) where
  execute_decision-Spends :
      (n : ℕ) (d : Decision) (reason extra : Bytes)
      → Spends (λ _. n) n (execute_decision x cfg d reason extra)
  execute_decision-Spends n d reason extra =
      Spends-of-Meets {k = execution_contract x cfg anything_given d reason extra} n _ (λ q h. h)
        (λ c r. tt) (execute_decision-Meets x cfg anything_given d reason extra law)

  count_failure-Spends : (n : ℕ) (e : Option Error) → Spends (λ _. n) n (count_failure e)
  unfolding is_ask
  count_failure-Spends n none = stop n _ (omega arith)
  count_failure-Spends n (some e) = Spends-pass n _ _ refl (λ _. stop n _ (omega arith))

  act-Spends :
      (n : ℕ) (e : Event) (i : Incident) (d : Decision) (st : s.State)
      → Spends (λ _. n) n (act s x cfg now e i d st)
  unfolding act report notify is_ask
  act-Spends n e i d st = Spends-bind _ _ (execute_decision-Spends n d e.reason i.extra) (λ outcome.
      Spends-bind _ _ (count_failure-Spends n outcome.error)
        (λ _. Spends-pass n _ _ refl (λ _. Spends-pass n _ _ refl (λ _. stop n _ (omega arith)))))

  handle_decision-Spends :
      (n : ℕ) (e : Event) (i : Incident) (raw : Decision) (st : s.State)
      → Spends (λ _. n) n (handle_decision s x cfg now e i raw st)
  unfolding handle_decision report is_ask
  handle_decision-Spends n e i raw st =
      let d = pin_decision e i raw in
      Spends-pass n _ _ refl (λ _.
        Spends-if
          (not (meets_minimum (parse_severity d.severity) (parse_severity cfg.min_severity))
            && not (is_operator_gated d.action))
          _ _
          (λ _. Spends-pass n _ _ refl (λ _. Spends-pass n _ _ refl (λ _. stop n _ (omega arith))))
          (λ _. act-Spends n e i d st))

  consult-Spends :
      (n : ℕ) (e : Event) (i : Incident) (st : s.State)
      → Spends (λ _. n) (suc n) (consult s x cfg now e i st)
  unfolding consult is_ask
  consult-Spends n e i st = Spends-pass (suc n) _ _ refl (λ _. spend n _ _ (λ answer.
      Spends-on_ok answer _ _ (λ d. handle_decision-Spends n e i d st)
        (λ failure. Spends-pass n _ _ refl (λ _. stop n _ (omega arith)))))

  give_up-Spends :
      (n : ℕ) (e : Event) (i : Incident) (tried : ℕ) (st : s.State)
      → Spends (λ _. n) n (give_up s cfg now e i tried st)
  unfolding give_up report notify is_ask
  give_up-Spends n e i tried st =
      Spends-pass n _ _ refl
        (λ _. Spends-pass n _ _ refl (λ _. Spends-pass n _ _ refl (λ _. stop n _ (omega arith))))

  -- what one event leaves of a supply of `suc n`
  abbrev left_of : ℕ → s.State × Bool → ℕ
  left_of n h = if h.1 then n else suc n

  skipped-Spends : (n : ℕ) (st : s.State) → Spends (left_of n) (suc n) (skipped s st)
  unfolding is_ask
  skipped-Spends n st = Spends-pass (suc n) _ _ refl (λ _. stop (suc n) _ (omega arith))

  handle_fresh-Spends :
      (n : ℕ) (e : Event) (st : s.State)
      → Spends (left_of n) (suc n) (handle_fresh s x cfg now e st)
  unfolding handle_fresh
  handle_fresh-Spends n e st = Spends-bind _ _ (incident_of-Spends (suc n) e) (λ i.
      let fresh = s.is_signal_fresh (signal_of e i) now (dedupe_ttl cfg) st in
      let tried = s.attempts (signal_of e i) now fresh.0 in
      Spends-if fresh.1 _ _ (λ _. skipped-Spends n fresh.0)
        (λ _.
          Spends-if (ltb 0 cfg.signal_max_attempts && leb cfg.signal_max_attempts tried.1) _ _
            (λ _.
              Spends-bind _ (λ st'. ret (st', false)) (give_up-Spends (suc n) e i tried.1 tried.0)
                (λ st'. stop (suc n) (st', false) (omega arith)))
            (λ _.
              Spends-bind _ (λ st'. ret (st', true)) (consult-Spends n e i _)
                (λ st'. stop n (st', true) (omega arith)))))

  handle_unseen-Spends :
      (n : ℕ) (e : Event) (st : s.State)
      → Spends (left_of n) (suc n) (handle_unseen s x cfg now e st)
  unfolding handle_unseen
  handle_unseen-Spends n e st =
      let seen = s.mark_seen (event_key e) now (seen_ttl cfg) st in
      Spends-if seen.1 _ _ (λ _. handle_fresh-Spends n e seen.0) (λ _. skipped-Spends n seen.0)

  cap_not_reached :
      (cap processed : ℕ)
      → 0 < cap
      → (ltb 0 cap && leb cap processed) ≡ false
      → suc (cap - suc processed) ≤ cap - processed
  cap_not_reached cap processed h g = ground arith

  after_event :
      (cap processed : ℕ) (h : s.State × Bool)
      → cap - bump processed h.1 ≤ left_of (cap - suc processed) h
  after_event cap processed (st, true) = omega arith
  after_event cap processed (st, false) = omega arith

  poll_events-Spends :
      (es : List Event) (processed : ℕ) (st : s.State)
      → 0 < cfg.max_events_per_poll
      → Spends
          (λ _. 0)
          (cfg.max_events_per_poll - processed)
          (poll_events s x cfg now es processed st)
  unfolding poll_events is_ask
  poll_events-Spends [] processed st capped = stop _ _ (omega arith)
  poll_events-Spends (e ∷ es) processed st capped =
      let n = cfg.max_events_per_poll - suc processed in
      Spends-if (not (in_scope cfg e)) _ _
        (λ _. Spends-pass _ _ _ refl (λ _. poll_events-Spends es processed st capped))
        (λ _.
          Spends-if (cap_reached cfg processed) _ _
            (λ _. Spends-pass _ _ _ refl (λ _. stop _ _ (omega arith)))
            (λ below. Spends-pass _ _ _ refl (λ left.
              Spends-if (ltb_ℤ left (pos (llm_call_budget cfg))) _ _
                (λ _. Spends-pass _ _ _ refl (λ _. stop _ _ (omega arith)))
                (λ _.
                  Spends-more _ _
                    (Spends-bind _ _ (handle_unseen-Spends n e st) (λ h.
                      Spends-more _ _ (poll_events-Spends es (bump processed h.1) h.0 capped)
                        (after_event cfg.max_events_per_poll processed h)))
                    (cap_not_reached cfg.max_events_per_poll processed capped below)))))

-- With MAX_EVENTS_PER_POLL set, for every External whose retry loop repeats an attempt after
-- conflicts only, a bounded number of times, and every store, no run of a poll asks the model more
-- often than that, however many events are listed and whatever is answered.
pub poll-Spends :
    (x : External) (cfg : AgentConfig) (s : Store) (st : s.State)
    → RetryLaw x
    → 0 < cfg.max_events_per_poll
    → Spends (λ _. 0) cfg.max_events_per_poll (poll s x cfg st)
unfolding poll is_ask
poll-Spends x cfg s st law capped = Spends-pass _ _ _ refl (λ answer.
    Spends-on_ok answer _ _
      (λ es.
        Spends-pass _ _ _ refl
          (λ now. Spends-more _ _ (poll_events-Spends x cfg law s now es 0 _ capped) (omega arith)))
      (λ e. stop _ _ (omega arith)))
