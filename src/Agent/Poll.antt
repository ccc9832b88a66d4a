-- ===== src/Agent/Poll.antt =====
-- One poll of runLoopWithStore: the filters, the budget, deduplication, the circuit breaker, the
-- model's decision pinned to its event, and its execution. Times are nanoseconds.
pub mod Budget
pub mod Contract
pub mod Refinement
pub mod Target
use k8s_ai_remediator.Prelude.{
  ℕ, suc, ◌+◌, ◌*◌, ◌^◌, Bytes, codes, ◌++◌, List, [], ◌∷◌, Option, none, some, Bool, true, false,
  not, ◌||◌, ◌&&◌, ltb, leb, ◌==◌, ltb_ℤ, pos, eqb, any_of, insert, erase, if◌then◌else◌,
}
use k8s_ai_remediator.Result.{Error, Result, ok, err, errorf}
use k8s_ai_remediator.Text.{equal_fold}
use k8s_ai_remediator.Text.Numbers.{decimal}
use k8s_ai_remediator.Model.{
  Decision, Float64, fin, mark_for_manual_fix, action_name, is_operator_gated, parse_severity,
  meets_minimum,
}
use k8s_ai_remediator.Config.{AgentConfig}
use k8s_ai_remediator.Policy.Prompt.{build_prompt}
use k8s_ai_remediator.Cluster.{Event}
use k8s_ai_remediator.Dedup.{Store}
use k8s_ai_remediator.Effects.{
  Prog, ret, ask, ◌>>=◌, ◌>>◌, on_ok, list_events, time_now, time_left, decide, add_one,
  record_decision, notify_decision, events_processed, events_skipped, decision_errors,
  execution_errors, decisions_by_action,
}
use k8s_ai_remediator.Kube.External.{External}
use k8s_ai_remediator.Agent.Execute.{Outcome, execute_decision}
use k8s_ai_remediator.Agent.Signals.{signal_backoff_ttl, window_of, outcome_of, error_text}
use Target.{Incident, incident_of, signal_of}

unfoldable pub second : ℕ
second = 10 ^ 9

-- the windows and the budget, computed once before the loop
unfoldable pub dedupe_ttl : AgentConfig → ℕ
dedupe_ttl cfg = cfg.dedupe_ttl_sec * second

unfoldable pub seen_ttl : AgentConfig → ℕ
seen_ttl cfg =
    if cfg.event_seen_ttl_sec == 0 then 3600 * second else cfg.event_seen_ttl_sec * second

unfoldable pub attempt_window : AgentConfig → ℕ
attempt_window cfg = 12 * dedupe_ttl cfg

unfoldable pub llm_call_budget : AgentConfig → ℕ
llm_call_budget cfg =
    if cfg.ollama_http_timeout_sec == 0
    then 195 * second
    else cfg.ollama_http_timeout_sec * second + 15 * second

abbrev pub is_listed : Bytes → List Bytes → Bool
is_listed ns = any_of (λ n. eqb n ns)

-- `len(include) == 0 || include[ns]`
abbrev pub is_included : Bytes → List Bytes → Bool
is_included ns [] = true
is_included ns (n ∷ rest) = is_listed ns (n ∷ rest)

-- the three filters that need no store: the type, then the namespaces
unfoldable pub in_scope : AgentConfig → Event → Bool
in_scope cfg e =
    equal_fold e.event_type (codes "Warning")
    && not (is_listed e.namespace cfg.exclude_namespaces)
    && is_included e.namespace cfg.include_namespaces

unfoldable pub event_key : Event → Bytes
event_key e = e.namespace ++ (codes "/" ++ (e.name ++ (codes "/" ++ e.resource_version)))

-- The decision may only target the object and the namespace of its event.
unfoldable pub pin_decision : Event → Incident → Decision → Decision
pin_decision e i d = record d {
  namespace = e.namespace;
  resource_kind = e.object_kind;
  resource_name = e.object_name;
  parameters =
      if equal_fold i.kind (codes "Deployment") && not (eqb i.name [])
      then erase (codes "deployment") (insert (codes "deployment_name") i.name d.parameters)
      else d.parameters;
}

unfoldable pub give_up_decision : Event → Incident → ℕ → Decision
give_up_decision e i attempts = record {
  summary =
      codes "circuit breaker: "
      ++ (decimal attempts
          ++ (codes " remediation attempts on "
              ++ (e.namespace
                  ++ (codes "/"
                      ++ (i.name ++ (codes " (" ++ (e.reason ++ codes ") without resolution")))))));
  severity = codes "high";
  probable_cause = codes "automatic remediation is not resolving this incident";
  confidence = fin (pos 0);
  action = mark_for_manual_fix;
  namespace = e.namespace;
  resource_kind = e.object_kind;
  resource_name = e.object_name;
  parameters = [];
  reason = [];
}

unfoldable pub report : Event → Decision → Bytes → Bytes → Prog Unit
report e d outcome outcome_error = ask (
    record_decision (record {
      namespace = e.namespace;
      kind = e.object_kind;
      name = e.object_name;
      event_reason = e.reason;
      decision = d;
      outcome = outcome;
      outcome_error = outcome_error;
    }))

unfoldable pub notify : Event → Decision → Option Error → Prog Unit
notify e d execution_err = ask (
    notify_decision (record {
      namespace = e.namespace;
      kind = e.object_kind;
      name = e.object_name;
      event_reason = e.reason;
      event_message = e.message;
      decision = d;
      execution_err = execution_err;
    }))

abbrev pub count_failure : Option Error → Prog Unit
count_failure none = ret tt
count_failure (some e) = ask (add_one execution_errors)

-- `attempts` of a signal that is about to be acted on
unfoldable pub count_attempt : (s : Store) → AgentConfig → ℕ → Bytes → s.State → s.State × ℕ
count_attempt s cfg now signal st =
    if ltb 0 cfg.signal_max_attempts
    then s.incr_attempt signal now (attempt_window cfg) st
    else (st, 1)

-- execute a pinned decision and report it
unfoldable pub act :
    (s : Store) → External → AgentConfig → ℕ → Event → Incident → Decision → s.State → Prog s.State
unfolding count_attempt report notify
act s x cfg now e i d st = do
  let signal = signal_of e i
  let counted = count_attempt s cfg now signal st
  let marked =
      s.mark_signal signal now (window_of (signal_backoff_ttl (dedupe_ttl cfg) counted.1)) counted.0
  done ← execute_decision x cfg d e.reason i.extra
  let final : Decision = record d { parameters = done.parameters }
  count_failure done.error
  report e final (outcome_of done.error) (error_text done.error)
  notify e final done.error
  ret marked

-- from the model's answer on
unfoldable pub handle_decision :
    (s : Store) → External → AgentConfig → ℕ → Event → Incident → Decision → s.State → Prog s.State
unfolding act pin_decision report
handle_decision s x cfg now e i raw st = do
  ask (add_one (decisions_by_action (action_name raw.action)))
  let d = pin_decision e i raw
  if not (meets_minimum (parse_severity d.severity) (parse_severity cfg.min_severity))
        && not (is_operator_gated d.action)
      then (do
        ask (add_one events_skipped)
        report e d (codes "skipped") (codes "below minSeverity")
        ret (s.mark_signal (signal_of e i) now (dedupe_ttl cfg) st))
      else act s x cfg now e i d st

-- a fresh signal that the breaker lets through
unfoldable pub consult :
    (s : Store) → External → AgentConfig → ℕ → Event → Incident → s.State → Prog s.State
unfolding handle_decision
consult s x cfg now e i st = do
  ask (add_one events_processed)
  answer ← ask (
      decide (
        build_prompt e.namespace e.object_kind e.object_name e.event_type e.reason e.message
          i.extra))
  on_ok answer (λ d. handle_decision s x cfg now e i d st)
      (λ failure. do ask (add_one decision_errors); ret st)

-- the circuit breaker's branch
unfoldable pub give_up :
    (s : Store) → AgentConfig → ℕ → Event → Incident → ℕ → s.State → Prog s.State
unfolding give_up_decision report notify
give_up s cfg now e i attempts st = do
  let parked =
      s.mark_signal (signal_of e i) now
        (window_of (signal_backoff_ttl (dedupe_ttl cfg) (suc attempts))) st
  let d = give_up_decision e i attempts
  ask (add_one events_skipped)
  report e d (codes "blocked") (codes "max remediation attempts reached")
  notify e d (
      some (
        errorf (
          codes "max remediation attempts ("
          ++ (decimal attempts ++ codes ") reached; manual intervention required"))))
  ret parked

-- the state after one event, and whether a call of the model was made
abbrev pub Handled : Store → Type 0
Handled s = s.State × Bool

abbrev pub skipped : (s : Store) → s.State → Prog (Handled s)
skipped s st = do ask (add_one events_skipped); ret (st, false)

-- an event that is new, from the resolution of its target on
unfoldable pub handle_fresh :
    (s : Store) → External → AgentConfig → ℕ → Event → s.State → Prog (Handled s)
unfolding consult give_up
handle_fresh s x cfg now e st = do
  i ← incident_of e
  let known = s.is_signal_fresh (signal_of e i) now (dedupe_ttl cfg) st
  let tried = s.attempts (signal_of e i) now known.0
  if known.1
      then skipped s known.0
      else if ltb 0 cfg.signal_max_attempts && leb cfg.signal_max_attempts tried.1
      then (do st' ← give_up s cfg now e i tried.1 tried.0; ret (st', false))
      else (do
        st' ← consult s x cfg now e i (if ltb 0 cfg.signal_max_attempts then tried.0 else known.0)
        ret (st', true))

unfoldable pub handle_unseen :
    (s : Store) → External → AgentConfig → ℕ → Event → s.State → Prog (Handled s)
unfolding handle_fresh event_key
handle_unseen s x cfg now e st =
    let seen = s.mark_seen (event_key e) now (seen_ttl cfg) st in
    if seen.1 then handle_fresh s x cfg now e seen.0 else skipped s seen.0

abbrev pub cap_reached : AgentConfig → ℕ → Bool
cap_reached cfg processed = ltb 0 cfg.max_events_per_poll && leb cfg.max_events_per_poll processed

abbrev pub bump : ℕ → Bool → ℕ
bump processed consulted = if consulted then suc processed else processed

-- the loop over the listed events; `break` ends it with the state as it is
unfoldable pub poll_events :
    (s : Store) → External → AgentConfig → ℕ → List Event → ℕ → s.State → Prog s.State
unfolding handle_unseen in_scope
poll_events s x cfg now [] processed st = ret st
poll_events s x cfg now (e ∷ es) processed st =
    let stop = (do ask (add_one events_skipped); ret st) in
    if not (in_scope cfg e)
    then (do ask (add_one events_skipped); poll_events s x cfg now es processed st)
    else if cap_reached cfg processed
    then stop
    else (do
      left ← ask time_left
      if ltb_ℤ left (pos (llm_call_budget cfg)) then stop else (do
        h ← handle_unseen s x cfg now e st
        poll_events s x cfg now es (bump processed h.1) h.0))

unfoldable pub poll : (s : Store) → External → AgentConfig → s.State → Prog s.State
unfolding poll_events
poll s x cfg st = do
  listed ← ask list_events
  on_ok listed
      (λ es. do
        now ← ask time_now
        poll_events s x cfg now es 0 (s.evict now (dedupe_ttl cfg) (seen_ttl cfg) st))
      (λ e. ret st)
