-- ===== src/Agent/Poll/Refinement/Executed.antt =====
-- Executing a pinned decision within the contract for one poll (cmd/agent/main.go).
use mathlib.Core.Bool.{true≢false}
use k8s_ai_remediator.Prelude.{Bytes}
use k8s_ai_remediator.Model.{Decision}
use k8s_ai_remediator.Config.{AgentConfig}
use k8s_ai_remediator.Cluster.{Deployment, Event}
use k8s_ai_remediator.Kube.External.{External, RetryLaw}
use k8s_ai_remediator.Effects.{
  Call, get_deployment, get_replica_set, get_pod, list_pods, update_deployment, delete_pod,
  read_logs, list_tags, list_events, time_now, now_rfc3339, time_left, decide, add_one,
  record_decision, notify_decision,
}
use k8s_ai_remediator.Effects.Contract.{
  Contract, Given, Meets, Anything, Meets-loosen, AllowsReads, is_guarded,
}
use k8s_ai_remediator.Agent.Execute.{execute_decision}
use k8s_ai_remediator.Agent.Execute.Contract.{
  execution_contract, Change, restarted, scaled, image_set, probe_patched, resources_patched,
  registry_patched,
}
use k8s_ai_remediator.Agent.Execute.Refinement.{execute_decision-Meets}
use k8s_ai_remediator.Agent.Poll.{pin_decision}
use k8s_ai_remediator.Agent.Poll.Target.{Incident}
use k8s_ai_remediator.Agent.Poll.Contract.{IsInScope, IsListed, IsAdvice, poll_contract}
use k8s_ai_remediator.Agent.Poll.Refinement.Pinned.{IsIncident, pinned-Restricts}

-- Pinning changes neither the action nor the confidence.
Change-pinned :
    (x : External) (cfg : AgentConfig) (e : Event) (i : Incident) (raw : Decision) (extra : Bytes)
    (dep dep' : Deployment)
    → Change x cfg e.reason extra (pin_decision e i raw) dep dep'
    → Change x cfg e.reason extra raw dep dep'
unfolding pin_decision
Change-pinned x cfg e i raw extra dep dep' (restarted t clear made) = restarted t clear made
Change-pinned x cfg e i raw extra dep dep' (scaled r t low high clear made) =
    scaled r t low high clear made
Change-pinned x cfg e i raw extra dep dep' (image_set image c t flag sure made) =
    image_set image c t flag sure made
Change-pinned x cfg e i raw extra dep dep' (probe_patched ns n c p f t flag sure made) =
    probe_patched ns n c p f t flag sure made
Change-pinned x cfg e i raw extra dep dep' (resources_patched ns n c p t flag sure made) =
    resources_patched ns n c p t flag sure made
Change-pinned x cfg e i raw extra dep dep' (registry_patched ns n c r t flag sure made) =
    registry_patched ns n c r t flag sure made

module _ (x : External) (cfg : AgentConfig) (gave : Given) where
  abbrev k : Contract
  k = poll_contract x cfg gave

  pub poll_contract-AllowsReads : AllowsReads k
  unfolding is_guarded
  poll_contract-AllowsReads (update_deployment ns dep) h = absurd (true≢false h)
  poll_contract-AllowsReads (delete_pod ns name grace) h = absurd (true≢false h)
  poll_contract-AllowsReads (get_deployment ns name) h = tt
  poll_contract-AllowsReads (get_replica_set ns name) h = tt
  poll_contract-AllowsReads (get_pod ns name) h = tt
  poll_contract-AllowsReads (list_pods ns sel) h = tt
  poll_contract-AllowsReads (read_logs ns pod c prev tail) h = tt
  poll_contract-AllowsReads (list_tags host repo) h = tt
  poll_contract-AllowsReads list_events h = tt
  poll_contract-AllowsReads time_now h = tt
  poll_contract-AllowsReads now_rfc3339 h = tt
  poll_contract-AllowsReads time_left h = tt
  poll_contract-AllowsReads (decide p) h = tt
  poll_contract-AllowsReads (add_one c) h = tt
  poll_contract-AllowsReads (record_decision r) h = tt
  poll_contract-AllowsReads (notify_decision r) h = tt

  -- executing a decision that is pinned to an event in scope
  module _ (e : Event) (is_listed : IsListed gave e) (scope : IsInScope cfg e) (i : Incident)
      (known : IsIncident gave e i) (raw : Decision) (advice : IsAdvice gave e i.extra raw) where
    abbrev pinned : Decision
    pinned = pin_decision e i raw

    permits :
        (c : Call) → (execution_contract x cfg gave pinned e.reason i.extra).permits c → k.permits c
    unfolding pin_decision
    permits (update_deployment ns dep') (here, live, change) = (
      e,
      record { event_listed = is_listed; in_scope = scope; live = live; namespace = here },
      (
        i.extra,
        raw,
        advice,
        record {
          name = change.name;
          dep = change.dep;
          given = change.given;
          target = (
            known.0,
            known.1,
            pinned-Restricts gave e i raw known.0 change.name known.2 change.target,
          );
          change = Change-pinned x cfg e i raw i.extra change.dep dep' change.change;
        },
      ),
    )
    permits (delete_pod ns name grace) (here, live, same, pod) = (
      e,
      record { event_listed = is_listed; in_scope = scope; live = live; namespace = here },
      same,
      pod,
    )
    permits (get_deployment ns name) h = tt
    permits (get_replica_set ns name) h = tt
    permits (get_pod ns name) h = tt
    permits (list_pods ns sel) h = tt
    permits (read_logs ns pod c prev tail) h = tt
    permits (list_tags host repo) h = tt
    permits list_events h = tt
    permits time_now h = tt
    permits now_rfc3339 h = tt
    permits time_left h = tt
    permits (decide p) h = tt
    permits (add_one c) h = tt
    permits (record_decision r) h = tt
    permits (notify_decision r) h = tt

    pub executed-Meets :
        RetryLaw x → Meets k Anything (execute_decision x cfg pinned e.reason i.extra)
    executed-Meets law =
        Meets-loosen _ permits (λ c r h. h)
          (execute_decision-Meets x cfg gave pinned e.reason i.extra law)
