-- ===== src/Tests.antt =====
-- The theorems on a small cluster, its configuration and a few calls of the deduplication.
mod Client
mod Dashboard
mod History
mod Mail
mod Redis
mod Settings
use k8s_ai_remediator.Prelude.{
  ℕ, suc, ◌*◌, ◌^◌, ◌≡◌, ◌⊎◌, refl, arith, Bytes, codes, [], ◌∷◌, none, some, true, false, Bool,
  if◌then◌else◌, eqb, pos, List, lookup, at,
}
use k8s_ai_remediator.Result.{ok, fail}
use k8s_ai_remediator.Text.{trim_space}
use k8s_ai_remediator.Text.Numbers.{atoi}
use k8s_ai_remediator.Model.{Decision, fin, restart_deployment}
use k8s_ai_remediator.Config.{AgentConfig}
use k8s_ai_remediator.Cluster.{
  Event, Deployment, Container, Probe, Quantity, quantity_lt, max_memory_quantity,
  min_memory_quantity,
}
use k8s_ai_remediator.Kube.External.{External, RetryLaw, attempts}
use k8s_ai_remediator.Kube.Probes.{set_fields, parse_probe_field, field_of}
use k8s_ai_remediator.Kube.Probes.Bounds.{IsTunedFrom, set_fields-IsTunedFrom}
use k8s_ai_remediator.Kube.Resources.{set_quantities, check_limits}
use k8s_ai_remediator.Kube.Resources.Bounds.{IsResourcePatch, set_quantities-IsResourcePatch}
use k8s_ai_remediator.Effects.Contract.{Given, Meets, Anything}
use k8s_ai_remediator.Effects.{get_deployment}
use k8s_ai_remediator.Effects.Spending.{Spends}
use k8s_ai_remediator.Dedup.Memory
use k8s_ai_remediator.Dedup.Memory.{MemoryStore, new_memory_store, memory_store}
use k8s_ai_remediator.Dedup.Memory.Invariant.{new_memory_store-IsWellFormed}
use k8s_ai_remediator.Dedup.Memory.Windows.{
  mark_seen-mark_seen, is_signal_fresh-mark_signal, attempts-incr_attempt, mark_seen-evict,
}
use k8s_ai_remediator.Dedup.Memory.Eviction.{
  replies, replies-evict, plain, Request, fresh, mark, count, increment,
}
use k8s_ai_remediator.Agent.Memory.{memory_floor, compute_bumped_memory_limit}
use k8s_ai_remediator.Agent.Memory.Bounds.{compute_bumped_memory_limit-bounds}
use k8s_ai_remediator.Agent.Signals.{signal_backoff_ttl}
use k8s_ai_remediator.Agent.Signals.Backoff.{signal_backoff_ttl-min}
use k8s_ai_remediator.Agent.Signals.Refusals.{IsBlocked, outcome_of-guards}
use k8s_ai_remediator.Registry.{Version, pick_newest, stand_in}
use k8s_ai_remediator.Registry.Newest.{
  IsListedTag, IsGreatest, HasNoVersion, pick_newest-IsGreatest,
}
use k8s_ai_remediator.Policy.{
  maybe_block_restart_on_probe_failure, maybe_block_restart_on_oom_killed,
  maybe_block_wrong_action_on_failed_scheduling, maybe_block_unsafe_image_update,
  maybe_block_unsafe_patch, PatchFlags,
}
use k8s_ai_remediator.Agent.Execute.{execute_decision}
use k8s_ai_remediator.Agent.Execute.Contract.{execution_contract}
use k8s_ai_remediator.Agent.Execute.Refinement.{execute_decision-Meets}
use k8s_ai_remediator.Agent.Poll.{poll}
use k8s_ai_remediator.Agent.Poll.Contract.{poll_contract}
use k8s_ai_remediator.Agent.Poll.Refinement.{poll-Meets}
use k8s_ai_remediator.Agent.Poll.Budget.{poll-Spends}

-- quantities that read "1Gi" alone, and five attempts
abbrev one_gib : Quantity
one_gib = record { amount = pos (2 ^ 30 * 10 ^ 9); shown = codes "1Gi" }

abbrev external : External
external = record {
  parse_quantity =
      λ text. if eqb text (codes "1Gi") then ok one_gib else fail (codes "not a quantity");
  quantity_value = λ q. pos (2 ^ 30);
  quantity_set = λ q n. one_gib;
  retry_on_conflict = attempts 4;
}

external-RetryLaw : RetryLaw external
external-RetryLaw = record { bounded = λ m. (4, refl) }

abbrev settings : AgentConfig
settings = record {
  dry_run = false;
  min_scale = pos 1;
  max_scale = pos 5;
  allow_image_updates = false;
  image_update_threshold = fin (pos 0);
  image_tag_discovery = false;
  image_fallback_tag = [];
  pod_log_tail_lines = pos 200;
  ollama_http_timeout_sec = 180;
  min_severity = codes "medium";
  dedupe_ttl_sec = 300;
  max_events_per_poll = 3;
  event_seen_ttl_sec = 3600;
  signal_max_attempts = 5;
  allow_patch_probe = true;
  allow_patch_resources = true;
  allow_patch_registry = false;
  patch_confidence_threshold = fin (pos 0);
  include_namespaces = codes "shop" ∷ [];
  exclude_namespaces = codes "kube-system" ∷ [];
}

abbrev restart : Decision
restart = record {
  summary = codes "crash loop";
  severity = codes "high";
  probable_cause = [];
  confidence = fin (pos 1);
  action = restart_deployment;
  namespace = codes "shop";
  resource_kind = codes "Deployment";
  resource_name = codes "cart";
  parameters = (codes "deployment_name", codes "cart") ∷ [];
  reason = [];
}

-- the server answers with the deployment that was asked for
abbrev AnswersByName : Given
AnswersByName (get_deployment ns name) (ok dep) = dep.name ≡ name
AnswersByName c r = Unit

poll-Meets_example :
    Meets
      (poll_contract external settings AnswersByName)
      Anything
      (poll memory_store external settings new_memory_store)
poll-Meets_example =
    poll-Meets external settings AnswersByName memory_store new_memory_store external-RetryLaw

execute_decision-Meets_example :
    Meets
      (execution_contract external settings AnswersByName restart (codes "BackOff") [])
      Anything
      (execute_decision external settings restart (codes "BackOff") [])
execute_decision-Meets_example =
    execute_decision-Meets external settings AnswersByName restart (codes "BackOff") []
      external-RetryLaw

poll-Spends_example : Spends (λ _. 0) 3 (poll memory_store external settings new_memory_store)
poll-Spends_example =
    poll-Spends external settings memory_store new_memory_store external-RetryLaw (omega arith)

abbrev cart_signal : Bytes
cart_signal = codes "shop|Deployment|cart|BackOff"

mark_seen-mark_seen_example :
    (Memory.mark_seen
      (codes "shop/cart.1/7")
      20
      60
      (Memory.mark_seen (codes "shop/cart.1/7") 10 60 new_memory_store).0).1
    ≡ false
unfolding eqb
mark_seen-mark_seen_example =
    mark_seen-mark_seen (codes "shop/cart.1/7") (codes "shop/cart.1/7") 10 20 60 60 new_memory_store

is_signal_fresh-mark_signal_example :
    Memory.is_signal_fresh cart_signal 309 300
      (Memory.mark_signal cart_signal 10 300 new_memory_store)
    ≡ true
unfolding eqb
is_signal_fresh-mark_signal_example =
    is_signal_fresh-mark_signal cart_signal cart_signal 10 309 300 300 new_memory_store

attempts-incr_attempt_example :
    ((Memory.incr_attempt cart_signal 10 3600 new_memory_store).1
      ≡ suc (Memory.attempts cart_signal 10 new_memory_store))
    × (Memory.attempts cart_signal 3611 (Memory.incr_attempt cart_signal 10 3600 new_memory_store).0
        ≡ 0)
unfolding eqb
attempts-incr_attempt_example =
    attempts-incr_attempt cart_signal cart_signal 10 3611 3600 new_memory_store

mark_seen-evict_example :
    (Memory.mark_seen cart_signal 80 60
      (Memory.evict 70 300 60 (Memory.mark_seen cart_signal 10 60 new_memory_store).0)).1
    ≡ true
unfolding Memory.mark_seen new_memory_store lookup
mark_seen-evict_example =
    mark_seen-evict cart_signal 10 70 80 60 300 60 new_memory_store new_memory_store-IsWellFormed
      refl

abbrev requests : List (Bool × ℕ × Request)
requests =
    (false, 10, increment cart_signal 100)
    ∷ (false, 10, mark cart_signal 50)
    ∷ (true, 70, fresh cart_signal 50)
    ∷ (true, 120, count cart_signal)
    ∷ []

replies-evict_example :
    replies 50 60 requests new_memory_store ≡ replies 50 60 (plain requests) new_memory_store
replies-evict_example =
    replies-evict 50 60 0 requests new_memory_store
      (omega arith, (omega arith, (omega arith, (omega arith, tt)))) new_memory_store-IsWellFormed

abbrev slow_probe : Probe
slow_probe = record {
  initial_delay_seconds = pos 0;
  period_seconds = pos 1;
  failure_threshold = pos 1;
  success_threshold = pos 1;
  timeout_seconds = pos 1;
}

abbrev cart : Container
cart = record {
  name = codes "cart";
  image = codes "cart:1";
  cpu_request = none;
  memory_request = none;
  cpu_limit = none;
  memory_limit = none;
  readiness = some slow_probe;
  liveness = none;
}

set_fields-IsTunedFrom_example :
    IsTunedFrom slow_probe (record slow_probe { timeout_seconds = pos 5 })
unfolding set_fields parse_probe_field field_of eqb atoi trim_space
set_fields-IsTunedFrom_example =
    set_fields-IsTunedFrom ((codes "timeout_seconds", codes "5") ∷ []) slow_probe
      (record slow_probe { timeout_seconds = pos 5 }) refl

set_quantities-IsResourcePatch_example :
    IsResourcePatch external
      ((codes "memory_limit", codes "1Gi") ∷ [])
      cart
      (record cart { memory_limit = some one_gib })
unfolding set_quantities eqb trim_space at lookup min_memory_quantity max_memory_quantity
    check_limits
set_quantities-IsResourcePatch_example =
    set_quantities-IsResourcePatch external ((codes "memory_limit", codes "1Gi") ∷ []) cart
      (record cart { memory_limit = some one_gib }) refl

compute_bumped_memory_limit-bounds_example :
    (quantity_lt (compute_bumped_memory_limit external (some one_gib)) memory_floor ≡ false)
    × (quantity_lt max_memory_quantity (compute_bumped_memory_limit external (some one_gib))
        ≡ false)
compute_bumped_memory_limit-bounds_example =
    compute_bumped_memory_limit-bounds external (some one_gib)

signal_backoff_ttl-min_example : signal_backoff_ttl 300 3 ≡ pos 1200
signal_backoff_ttl-min_example = signal_backoff_ttl-min 300 3 (omega arith)

abbrev patch_flags : PatchFlags
patch_flags = record {
  allow_probe = true;
  allow_resources = true;
  allow_registry = false;
  threshold = fin (pos 1);
}

outcome_of-guards_example :
    IsBlocked (maybe_block_restart_on_probe_failure restart (codes "Unhealthy"))
    × IsBlocked (maybe_block_restart_on_oom_killed restart (codes "reason=OOMKilled"))
    × IsBlocked (maybe_block_wrong_action_on_failed_scheduling restart (codes "Unhealthy"))
    × IsBlocked (maybe_block_unsafe_image_update restart false (fin (pos 1)))
    × IsBlocked (maybe_block_unsafe_patch restart patch_flags)
outcome_of-guards_example =
    outcome_of-guards restart (codes "Unhealthy") (codes "reason=OOMKilled") false (fin (pos 1))
      patch_flags

abbrev tags : List Bytes
tags = codes "1.9" ∷ codes "latest" ∷ codes "1.10" ∷ codes "2.0-rc1" ∷ []

pick_newest-IsGreatest_example :
    ((v : Version) × IsListedTag (codes "1.9") (pick_newest tags (codes "1.9")) v tags
      × IsGreatest (codes "1.9") v tags)
    ⊎ (HasNoVersion (codes "1.9") tags
        × (pick_newest tags (codes "1.9") ≡ stand_in (codes "1.9") tags))
pick_newest-IsGreatest_example = pick_newest-IsGreatest tags (codes "1.9")
