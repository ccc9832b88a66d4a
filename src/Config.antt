-- ===== src/Config.antt =====
-- internal/config/config.go: the settings that the executor and the poll loop read. Counts and
-- windows are not negative here; a negative one counts as zero where the code tests `> 0`.
pub mod Readers
pub mod Load
use k8s_ai_remediator.Prelude.{ℕ, ℤ, Bytes, Bool, List}
use k8s_ai_remediator.Model.{Float64}

pub record AgentConfig : Type 0 where
  pub dry_run : Bool
  pub min_scale : ℤ
  pub max_scale : ℤ
  pub allow_image_updates : Bool
  pub image_update_threshold : Float64
  pub image_tag_discovery : Bool
  pub image_fallback_tag : Bytes
  pub pod_log_tail_lines : ℤ
  pub ollama_http_timeout_sec : ℕ
  pub min_severity : Bytes
  pub dedupe_ttl_sec : ℕ
  pub max_events_per_poll : ℕ
  pub event_seen_ttl_sec : ℕ
  pub signal_max_attempts : ℕ
  pub allow_patch_probe : Bool
  pub allow_patch_resources : Bool
  pub allow_patch_registry : Bool
  pub patch_confidence_threshold : Float64
  pub include_namespaces : List Bytes
  pub exclude_namespaces : List Bytes
