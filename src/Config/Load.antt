-- ===== src/Config/Load.antt =====
-- LoadFromEnv of internal/config/config.go.
pub mod Timeouts
use k8s_ai_remediator.Prelude.{
  ℕ, ◌*◌, ◌^◌, Bool, true, false, Option, List, [], Bytes, codes, ℤ, pos, negsuc, leb_ℤ,
  if◌then◌else◌,
}
use k8s_ai_remediator.Result.{Result}
use k8s_ai_remediator.Model.{Float64, fin}
use k8s_ai_remediator.Config.{AgentConfig}
use k8s_ai_remediator.Config.Readers.{
  Env, getenv, getbool, get_optional_bool, getint, getfloat, parse_csv, to_int32, add_int,
}

-- 0.92, 2.0 and 0.85 in units of 2^-1074
abbrev pub default_image_threshold : Float64
default_image_threshold = fin (pos (8286623314361713 * 2 ^ 1021))

abbrev pub default_rps : Float64
default_rps = fin (pos (2 * 2 ^ 1074))

abbrev pub default_patch_threshold : Float64
default_patch_threshold = fin (pos (7656119366529843 * 2 ^ 1021))

-- every field of AgentConfig, as it is loaded
pub record LoadedConfig : Type 0 where
  pub base_url : Bytes
  pub model : Bytes
  pub dry_run : Bool
  pub min_scale : ℤ
  pub max_scale : ℤ
  pub poll_sec : ℤ
  pub allow_image_updates : Bool
  pub image_update_threshold : Float64
  pub image_tag_discovery : Bool
  pub image_fallback_tag : Bytes
  pub pod_log_tail_lines : ℤ
  pub ollama_rps : Float64
  pub ollama_max_retries : ℤ
  pub ollama_tls_skip_verify : Bool
  pub ollama_http_timeout_sec : ℤ
  pub poll_context_timeout_sec : ℤ
  pub ollama_think : Option Bool
  pub metrics_addr : Bytes
  pub leader_election : Bool
  pub lease_name : Bytes
  pub lease_namespace : Bytes
  pub min_severity : Bytes
  pub dedupe_ttl_sec : ℤ
  pub max_events_per_poll : ℤ
  pub event_seen_ttl_sec : ℤ
  pub signal_max_attempts : ℤ
  pub allow_patch_probe : Bool
  pub allow_patch_resources : Bool
  pub allow_patch_registry : Bool
  pub patch_confidence_threshold : Float64
  pub include_namespaces : List Bytes
  pub exclude_namespaces : List Bytes
  pub notify_smtp_host : Bytes
  pub notify_smtp_port : ℤ
  pub notify_smtp_user : Bytes
  pub notify_smtp_password : Bytes
  pub notify_from : Bytes
  pub notify_to : Bytes
  pub notify_min_severity : Bytes
  pub dedup_backend : Bytes
  pub redis_addr : Bytes
  pub redis_password : Bytes
  pub redis_db : ℤ
  pub redis_key_prefix : Bytes
  pub webui_enabled : Bool
  pub webui_addr : Bytes
  pub webui_username : Bytes
  pub webui_password : Bytes
  pub agent_namespace : Bytes
  pub agent_deployment_name : Bytes
  pub agent_config_map_name : Bytes
  pub agent_secret_name : Bytes
  pub scenario_sandbox_namespaces : List Bytes

module _ (parse_float : Bytes → Result Float64) (env : Env) where
  unfoldable pub read_env : LoadedConfig
  read_env = record {
    base_url =
        getenv env (codes "OLLAMA_BASE_URL")
          (codes "http://ollama.ollama.svc.cluster.local:11434/api");
    model = getenv env (codes "OLLAMA_MODEL") (codes "qwen3.5:9b");
    dry_run = getbool env (codes "DRY_RUN") false;
    min_scale = to_int32 (getint env (codes "SCALE_MIN") (pos 1));
    max_scale = to_int32 (getint env (codes "SCALE_MAX") (pos 5));
    poll_sec = getint env (codes "POLL_INTERVAL_SECONDS") (pos 30);
    allow_image_updates = getbool env (codes "ALLOW_IMAGE_UPDATES") false;
    image_update_threshold =
        getfloat parse_float env (codes "IMAGE_UPDATE_CONFIDENCE_THRESHOLD")
          default_image_threshold;
    image_tag_discovery = getbool env (codes "IMAGE_TAG_DISCOVERY") true;
    image_fallback_tag = getenv env (codes "IMAGE_FALLBACK_TAG") (codes "latest");
    pod_log_tail_lines = getint env (codes "POD_LOG_TAIL_LINES") (pos 200);
    ollama_rps = getfloat parse_float env (codes "OLLAMA_RPS") default_rps;
    ollama_max_retries = getint env (codes "OLLAMA_MAX_RETRIES") (pos 3);
    ollama_tls_skip_verify = getbool env (codes "OLLAMA_TLS_SKIP_VERIFY") false;
    ollama_http_timeout_sec = getint env (codes "OLLAMA_HTTP_TIMEOUT_SECONDS") (pos 180);
    poll_context_timeout_sec = getint env (codes "POLL_CONTEXT_TIMEOUT_SECONDS") (pos 300);
    ollama_think = get_optional_bool env (codes "OLLAMA_THINK") (codes "false");
    metrics_addr = getenv env (codes "METRICS_ADDR") (codes ":9090");
    leader_election = getbool env (codes "LEADER_ELECTION") false;
    lease_name = getenv env (codes "LEASE_NAME") (codes "ai-remediator-leader");
    lease_namespace = getenv env (codes "LEASE_NAMESPACE") (codes "ai-remediator");
    min_severity = getenv env (codes "MIN_SEVERITY") (codes "medium");
    dedupe_ttl_sec = getint env (codes "DEDUPE_TTL_SECONDS") (pos 300);
    max_events_per_poll = getint env (codes "MAX_EVENTS_PER_POLL") (pos 10);
    event_seen_ttl_sec = getint env (codes "EVENT_SEEN_TTL_SECONDS") (pos 3600);
    signal_max_attempts = getint env (codes "SIGNAL_MAX_ATTEMPTS") (pos 5);
    allow_patch_probe = getbool env (codes "ALLOW_PATCH_PROBE") false;
    allow_patch_resources = getbool env (codes "ALLOW_PATCH_RESOURCES") false;
    allow_patch_registry = getbool env (codes "ALLOW_PATCH_REGISTRY") false;
    patch_confidence_threshold =
        getfloat parse_float env (codes "PATCH_CONFIDENCE_THRESHOLD") default_patch_threshold;
    include_namespaces = parse_csv (getenv env (codes "INCLUDE_NAMESPACES") []);
    exclude_namespaces = parse_csv (
        getenv env (codes "EXCLUDE_NAMESPACES")
          (codes "kube-system,kube-public,kube-node-lease,local-path-storage"));
    notify_smtp_host = getenv env (codes "NOTIFY_SMTP_HOST") [];
    notify_smtp_port = getint env (codes "NOTIFY_SMTP_PORT") (pos 587);
    notify_smtp_user = getenv env (codes "NOTIFY_SMTP_USER") [];
    notify_smtp_password = getenv env (codes "NOTIFY_SMTP_PASSWORD") [];
    notify_from = getenv env (codes "NOTIFY_FROM") [];
    notify_to = getenv env (codes "NOTIFY_TO") [];
    notify_min_severity = getenv env (codes "NOTIFY_MIN_SEVERITY") (codes "medium");
    dedup_backend = getenv env (codes "DEDUP_BACKEND") (codes "redis");
    redis_addr = getenv env (codes "REDIS_ADDR") (codes "ai-remediator-redis:6379");
    redis_password = getenv env (codes "REDIS_PASSWORD") [];
    redis_db = getint env (codes "REDIS_DB") (pos 0);
    redis_key_prefix = getenv env (codes "REDIS_KEY_PREFIX") (codes "k8s-remediator:");
    webui_enabled = getbool env (codes "WEBUI_ENABLED") false;
    webui_addr = getenv env (codes "WEBUI_ADDR") (codes ":8080");
    webui_username = getenv env (codes "WEBUI_USERNAME") [];
    webui_password = getenv env (codes "WEBUI_PASSWORD") [];
    agent_namespace = getenv env (codes "AGENT_NAMESPACE") (codes "ai-remediator");
    agent_deployment_name =
        getenv env (codes "AGENT_DEPLOYMENT_NAME") (codes "ai-remediator-agent");
    agent_config_map_name =
        getenv env (codes "AGENT_CONFIGMAP_NAME") (codes "ai-remediator-config");
    agent_secret_name = getenv env (codes "AGENT_SECRET_NAME") (codes "ai-remediator-secrets");
    scenario_sandbox_namespaces =
        parse_csv (getenv env (codes "SCENARIO_SANDBOX_NAMESPACES") (codes "incident-lab"));
  }

-- the correction of a poll that would end before one request to the model
unfoldable pub corrected : LoadedConfig → LoadedConfig
corrected cfg =
    if leb_ℤ cfg.poll_context_timeout_sec cfg.ollama_http_timeout_sec
    then record cfg { poll_context_timeout_sec = add_int cfg.ollama_http_timeout_sec 60 }
    else cfg

unfoldable pub load_from_env : (Bytes → Result Float64) → Env → LoadedConfig
load_from_env parse_float env = corrected (read_env parse_float env)
