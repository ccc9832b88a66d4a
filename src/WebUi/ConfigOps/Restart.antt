-- ===== src/WebUi/ConfigOps/Restart.antt =====
-- The settings that LoadFromEnv of internal/config/config.go gives an agent that starts after the
-- "General" form of internal/webui/configops.go has saved.
use k8s_ai_remediator.Prelude.{
  ◌≡◌, refl, ap, ◌∙◌, sym, subst, Bool, true, false, some, List, [], ◌∷◌, Bytes, codes, Map, All,
  lookup, eqb, eqb_sound, Bool-cases, inl, inr, ℤ, pos, leb_ℤ, if◌then◌else◌,
}
use k8s_ai_remediator.Result.{ok}
use k8s_ai_remediator.Text.{to_lower}
use k8s_ai_remediator.Text.Numbers.{atoi}
use k8s_ai_remediator.Model.{Float64, fin}
use k8s_ai_remediator.Config.Readers.{Env, is_truthy, parse_csv, to_int32, add_int}
use k8s_ai_remediator.Config.Load.{
  LoadedConfig, read_env, corrected, load_from_env, default_rps, default_image_threshold,
  default_patch_threshold,
}
use k8s_ai_remediator.WebUi.ConfigOps.{ConfigKind, ParseFloat, Form, general_updates, general_keys}
use k8s_ai_remediator.WebUi.ConfigOps.Handlers.{merge}
use k8s_ai_remediator.WebUi.ConfigOps.Effective.{Defaults, TakesEffect, env_of, updates-TakesEffect}

infixr 20 ◌▹◌
◌▹◌ {ℓ κ} : {A : Type ℓ} {B : Type κ} → A → B → A × B
a ▹ b = (a, b)

-- a field of the configuration with its type; `timeout` is a poll's, behind that of a request
pub data Setting : Type 0 where
  text : Bytes → Setting
  number small : ℤ → Setting
  timeout : ℤ → ℤ → Setting
  float : Float64 → Setting
  flag : Bool → Setting
  names : List Bytes → Setting

-- a field that has the value of a saved text
pub IsLoaded : ParseFloat → Bytes → Setting → Type 0
IsLoaded parse_float v (text t) = t ≡ v
IsLoaded parse_float v (number n) = atoi v ≡ ok n
IsLoaded parse_float v (small n) = (m : ℤ) × (atoi v ≡ ok m) × (n ≡ to_int32 m)
IsLoaded parse_float v (timeout request n) =
    (m : ℤ) × (atoi v ≡ ok m) × (n ≡ (if leb_ℤ m request then add_int request 60 else m))
IsLoaded parse_float v (float f) = parse_float v ≡ ok f
IsLoaded parse_float v (flag b) = b ≡ is_truthy (to_lower v)
IsLoaded parse_float v (names ns) = ns ≡ parse_csv v

-- the environment's variable of each field
abbrev pub settings : LoadedConfig → Map Setting
settings cfg =
    (codes "OLLAMA_RPS", float cfg.ollama_rps)
    ∷ (codes "OLLAMA_MAX_RETRIES", number cfg.ollama_max_retries)
    ∷ (codes "OLLAMA_HTTP_TIMEOUT_SECONDS", number cfg.ollama_http_timeout_sec)
    ∷ (
      codes "POLL_CONTEXT_TIMEOUT_SECONDS",
      timeout cfg.ollama_http_timeout_sec cfg.poll_context_timeout_sec,
    )
    ∷ (codes "OLLAMA_TLS_SKIP_VERIFY", flag cfg.ollama_tls_skip_verify)
    ∷ (codes "MIN_SEVERITY", text cfg.min_severity)
    ∷ (codes "POLL_INTERVAL_SECONDS", number cfg.poll_sec)
    ∷ (codes "MAX_EVENTS_PER_POLL", number cfg.max_events_per_poll)
    ∷ (codes "POD_LOG_TAIL_LINES", number cfg.pod_log_tail_lines)
    ∷ (codes "DRY_RUN", flag cfg.dry_run)
    ∷ (codes "SCALE_MIN", small cfg.min_scale)
    ∷ (codes "SCALE_MAX", small cfg.max_scale)
    ∷ (codes "INCLUDE_NAMESPACES", names cfg.include_namespaces)
    ∷ (codes "EXCLUDE_NAMESPACES", names cfg.exclude_namespaces)
    ∷ (codes "SCENARIO_SANDBOX_NAMESPACES", names cfg.scenario_sandbox_namespaces)
    ∷ (codes "ALLOW_IMAGE_UPDATES", flag cfg.allow_image_updates)
    ∷ (codes "IMAGE_UPDATE_CONFIDENCE_THRESHOLD", float cfg.image_update_threshold)
    ∷ (codes "IMAGE_TAG_DISCOVERY", flag cfg.image_tag_discovery)
    ∷ (codes "IMAGE_FALLBACK_TAG", text cfg.image_fallback_tag)
    ∷ (codes "ALLOW_PATCH_PROBE", flag cfg.allow_patch_probe)
    ∷ (codes "ALLOW_PATCH_RESOURCES", flag cfg.allow_patch_resources)
    ∷ (codes "ALLOW_PATCH_REGISTRY", flag cfg.allow_patch_registry)
    ∷ (codes "PATCH_CONFIDENCE_THRESHOLD", float cfg.patch_confidence_threshold)
    ∷ (codes "DEDUP_BACKEND", text cfg.dedup_backend)
    ∷ (codes "DEDUPE_TTL_SECONDS", number cfg.dedupe_ttl_sec)
    ∷ (codes "EVENT_SEEN_TTL_SECONDS", number cfg.event_seen_ttl_sec)
    ∷ (codes "SIGNAL_MAX_ATTEMPTS", number cfg.signal_max_attempts)
    ∷ (codes "REDIS_ADDR", text cfg.redis_addr)
    ∷ (codes "REDIS_DB", number cfg.redis_db)
    ∷ (codes "REDIS_KEY_PREFIX", text cfg.redis_key_prefix)
    ∷ []

abbrev of_text : Bytes → Defaults
of_text t = record { text = t; number = pos 0; float = fin (pos 0); flag = false }

abbrev of_number : ℤ → Defaults
of_number n = record { text = []; number = n; float = fin (pos 0); flag = false }

abbrev of_float : Float64 → Defaults
of_float f = record { text = []; number = pos 0; float = f; flag = false }

abbrev of_flag : Bool → Defaults
of_flag b = record { text = []; number = pos 0; float = fin (pos 0); flag = b }

-- the poll's timeout after the correction
abbrev timeout_of : LoadedConfig → ℤ
timeout_of cfg =
    if leb_ℤ cfg.poll_context_timeout_sec cfg.ollama_http_timeout_sec
    then add_int cfg.ollama_http_timeout_sec 60
    else cfg.poll_context_timeout_sec

corrected_lem :
    (cfg : LoadedConfig) → corrected cfg ≡ record cfg { poll_context_timeout_sec = timeout_of cfg }
unfolding corrected
corrected_lem cfg = pick (leb_ℤ cfg.poll_context_timeout_sec cfg.ollama_http_timeout_sec)
  where
    pick :
        (b : Bool)
        → (if b
            then record cfg { poll_context_timeout_sec = add_int cfg.ollama_http_timeout_sec 60 }
            else cfg)
          ≡ record cfg {
            poll_context_timeout_sec =
                if b then add_int cfg.ollama_http_timeout_sec 60 else cfg.poll_context_timeout_sec;
          }
    pick true = refl
    pick false = refl

module _ (parse_float : ParseFloat) (env : Env) where
  -- a saved setting of the form is a field that has its value
  abbrev IsRead : LoadedConfig → Bytes → ConfigKind → Type 0
  IsRead cfg key kind =
      (v : Bytes)
      → ((d : Defaults) → TakesEffect parse_float d env key kind v)
      → (x : Setting) × (lookup key (settings cfg) ≡ some x) × IsLoaded parse_float v x

  settings_lem :
      (p : ℤ)
      → p ≡ timeout_of (read_env parse_float env)
      → All
          (λ entry.
            IsRead
              (record (read_env parse_float env) { poll_context_timeout_sec = p })
              entry.0
              entry.1)
          general_keys
  unfolding IsLoaded read_env lookup eqb
  settings_lem p is_p =
      (λ v h. (_, refl, h (of_float default_rps)))
      ▹ (λ v h. (_, refl, h (of_number (pos 3))))
      ▹ (λ v h. (_, refl, h (of_number (pos 180))))
      ▹ (λ v h. (_, refl, (_, h (of_number (pos 300)), is_p)))
      ▹ (λ v h. (_, refl, h (of_flag false)))
      ▹ (λ v h. (_, refl, h (of_text (codes "medium"))))
      ▹ (λ v h. (_, refl, h (of_number (pos 30))))
      ▹ (λ v h. (_, refl, h (of_number (pos 10))))
      ▹ (λ v h. (_, refl, h (of_number (pos 200))))
      ▹ (λ v h. (_, refl, h (of_flag false)))
      ▹ (λ v h. (_, refl, (_, h (of_number (pos 1)), refl)))
      ▹ (λ v h. (_, refl, (_, h (of_number (pos 5)), refl)))
      ▹ (λ v h. (_, refl, ap parse_csv (h (of_text []))))
      ▹ (λ v h. (
        _,
        refl,
        ap parse_csv
            (h (of_text (codes "kube-system,kube-public,kube-node-lease,local-path-storage"))),
      ))
      ▹ (λ v h. (_, refl, ap parse_csv (h (of_text (codes "incident-lab")))))
      ▹ (λ v h. (_, refl, h (of_flag false)))
      ▹ (λ v h. (_, refl, h (of_float default_image_threshold)))
      ▹ (λ v h. (_, refl, h (of_flag true)))
      ▹ (λ v h. (_, refl, h (of_text (codes "latest"))))
      ▹ (λ v h. (_, refl, h (of_flag false)))
      ▹ (λ v h. (_, refl, h (of_flag false)))
      ▹ (λ v h. (_, refl, h (of_flag false)))
      ▹ (λ v h. (_, refl, h (of_float default_patch_threshold)))
      ▹ (λ v h. (_, refl, h (of_text (codes "redis"))))
      ▹ (λ v h. (_, refl, h (of_number (pos 300))))
      ▹ (λ v h. (_, refl, h (of_number (pos 3600))))
      ▹ (λ v h. (_, refl, h (of_number (pos 5))))
      ▹ (λ v h. (_, refl, h (of_text (codes "ai-remediator-redis:6379"))))
      ▹ (λ v h. (_, refl, h (of_number (pos 0))))
      ▹ (λ v h. (_, refl, h (of_text (codes "k8s-remediator:"))))
      ▹ tt

  loaded : All (λ entry. IsRead (load_from_env parse_float env) entry.0 entry.1) general_keys
  unfolding load_from_env
  loaded =
      subst (λ cfg. All (λ entry. IsRead cfg entry.0 entry.1) general_keys)
        (sym (corrected_lem (read_env parse_float env)))
        (settings_lem (timeout_of (read_env parse_float env)) refl)

All-lookup :
    (P : Bytes → ConfigKind → Type 0) (m : Map ConfigKind) (key : Bytes) (kind : ConfigKind)
    → All (λ entry. P entry.0 entry.1) m
    → lookup key m ≡ some kind
    → P key kind
unfolding lookup
All-lookup P [] key kind all h = absurd (cc h)
All-lookup P ((k, x) ∷ m) key kind all h = elim (Bool-cases (eqb k key)) [
  | inl same ↦
      subst (λ z. P z kind) (eqb_sound k key same)
        (subst (P k) (cc (ap (λ b. if b then some x else lookup key m) (sym same) ∙ h)) all.0)
  | inr differs ↦
      All-lookup P m key kind all.1 (ap (λ b. if b then some x else lookup key m) (sym differs) ∙ h)
]

-- A setting that the "General" form saves is what LoadFromEnv gives an agent that starts with the
-- variables of a ConfigMap into which the form's updates were merged: the field of the setting's
-- variable is the saved text, the list of its names, the truth of its flag, the number that
-- ParseFloat reads, or the integer that Atoi reads, which is kept in 32 bits for the two bounds of
-- scaling and corrected for a poll's timeout that is not larger than a request's. It is never the
-- default.
pub general_updates-IsLoaded :
    (parse_float : ParseFloat) (form : Form) (updates old : Map Bytes) (key v : Bytes)
    → general_updates parse_float form ≡ ok updates
    → lookup key updates ≡ some v
    → (x : Setting) × (lookup key
          (settings (load_from_env parse_float (env_of (merge updates old))))
        ≡ some x)
      × IsLoaded parse_float v x
general_updates-IsLoaded parse_float form updates old key v h found =
    let (kind, listed, effect) = updates-TakesEffect parse_float form updates old key v h found in
    let env = env_of (merge updates old) in
    All-lookup (IsRead parse_float env (load_from_env parse_float env)) general_keys key kind
      (loaded parse_float env) listed v effect
