-- ===== src/WebUi/ConfigOps.antt =====
-- internal/webui/configops.go: the fields of the "General" form and their validation. Go visits the
-- map generalKeys in no fixed order; here it is the list's.
pub mod Handlers
mod Valid
pub mod Allowed
pub mod Effective
pub mod Restart
use k8s_ai_remediator.Prelude.{
  ℕ, Bool, true, false, not, ◌&&◌, ◌||◌, Option, none, some, List, [], ◌∷◌, ◌++◌, Bytes, codes, Map,
  lookup, ℤ, pos, eqb, any_of, ◌^◌, if◌then◌else◌,
}
use k8s_ai_remediator.Result.{Error, Result, ok, err, errorf, ◌>>=◌}
use k8s_ai_remediator.Text.{trim_space, to_lower, split}
use k8s_ai_remediator.Text.Numbers.{atoi}
use k8s_ai_remediator.Model.{Float64, fin, lt_float}

pub data ConfigKind : Type 0 where
  kind_string kind_int kind_float kind_unit_float kind_bool kind_csv kind_severity kind_enum :
      ConfigKind

abbrev pub general_keys : Map ConfigKind
general_keys =
    (codes "OLLAMA_RPS", kind_float)
    ∷ (codes "OLLAMA_MAX_RETRIES", kind_int)
    ∷ (codes "OLLAMA_HTTP_TIMEOUT_SECONDS", kind_int)
    ∷ (codes "POLL_CONTEXT_TIMEOUT_SECONDS", kind_int)
    ∷ (codes "OLLAMA_TLS_SKIP_VERIFY", kind_bool)
    ∷ (codes "MIN_SEVERITY", kind_severity)
    ∷ (codes "POLL_INTERVAL_SECONDS", kind_int)
    ∷ (codes "MAX_EVENTS_PER_POLL", kind_int)
    ∷ (codes "POD_LOG_TAIL_LINES", kind_int)
    ∷ (codes "DRY_RUN", kind_bool)
    ∷ (codes "SCALE_MIN", kind_int)
    ∷ (codes "SCALE_MAX", kind_int)
    ∷ (codes "INCLUDE_NAMESPACES", kind_csv)
    ∷ (codes "EXCLUDE_NAMESPACES", kind_csv)
    ∷ (codes "SCENARIO_SANDBOX_NAMESPACES", kind_csv)
    ∷ (codes "ALLOW_IMAGE_UPDATES", kind_bool)
    ∷ (codes "IMAGE_UPDATE_CONFIDENCE_THRESHOLD", kind_unit_float)
    ∷ (codes "IMAGE_TAG_DISCOVERY", kind_bool)
    ∷ (codes "IMAGE_FALLBACK_TAG", kind_string)
    ∷ (codes "ALLOW_PATCH_PROBE", kind_bool)
    ∷ (codes "ALLOW_PATCH_RESOURCES", kind_bool)
    ∷ (codes "ALLOW_PATCH_REGISTRY", kind_bool)
    ∷ (codes "PATCH_CONFIDENCE_THRESHOLD", kind_unit_float)
    ∷ (codes "DEDUP_BACKEND", kind_enum)
    ∷ (codes "DEDUPE_TTL_SECONDS", kind_int)
    ∷ (codes "EVENT_SEEN_TTL_SECONDS", kind_int)
    ∷ (codes "SIGNAL_MAX_ATTEMPTS", kind_int)
    ∷ (codes "REDIS_ADDR", kind_string)
    ∷ (codes "REDIS_DB", kind_int)
    ∷ (codes "REDIS_KEY_PREFIX", kind_string)
    ∷ []

abbrev pub bool_fields_always_sent : List Bytes
bool_fields_always_sent =
    codes "OLLAMA_TLS_SKIP_VERIFY"
    ∷ codes "DRY_RUN"
    ∷ codes "ALLOW_IMAGE_UPDATES"
    ∷ codes "IMAGE_TAG_DISCOVERY"
    ∷ codes "ALLOW_PATCH_PROBE"
    ∷ codes "ALLOW_PATCH_RESOURCES"
    ∷ codes "ALLOW_PATCH_REGISTRY"
    ∷ []

unfoldable pub is_one_of : List Bytes → Bytes → Bool
is_one_of [] v = false
is_one_of (x ∷ xs) v = eqb x v || is_one_of xs v

abbrev pub unless_one_of : List Bytes → Bytes → Bytes → Option Error
unless_one_of xs v text = if is_one_of xs v then none else some (errorf text)

abbrev zero_float : Float64
zero_float = fin (pos 0)

-- 2^1074 units of 2^-1074
abbrev one_float : Float64
one_float = fin (pos (2 ^ 1074))

-- strconv.ParseFloat with the error's text
abbrev pub ParseFloat : Type 0
ParseFloat = Bytes → Result Float64

module _ (parse_float : ParseFloat) where
  unfoldable pub validate_config_value : ConfigKind → Bytes → Option Error
  unfolding is_one_of
  validate_config_value kind_string raw = none
  validate_config_value kind_int raw = elim (atoi raw) [
    | ok n ↦ none
    | err e ↦ some (errorf (codes "not an integer: " ++ e.text))
  ]
  validate_config_value kind_float raw = elim (parse_float raw) [
    | ok f ↦ none
    | err e ↦ some (errorf (codes "not a number: " ++ e.text))
  ]
  validate_config_value kind_unit_float raw = elim (parse_float raw) [
    | err e ↦ some (errorf (codes "not a number: " ++ e.text))
    | ok f ↦
        if lt_float f zero_float || lt_float one_float f
        then some (errorf (codes "must be in [0,1]"))
        else none
  ]
  validate_config_value kind_bool raw =
      unless_one_of
        (codes "true"
          ∷ codes "false"
          ∷ codes "1"
          ∷ codes "0"
          ∷ codes "yes"
          ∷ codes "no"
          ∷ codes "on"
          ∷ codes "off"
          ∷ [])
        (to_lower raw) (codes "not a boolean")
  validate_config_value kind_csv raw = none
  validate_config_value kind_severity raw =
      unless_one_of (codes "low" ∷ codes "medium" ∷ codes "high" ∷ codes "critical" ∷ [])
        (to_lower raw) (codes "must be one of low, medium, high, critical")
  validate_config_value kind_enum raw =
      unless_one_of (codes "memory" ∷ codes "redis" ∷ []) raw
        (codes "invalid backend, expected memory or redis")

-- r.Form: the values of each field
abbrev pub Form : Type 0
Form = Map (List Bytes)

unfoldable pub values_of : Bytes → Form → List Bytes
values_of key form = elim (lookup key form) [ none ↦ [] | some vs ↦ vs ]

-- r.FormValue: the first value, or the empty text
unfoldable pub form_value : Bytes → Form → Bytes
unfolding values_of
form_value key form = elim (values_of key form) [ [] ↦ [] | v ∷ vs ↦ v ]

-- the names in the comma-separated values of "__bool_fields"
unfoldable pub marked : List Bytes → Bytes → Bool
unfolding any_of
marked [] key = false
marked (v ∷ vs) key = any_of (λ n. eqb (trim_space n) key) (split b',' v) || marked vs key

abbrev pub is_checked : Bytes → Bool
is_checked raw = eqb raw (codes "true") || (eqb raw (codes "on") || eqb raw (codes "1"))

abbrev pub add_update : Bytes → Option Bytes → Map Bytes → Map Bytes
add_update key none updates = updates
add_update key (some v) updates = (key, v) ∷ updates

module _ (parse_float : ParseFloat) (form : Form) where
  -- a checkbox
  unfoldable pub bool_update : Bytes → Option Bytes
  unfolding form_value marked
  bool_update key =
      if marked (values_of (codes "__bool_fields") form) key
      then some (if is_checked (form_value key form) then codes "true" else codes "false")
      else none

  -- another field, whose empty value leaves the setting as it is
  unfoldable pub text_update : Bytes → ConfigKind → Result (Option Bytes)
  unfolding validate_config_value form_value
  text_update key kind =
      let raw = trim_space (form_value key form) in
      if eqb raw [] then ok none else elim (validate_config_value parse_float kind raw) [
        | none ↦ ok (some raw)
        | some e ↦ err (errorf (key ++ (codes ": " ++ e.text)))
      ]

  unfoldable pub field_update : Bytes → ConfigKind → Result (Option Bytes)
  unfolding bool_update text_update is_one_of
  field_update key kind =
      if is_one_of bool_fields_always_sent key then ok (bool_update key) else text_update key kind

  -- the loop over generalKeys
  unfoldable pub updates_of : Map ConfigKind → Result (Map Bytes)
  unfolding field_update
  updates_of [] = ok []
  updates_of ((key, kind) ∷ keys) = do
    v ← field_update key kind
    rest ← updates_of keys
    ok (add_update key v rest)

  unfoldable pub general_updates : Result (Map Bytes)
  unfolding updates_of
  general_updates = updates_of general_keys
