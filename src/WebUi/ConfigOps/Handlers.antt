-- ===== src/WebUi/ConfigOps/Handlers.antt =====
-- The handlers of internal/webui/configops.go over the API server, which is explicit state: the
-- calls of client-go and its retry loop are parameters.
pub mod Rejected
use k8s_ai_remediator.Prelude.{
  ℕ, ◌+◌, Bool, true, false, not, ◌&&◌, ◌||◌, Option, none, some, List, [], ◌∷◌, ◌++◌, Bytes, codes,
  Map, insert, at, ℤ, pos, negsuc, eqb, leb_ℤ, ltb_ℤ, length, if◌then◌else◌,
}
use k8s_ai_remediator.Result.{Error, Result, ok, err, is_not_found}
use k8s_ai_remediator.Text.{trim_space, to_lower}
use k8s_ai_remediator.Text.Numbers.{atoi, decimal}
use k8s_ai_remediator.WebUi.ConfigOps.{ParseFloat, Form, form_value, is_one_of, general_updates}

-- the data of a ConfigMap or of a Secret: Get, Create and Update
pub record DataObject (State : Type 0) : Type 0 where
  pub get : State → State × Result (Map Bytes)
  pub create : Map Bytes → State → State × Option Error
  pub update : Map Bytes → State → State × Option Error

pub record Api : Type 1 where
  pub State : Type 0
  pub config_map : DataObject State
  pub secret : DataObject State
  -- the patch of the pod template's annotations, for a reason
  pub patch_template : Bytes → State → State × Option Error
  pub get_scale : State → State × Result ℤ
  pub update_scale : ℤ → State → State × Option Error
  -- retry.RetryOnConflict with DefaultRetry
  pub retry_on_conflict : (State → State × Option Error) → State → State × Option Error

pub record FormRequest : Type 0 where
  pub method : Bytes
  pub form_error : Option Error
  pub form : Form

pub data Reply : Type 0 where
  method_not_allowed : Reply
  json_error : ℕ → Bytes → Reply
  -- 200 with a message
  json_ok : Bytes → Reply
  -- 200 with the number of replicas
  scaled : ℤ → Reply

-- `data[k] = v` for each update
unfoldable pub merge : Map Bytes → Map Bytes → Map Bytes
merge [] m = m
merge ((k, v) ∷ updates) m = insert k v (merge updates m)

module _ {State : Type 0} (object : DataObject State) (updates : Map Bytes) where
  abbrev pub write : State → Result (Map Bytes) → State × Option Error
  write s (ok m) = object.update (merge updates m) s
  write s (err e) = if is_not_found e then object.create (merge updates []) s else (s, some e)

  -- one round of patchConfigMap or patchSecret
  unfoldable pub patch_once : State → State × Option Error
  unfolding merge
  patch_once s = let (s', got) = object.get s in write s' got

-- an error ends the handler with a status, else it goes on
unfoldable pub or_status {ℓ} : {S : Type ℓ} → ℕ → S × Option Error → (S → S × Reply) → S × Reply
or_status status (s, none) next = next s
or_status status (s, some e) next = (s, json_error status e.text)

module _ (api : Api) (parse_float : ParseFloat) where
  unfoldable pub patch_config_map : Map Bytes → api.State → api.State × Option Error
  unfolding patch_once
  patch_config_map updates = api.retry_on_conflict (patch_once api.config_map updates)

  unfoldable pub patch_secret : Map Bytes → api.State → api.State × Option Error
  unfolding patch_once
  patch_secret updates = api.retry_on_conflict (patch_once api.secret updates)

  -- the rollout, and the reply
  unfoldable pub roll_out : Bytes → Bytes → api.State → api.State × Reply
  unfolding or_status
  roll_out reason message s =
      or_status 500 (api.patch_template reason s) λ s'. (s', json_ok message)

  -- a POST whose form parses
  unfoldable pub with_form :
      FormRequest → api.State → (Form → api.State × Reply) → api.State × Reply
  with_form r s handle =
      if not (eqb r.method (codes "POST"))
      then (s, method_not_allowed)
      else elim r.form_error [ none ↦ handle r.form | some e ↦ (s, json_error 400 e.text) ]

  abbrev pub updated_message : Map Bytes → Bytes
  updated_message updates =
      codes "Updated "
      ++ (decimal (length updates) ++ codes " settings; Deployment rollout triggered")

  unfoldable pub save_general : Map Bytes → api.State → api.State × Reply
  unfolding patch_config_map roll_out or_status
  save_general [] s = (s, json_ok (codes "No changes to persist"))
  save_general (u ∷ updates) s =
      or_status 500 (patch_config_map (u ∷ updates) s)
        λ s'. roll_out (codes "general") (updated_message (u ∷ updates)) s'

  unfoldable pub handle_update_general : FormRequest → api.State → api.State × Reply
  unfolding general_updates save_general with_form
  handle_update_general r s = with_form r s λ form. elim (general_updates parse_float form) [
    | err e ↦ (s, json_error 400 e.text)
    | ok updates ↦ save_general updates s
  ]

  unfoldable pub save_redis_password : Form → api.State → api.State × Reply
  unfolding form_value patch_secret roll_out or_status
  save_redis_password form s =
      let password = form_value (codes "password") form in
      if eqb password []
      then (s, json_ok (codes "Empty password ignored"))
      else or_status 500 (patch_secret ((codes "REDIS_PASSWORD", password) ∷ []) s) (
          roll_out (codes "redis-password")
            (codes "Redis password saved; Deployment rollout triggered"))

  unfoldable pub handle_update_redis_password : FormRequest → api.State → api.State × Reply
  unfolding save_redis_password with_form
  handle_update_redis_password r s = with_form r s λ form. save_redis_password form s

  -- a field of a form that is saved unless it is empty
  abbrev pub given : Bytes → Bytes → Map Bytes → Map Bytes
  given key v updates = if eqb v [] then updates else (key, v) ∷ updates

  abbrev pub trimmed_value : Bytes → Form → Bytes
  trimmed_value key form = trim_space (form_value key form)

  unfoldable pub llm_updates : Bytes → Bytes → Bytes → Map Bytes
  llm_updates model base_url think =
      (codes "OLLAMA_MODEL", model)
      ∷ given (codes "OLLAMA_BASE_URL") base_url (given (codes "OLLAMA_THINK") think [])

  unfoldable pub save_llm : Form → api.State → api.State × Reply
  unfolding form_value is_one_of patch_config_map roll_out llm_updates or_status
  save_llm form s =
      let model = trimmed_value (codes "model") form in
      let think = to_lower (trimmed_value (codes "think") form) in
      if eqb model []
      then (s, json_error 400 (codes "model is required"))
      else if not (is_one_of ([] ∷ codes "auto" ∷ codes "true" ∷ codes "false" ∷ []) think)
      then (s, json_error 400 (codes "think must be one of auto, true, false"))
      else or_status 500
          (patch_config_map (llm_updates model (trimmed_value (codes "base_url") form) think) s)
          (roll_out (codes "llm") (codes "ConfigMap updated; Deployment rollout triggered"))

  unfoldable pub handle_update_llm : FormRequest → api.State → api.State × Reply
  unfolding save_llm with_form
  handle_update_llm r s = with_form r s λ form. save_llm form s

  unfoldable pub mail_updates : Form → Map Bytes
  unfolding form_value
  mail_updates form = given (codes "NOTIFY_SMTP_HOST") (trimmed_value (codes "host") form) (
      given (codes "NOTIFY_SMTP_PORT") (trimmed_value (codes "port") form) (
        given (codes "NOTIFY_SMTP_USER") (trimmed_value (codes "user") form) (
          given (codes "NOTIFY_FROM") (trimmed_value (codes "from") form) (
            given (codes "NOTIFY_TO") (trimmed_value (codes "to") form) (
              given (codes "NOTIFY_MIN_SEVERITY") (trimmed_value (codes "min_severity") form)
                [])))))

  -- a write that is left out when there is nothing to write
  abbrev pub unless_empty :
      (Map Bytes → api.State → api.State × Option Error)
      → Map Bytes
      → api.State
      → api.State × Option Error
  unless_empty patch [] s = (s, none)
  unless_empty patch (u ∷ updates) s = patch (u ∷ updates) s

  unfoldable pub save_mail : Form → api.State → api.State × Reply
  unfolding mail_updates form_value patch_config_map patch_secret roll_out or_status
  save_mail form s = or_status 500 (unless_empty patch_config_map (mail_updates form) s) λ s'.
      or_status 500
        (unless_empty patch_secret
          (given (codes "NOTIFY_SMTP_PASSWORD") (form_value (codes "password") form) []) s')
        (roll_out (codes "mail") (codes "Mail config saved; Deployment rollout triggered"))

  unfoldable pub handle_update_mail : FormRequest → api.State → api.State × Reply
  unfolding save_mail with_form
  handle_update_mail r s = with_form r s λ form. save_mail form s

  unfoldable pub set_scale : ℤ → api.State × Result ℤ → api.State × Reply
  unfolding or_status
  set_scale n (s, err e) = (s, json_error 500 e.text)
  set_scale n (s, ok replicas) = or_status 500 (api.update_scale n s) λ s'. (s', scaled n)

  unfoldable pub handle_scale_replicas : FormRequest → api.State → api.State × Reply
  unfolding form_value set_scale with_form
  handle_scale_replicas r s = with_form r s λ form.
      elim (atoi (trimmed_value (codes "replicas") form)) [
        | err e ↦ (s, json_error 400 (codes "replicas must be an integer in [0,10]"))
        | ok n ↦
            if ltb_ℤ n (pos 0) || ltb_ℤ (pos 10) n
            then (s, json_error 400 (codes "replicas must be an integer in [0,10]"))
            else set_scale n (api.get_scale s)
      ]
