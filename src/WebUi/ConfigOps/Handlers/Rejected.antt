-- ===== src/WebUi/ConfigOps/Handlers/Rejected.antt =====
-- Requests that the handlers of internal/webui/configops.go refuse.
use k8s_ai_remediator.Prelude.{
  ◌≡◌, refl, Bool, true, false, not, ◌||◌, Option, none, some, [], ◌∷◌, Bytes, codes, Map, eqb,
  ◌==◌, if◌then◌else◌, Bool-cases, Option-cases, inl, inr, ltb_ℤ, ℤ, pos, sym, ◌∙◌,
}
use mathlib.Core.Bool.{true≢false}
use k8s_ai_remediator.Result.{Error, Result, ok, err}
use k8s_ai_remediator.Text.{to_lower}
use k8s_ai_remediator.Text.Numbers.{atoi}
use k8s_ai_remediator.WebUi.ConfigOps.{ParseFloat, Form, form_value, is_one_of, general_updates}
use k8s_ai_remediator.WebUi.ConfigOps.Handlers.{
  Api, FormRequest, Reply, method_not_allowed, json_error, json_ok, scaled, or_status, with_form,
  roll_out, save_general, unless_empty, set_scale, updated_message, patch_config_map, patch_secret,
  trimmed_value, llm_updates, mail_updates, given, save_llm, save_mail, save_redis_password,
  handle_update_general, handle_update_llm, handle_update_mail, handle_update_redis_password,
  handle_scale_replicas,
}

pub data Handler : Type 0 where
  general llm mail redis_password replicas : Handler

-- the status is 400 or 405
abbrev pub is_rejected : Reply → Bool
is_rejected method_not_allowed = true
is_rejected (json_error status text) = status == 400
is_rejected (json_ok message) = false
is_rejected (scaled n) = false

-- a reply that does not refuse
record IsAccepted {State : Type 0} (x : State × Reply) : Type 0 where
  accepted : is_rejected x.1 ≡ false

-- a reply that refuses leaves the API server as it was
record IsUntouched {State : Type 0} (s : State) (x : State × Reply) : Type 0 where
  same : is_rejected x.1 ≡ true → x.0 ≡ s

module _ {State : Type 0} where
  of_accepted : (s : State) (x : State × Reply) → IsAccepted x → IsUntouched s x
  of_accepted s x h = record { same = λ e. absurd (true≢false (sym e ∙ h.accepted)) }

  refused : (s : State) (reply : Reply) → IsUntouched s (s, reply)
  refused s reply = record { same = λ e. refl }

  or_status-IsAccepted :
      (x : State × Option Error) (next : State → State × Reply)
      → ((s : State) → IsAccepted (next s))
      → IsAccepted (or_status 500 x next)
  unfolding or_status
  or_status-IsAccepted (s, none) next h = h s
  or_status-IsAccepted (s, some e) next h = record { accepted = refl }

  patched :
      (s : State) (x : State × Option Error) (next : State → State × Reply)
      → ((s : State) → IsAccepted (next s))
      → IsUntouched s (or_status 500 x next)
  patched s x next h = of_accepted s _ (or_status-IsAccepted x next h)

module _ (api : Api) (parse_float : ParseFloat) where
  abbrev pub handle : Handler → FormRequest → api.State → api.State × Reply
  handle general = handle_update_general api parse_float
  handle llm = handle_update_llm api parse_float
  handle mail = handle_update_mail api parse_float
  handle redis_password = handle_update_redis_password api parse_float
  handle replicas = handle_scale_replicas api parse_float

  roll_out-IsAccepted :
      (reason message : Bytes) (s : api.State)
      → IsAccepted (roll_out api parse_float reason message s)
  unfolding roll_out
  roll_out-IsAccepted reason message s =
      or_status-IsAccepted (api.patch_template reason s) _ (λ s'. record { accepted = refl })

  with_form-IsUntouched :
      (r : FormRequest) (s : api.State) (handler : Form → api.State × Reply)
      → ((form : Form) → IsUntouched s (handler form))
      → IsUntouched s (with_form api parse_float r s handler)
  unfolding with_form
  with_form-IsUntouched r s handler h = elim (Bool-cases (eqb r.method (codes "POST"))) [
    | inr other ↦ rw other (refused s method_not_allowed)
    | inl post ↦ elim (Option-cases r.form_error) [
      | inl parsed ↦ rw (post, parsed) (h r.form)
      | inr (e, failed) ↦ rw (post, failed) (refused s _)
    ]
  ]

  save_general-IsAccepted :
      (updates : Map Bytes) (s : api.State) → IsAccepted (save_general api parse_float updates s)
  unfolding save_general
  save_general-IsAccepted [] s = record { accepted = refl }
  save_general-IsAccepted (u ∷ updates) s =
      let message = updated_message api parse_float (u ∷ updates) in
      or_status-IsAccepted (patch_config_map api parse_float (u ∷ updates) s)
        (roll_out api parse_float (codes "general") message)
        (roll_out-IsAccepted (codes "general") message)

  abbrev outcome : api.State → Result (Map Bytes) → api.State × Reply
  outcome s (err e) = (s, json_error 400 e.text)
  outcome s (ok updates) = save_general api parse_float updates s

  outcome-IsUntouched : (s : api.State) (u : Result (Map Bytes)) → IsUntouched s (outcome s u)
  outcome-IsUntouched s (err e) = refused s (json_error 400 e.text)
  outcome-IsUntouched s (ok updates) =
      of_accepted s (save_general api parse_float updates s) (save_general-IsAccepted updates s)

  -- a write and the rollout after it
  patch_and_roll :
      (s : api.State) (x : api.State × Option Error) (reason message : Bytes)
      → IsUntouched s (or_status 500 x (roll_out api parse_float reason message))
  patch_and_roll s x reason message =
      patched s x (roll_out api parse_float reason message) (roll_out-IsAccepted reason message)

  -- a test before the handler goes on
  checked :
      (s : api.State) (b : Bool) (reply : Reply) (x : api.State × Reply)
      → IsUntouched s x
      → IsUntouched s (if b then (s, reply) else x)
  checked s true reply x h = refused s reply
  checked s false reply x h = h

  abbrev scale_outcome : api.State → Result ℤ → api.State × Reply
  scale_outcome s (err e) = (s, json_error 400 (codes "replicas must be an integer in [0,10]"))
  scale_outcome s (ok n) =
      if ltb_ℤ n (pos 0) || ltb_ℤ (pos 10) n
      then (s, json_error 400 (codes "replicas must be an integer in [0,10]"))
      else set_scale api parse_float n (api.get_scale s)

  set_scale-IsAccepted :
      (n : ℤ) (x : api.State × Result ℤ) → IsAccepted (set_scale api parse_float n x)
  unfolding set_scale
  set_scale-IsAccepted n (s, err e) = record { accepted = refl }
  set_scale-IsAccepted n (s, ok m) =
      or_status-IsAccepted (api.update_scale n s) (λ s'. (s', scaled n))
        (λ s'. record { accepted = refl })

  scale_outcome-IsUntouched : (s : api.State) (n : Result ℤ) → IsUntouched s (scale_outcome s n)
  scale_outcome-IsUntouched s (err e) = refused s _
  scale_outcome-IsUntouched s (ok n) =
      checked s (ltb_ℤ n (pos 0) || ltb_ℤ (pos 10) n) _
        (set_scale api parse_float n (api.get_scale s))
        (of_accepted s _ (set_scale-IsAccepted n (api.get_scale s)))

  save_llm-IsUntouched :
      (form : Form) (s : api.State) → IsUntouched s (save_llm api parse_float form s)
  unfolding save_llm
  save_llm-IsUntouched form s = elim (Bool-cases (eqb model [])) [
    | inl missing ↦ rw missing (refused s _)
    | inr named ↦
        elim (Bool-cases
          (not (is_one_of ([] ∷ codes "auto" ∷ codes "true" ∷ codes "false" ∷ []) think))) [
            | inl other ↦ rw (named, other) (refused s _)
            | inr valid ↦
                rw (named, valid)
                  (patch_and_roll s
                    (patch_config_map api parse_float
                      (llm_updates api parse_float model
                        (trimmed_value api parse_float (codes "base_url") form) think)
                      s)
                    (codes "llm") (codes "ConfigMap updated; Deployment rollout triggered"))
          ]
  ]
    where
      model : Bytes
      model = trimmed_value api parse_float (codes "model") form

      think : Bytes
      think = to_lower (trimmed_value api parse_float (codes "think") form)

  save_redis_password-IsUntouched :
      (form : Form) (s : api.State) → IsUntouched s (save_redis_password api parse_float form s)
  unfolding save_redis_password
  save_redis_password-IsUntouched form s =
      let password = form_value (codes "password") form in
      elim (Bool-cases (eqb password [])) [
        | inl empty ↦ rw empty (refused s _)
        | inr filled ↦ rw filled (
            patch_and_roll s
              (patch_secret api parse_float ((codes "REDIS_PASSWORD", password) ∷ []) s)
              (codes "redis-password") (codes "Redis password saved; Deployment rollout triggered"))
      ]

  save_mail-IsUntouched :
      (form : Form) (s : api.State) → IsUntouched s (save_mail api parse_float form s)
  unfolding save_mail
  save_mail-IsUntouched form s =
      let password = form_value (codes "password") form in
      let roll =
        roll_out api parse_float (codes "mail")
          (codes "Mail config saved; Deployment rollout triggered") in
      let secret : api.State → api.State × Option Error =
        unless_empty api parse_float (patch_secret api parse_float)
          (given api parse_float (codes "NOTIFY_SMTP_PASSWORD") password []) in
      patched s
        (unless_empty api parse_float (patch_config_map api parse_float)
          (mail_updates api parse_float form) s)
        (λ s'. or_status 500 (secret s') roll)
        (λ s'. or_status-IsAccepted (secret s') roll (roll_out-IsAccepted (codes "mail") _))

  handle-IsUntouched :
      (h : Handler) (r : FormRequest) (s : api.State) → IsUntouched s (handle h r s)
  unfolding handle_update_general handle_update_llm handle_update_mail handle_update_redis_password
      handle_scale_replicas
  handle-IsUntouched general r s =
      with_form-IsUntouched r s (λ form. outcome s (general_updates parse_float form))
        (λ form. outcome-IsUntouched s (general_updates parse_float form))
  handle-IsUntouched llm r s =
      with_form-IsUntouched r s (λ form. save_llm api parse_float form s)
        (λ form. save_llm-IsUntouched form s)
  handle-IsUntouched mail r s =
      with_form-IsUntouched r s (λ form. save_mail api parse_float form s)
        (λ form. save_mail-IsUntouched form s)
  handle-IsUntouched redis_password r s =
      with_form-IsUntouched r s (λ form. save_redis_password api parse_float form s)
        (λ form. save_redis_password-IsUntouched form s)
  handle-IsUntouched replicas r s =
      let n : Form → Result ℤ =
        λ form. atoi (trimmed_value api parse_float (codes "replicas") form) in
      with_form-IsUntouched r s (λ form. scale_outcome s (n form))
        (λ form. scale_outcome-IsUntouched s (n form))

-- Where a handler of the configuration forms answers that the request is not allowed or is bad, it
-- has made no call that changes the cluster.
pub handle-is_rejected :
    (api : Api) (parse_float : ParseFloat) (h : Handler) (r : FormRequest) (s : api.State)
    → is_rejected (handle api parse_float h r s).1 ≡ true
    → (handle api parse_float h r s).0 ≡ s
handle-is_rejected api parse_float h r s e = (handle-IsUntouched api parse_float h r s).same e
