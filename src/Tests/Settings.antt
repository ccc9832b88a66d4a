-- ===== src/Tests/Settings.antt =====
-- The theorems on internal/config and on internal/webui/configops.go at a small environment and form.
use k8s_ai_remediator.Prelude.{
  ℕ, ◌+◌, ◌≡◌, refl, arith, Bytes, codes, [], ◌∷◌, none, some, true, List, Map, pos, All, lookup,
  eqb, ltb_ℤ,
}
use mathlib.Core.List.{cons-ne-nil}
use k8s_ai_remediator.Result.{ok, fail}
use k8s_ai_remediator.Text.{trim_space, split, join, has_byte}
use k8s_ai_remediator.Text.Numbers.{atoi}
use k8s_ai_remediator.Config.Readers.{Env, getint, parse_csv}
use k8s_ai_remediator.Config.Readers.Csv.{IsEntry, parse_csv-join, parse_csv-IsEntry}
use k8s_ai_remediator.Config.Load.{load_from_env, read_env, corrected}
use k8s_ai_remediator.Config.Load.Timeouts.{load_from_env-lt}
use k8s_ai_remediator.WebUi.ConfigOps.{ConfigKind, ParseFloat, Form, general_keys, general_updates}
use k8s_ai_remediator.WebUi.ConfigOps.Allowed.{IsSaved, general_updates-IsSaved}
use k8s_ai_remediator.WebUi.ConfigOps.Effective.{env_of}
use k8s_ai_remediator.WebUi.ConfigOps.Restart.{
  Setting, IsLoaded, settings, general_updates-IsLoaded,
}
use k8s_ai_remediator.WebUi.ConfigOps.Handlers.{Api, FormRequest, merge, handle_scale_replicas}
use k8s_ai_remediator.WebUi.ConfigOps.Handlers.Rejected.{replicas, handle, handle-is_rejected}

-- no text is a number
abbrev parse_float : ParseFloat
parse_float text = fail (codes "not a number")

abbrev bare : Env
bare key = []

abbrev names : List Bytes
names = codes "shop" ∷ codes "blog" ∷ []

abbrev form : Form
form =
    (codes "SCALE_MAX", codes " 7" ∷ [])
    ∷ (codes "DRY_RUN", codes "on" ∷ [])
    ∷ (codes "__bool_fields", codes "DRY_RUN, ALLOW_PATCH_PROBE" ∷ [])
    ∷ (codes "WEBUI_PASSWORD", codes "mine" ∷ [])
    ∷ []

abbrev saved : Map Bytes
saved =
    (codes "DRY_RUN", codes "true")
    ∷ (codes "SCALE_MAX", codes "7")
    ∷ (codes "ALLOW_PATCH_PROBE", codes "false")
    ∷ []

saves : general_updates parse_float form ≡ ok saved
unfolding general_updates eqb lookup trim_space split atoi
saves = refl

load_from_env-lt_example :
    ltb_ℤ
      (load_from_env parse_float bare).ollama_http_timeout_sec
      (load_from_env parse_float bare).poll_context_timeout_sec
    ≡ true
unfolding load_from_env read_env corrected eqb trim_space getint
load_from_env-lt_example = load_from_env-lt parse_float bare (omega arith)

parse_csv-join_example : parse_csv (join (b',' ∷ []) names) ≡ names
unfolding trim_space has_byte
parse_csv-join_example =
    parse_csv-join names (((cons-ne-nil _ _, refl), refl), (((cons-ne-nil _ _, refl), refl), tt))

parse_csv-IsEntry_example : All IsEntry (parse_csv (codes " shop,, blog "))
parse_csv-IsEntry_example = parse_csv-IsEntry (codes " shop,, blog ")

general_updates-IsSaved_example :
    (kind : ConfigKind) × (lookup (codes "SCALE_MAX") general_keys ≡ some kind)
    × IsSaved parse_float (codes "SCALE_MAX") kind (codes "7")
unfolding lookup eqb
general_updates-IsSaved_example =
    general_updates-IsSaved parse_float form saved (codes "SCALE_MAX") (codes "7") saves refl

general_updates-IsLoaded_example :
    (x : Setting) × (lookup
        (codes "SCALE_MAX")
        (settings (load_from_env parse_float (env_of (merge saved []))))
      ≡ some x)
    × IsLoaded parse_float (codes "7") x
unfolding lookup eqb
general_updates-IsLoaded_example =
    general_updates-IsLoaded parse_float form saved [] (codes "SCALE_MAX") (codes "7") saves refl

-- a server that counts the calls which change it
abbrev counting : Api
counting = record {
  State = ℕ;
  config_map = record {
    get = λ s. (s, ok []);
    create = λ m s. (s + 1, none);
    update = λ m s. (s + 1, none);
  };
  secret = record {
    get = λ s. (s, ok []);
    create = λ m s. (s + 1, none);
    update = λ m s. (s + 1, none);
  };
  patch_template = λ reason s. (s + 1, none);
  get_scale = λ s. (s, ok (pos 1));
  update_scale = λ n s. (s + 1, none);
  retry_on_conflict = λ f. f;
}

abbrev too_many : FormRequest
too_many = record {
  method = codes "POST";
  form_error = none;
  form = (codes "replicas", codes "11" ∷ []) ∷ [];
}

handle-is_rejected_example : (handle counting parse_float replicas too_many 0).0 ≡ 0
unfolding handle_scale_replicas lookup eqb trim_space atoi
handle-is_rejected_example = handle-is_rejected counting parse_float replicas too_many 0 refl
