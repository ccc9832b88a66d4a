-- ===== src/WebUi/ConfigOps/Effective.antt =====
-- A saved setting at the agent's next start: the "General" form of internal/webui/configops.go
-- against the readers of internal/config/config.go.
use mathlib.Core.Bool.{true≢false}
use mathlib.Core.List.{cons-ne-nil}
use k8s_ai_remediator.Prelude.{
  ◌≡◌, ◌≢◌, ◌⊎◌, inl, inr, refl, sym, ap, ◌∙◌, subst, Bool, true, false, ◌||◌, none, some, [], ◌∷◌,
  Bytes, codes, Map, List, All, lookup, eqb_sound, at, eqb, eqb_iff, arith, Bool-cases, ℤ,
  lookup-insert,
}
use k8s_ai_remediator.Result.{ok}
use k8s_ai_remediator.Text.{trim_space, to_lower}
use k8s_ai_remediator.Text.Numbers.{atoi}
use k8s_ai_remediator.Model.{Float64}
use k8s_ai_remediator.Config.Readers.{Env, getenv, getbool, getint, getfloat, is_truthy}
use k8s_ai_remediator.WebUi.ConfigOps.{
  ConfigKind, kind_string, kind_int, kind_float, kind_unit_float, kind_bool, kind_csv,
  kind_severity, kind_enum, ParseFloat, Form, general_updates, validate_config_value, general_keys,
  bool_fields_always_sent, is_one_of,
}
use k8s_ai_remediator.WebUi.ConfigOps.Allowed.{general_updates-IsStored}
use k8s_ai_remediator.WebUi.ConfigOps.Handlers.{merge}

-- the environment of a container that takes its variables from a ConfigMap
abbrev pub env_of : Map Bytes → Env
env_of entries key = at key entries

lookup-merge :
    (updates m : Map Bytes) (key v : Bytes)
    → lookup key updates ≡ some v
    → lookup key (merge updates m) ≡ some v
unfolding merge lookup
lookup-merge [] m key v h = absurd (cc h)
lookup-merge ((k, u) ∷ updates) m key v h =
    ground (arith, lookup-insert k key u (merge updates m), lookup-merge updates m key v)

at-lookup : (key v : Bytes) (m : Map Bytes) → lookup key m ≡ some v → at key m ≡ v
unfolding at
at-lookup key v m h = ground (arith, h)

-- the defaults of LoadFromEnv for a setting
pub record Defaults : Type 0 where
  pub text : Bytes
  pub number : ℤ
  pub float : Float64
  pub flag : Bool

-- what the reader of a kind makes of a saved value: the value, never the default
abbrev pub TakesEffect : ParseFloat → Defaults → Env → Bytes → ConfigKind → Bytes → Type 0
TakesEffect parse_float d env key kind_int v = atoi v ≡ ok (getint env key d.number)
TakesEffect parse_float d env key kind_float v =
    parse_float v ≡ ok (getfloat parse_float env key d.float)
TakesEffect parse_float d env key kind_unit_float v =
    parse_float v ≡ ok (getfloat parse_float env key d.float)
TakesEffect parse_float d env key kind_bool v = getbool env key d.flag ≡ is_truthy (to_lower v)
TakesEffect parse_float d env key kind v = getenv env key d.text ≡ v

to_lower-filled : (v : Bytes) → v ≢ [] → eqb (to_lower v) [] ≡ false
unfolding to_lower eqb
to_lower-filled [] h = absurd (h refl)
to_lower-filled (c ∷ s) h = refl

module _ (env : Env) (key v : Bytes) (set : env key ≡ v) (filled : v ≢ []) where
  not_empty : eqb v [] ≡ false
  not_empty = ground (arith, filled, eqb_iff v [])

  getenv_saved : (def : Bytes) → getenv env key def ≡ v
  unfolding getenv
  getenv_saved def = ground (arith, set, not_empty)

  module _ (trim : trim_space v ≡ v) (parse_float : ParseFloat) where
    read_text : trim_space (env key) ≡ v
    read_text = ap trim_space set ∙ trim

    getbool_saved : (def : Bool) → getbool env key def ≡ is_truthy (to_lower v)
    unfolding getbool
    getbool_saved def = ground (arith, read_text, to_lower-filled v filled)

    getint_saved :
        (def : ℤ)
        → validate_config_value parse_float kind_int v ≡ none
        → atoi v ≡ ok (getint env key def)
    unfolding getint validate_config_value
    getint_saved def valid = ground (arith, read_text, not_empty)

    getfloat_saved :
        (def : Float64)
        → validate_config_value parse_float kind_float v ≡ none
        → parse_float v ≡ ok (getfloat parse_float env key def)
    unfolding getfloat validate_config_value
    getfloat_saved def valid = ground (arith, read_text, not_empty)

    unit_saved :
        validate_config_value parse_float kind_unit_float v ≡ none
        → validate_config_value parse_float kind_float v ≡ none
    unfolding validate_config_value
    unit_saved valid = ground arith

    -- a text that is valid for its kind
    text-TakesEffect :
        (d : Defaults) (kind : ConfigKind)
        → validate_config_value parse_float kind v ≡ none
        → TakesEffect parse_float d env key kind v
    text-TakesEffect d kind_string valid = getenv_saved d.text
    text-TakesEffect d kind_int valid = getint_saved d.number valid
    text-TakesEffect d kind_float valid = getfloat_saved d.float valid
    text-TakesEffect d kind_unit_float valid = getfloat_saved d.float (unit_saved valid)
    text-TakesEffect d kind_bool valid = getbool_saved d.flag
    text-TakesEffect d kind_csv valid = getenv_saved d.text
    text-TakesEffect d kind_severity valid = getenv_saved d.text
    text-TakesEffect d kind_enum valid = getenv_saved d.text

-- every checkbox is a Boolean setting
is_one_of-lookup :
    (boxes : List Bytes) (key : Bytes)
    → All (λ k. lookup k general_keys ≡ some kind_bool) boxes
    → is_one_of boxes key ≡ true
    → lookup key general_keys ≡ some kind_bool
unfolding is_one_of
is_one_of-lookup [] key all h = absurd (true≢false (sym h))
is_one_of-lookup (k ∷ boxes) key all h = elim (Bool-cases (eqb k key)) [
  | inl same ↦ subst (λ x. lookup x general_keys ≡ some kind_bool) (eqb_sound k key same) all.0
  | inr differs ↦
      is_one_of-lookup boxes key all.1 (ap (λ b. b || is_one_of boxes key) (sym differs) ∙ h)
]

boxes_lem : All (λ k. lookup k general_keys ≡ some kind_bool) bool_fields_always_sent
unfolding lookup eqb
boxes_lem = ground arith

box-TakesEffect :
    (parse_float : ParseFloat) (d : Defaults) (env : Env) (key v : Bytes) (kind : ConfigKind)
    → env key ≡ v
    → (v ≡ codes "true") ⊎ (v ≡ codes "false")
    → kind_bool ≡ kind
    → TakesEffect parse_float d env key kind v
box-TakesEffect parse_float d env key v kind set h is_bool =
    subst (λ k. TakesEffect parse_float d env key k v) is_bool
      (getbool_saved env key v set filled trim parse_float d.flag)
  where
    filled : v ≢ []
    filled e = elim h [ inl t ↦ cons-ne-nil _ _ (sym t ∙ e) | inr f ↦ cons-ne-nil _ _ (sym f ∙ e) ]

    trim : trim_space v ≡ v
    trim = elim h [
      | inl t ↦ subst (λ x. trim_space x ≡ x) (sym t) (unfold trim_space in refl)
      | inr f ↦ subst (λ x. trim_space x ≡ x) (sym f) (unfold trim_space in refl)
    ]

pub updates-TakesEffect :
    (parse_float : ParseFloat) (form : Form) (updates old : Map Bytes) (key v : Bytes)
    → general_updates parse_float form ≡ ok updates
    → lookup key updates ≡ some v
    → (kind : ConfigKind) × (lookup key general_keys ≡ some kind)
      × ((d : Defaults) → TakesEffect parse_float d (env_of (merge updates old)) key kind v)
updates-TakesEffect parse_float form updates old key v h found =
    let (kind, listed, saved) = general_updates-IsStored parse_float form updates key v h found in
    let env = env_of (merge updates old) in
    let set : env key ≡ v =
      at-lookup key v (merge updates old) (lookup-merge updates old key v found) in
    (
      kind,
      listed,
      λ d. elim saved [
        | inl (box, flag) ↦
            box-TakesEffect parse_float d env key v kind set flag
              (cc (sym (is_one_of-lookup bool_fields_always_sent key boxes_lem box) ∙ listed))
        | inr (text, filled, trim, valid) ↦
            text-TakesEffect env key v set filled trim parse_float d kind valid
      ],
    )
