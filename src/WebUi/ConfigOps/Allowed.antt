-- ===== src/WebUi/ConfigOps/Allowed.antt =====
-- The settings that the "General" form saves (internal/webui/configops.go).
use k8s_ai_remediator.Prelude.{
  ◌≡◌, ◌≢◌, ◌⊎◌, inl, inr, refl, sym, ap, ◌∙◌, subst, ◌++◌, true, false, Option, none, some, [],
  ◌∷◌, Bytes, codes, Map, lookup, eqb, eqb_iff, arith, Bool-cases, Option-cases, if◌then◌else◌,
}
use k8s_ai_remediator.Result.{Error, Result, ok, err, errorf, ok-bind, ok_inj}
use k8s_ai_remediator.Retain.{IsDistinct}
use k8s_ai_remediator.Text.{trim_space}
use k8s_ai_remediator.Text.Trim.{trim_space_idem}
use k8s_ai_remediator.WebUi.ConfigOps.{
  ConfigKind, ParseFloat, Form, general_keys, bool_fields_always_sent, is_one_of, is_checked,
  validate_config_value, form_value, bool_update, text_update, field_update, add_update, updates_of,
  general_updates,
}
use k8s_ai_remediator.WebUi.ConfigOps.Valid.{IsValid, validate_config_value-IsValid}

-- a saved value: "true" or "false" of a checkbox, or a text without outer blanks that the validator
-- accepts
abbrev pub IsStored : ParseFloat → Bytes → ConfigKind → Bytes → Type 0
IsStored parse_float key kind v =
    ((is_one_of bool_fields_always_sent key ≡ true) × ((v ≡ codes "true") ⊎ (v ≡ codes "false")))
    ⊎ ((is_one_of bool_fields_always_sent key ≡ false)
        × (v ≢ [])
        × (trim_space v ≡ v)
        × (validate_config_value parse_float kind v ≡ none))

-- the same with the validator's promise
abbrev pub IsSaved : ParseFloat → Bytes → ConfigKind → Bytes → Type 0
IsSaved parse_float key kind v =
    ((is_one_of bool_fields_always_sent key ≡ true) × ((v ≡ codes "true") ⊎ (v ≡ codes "false")))
    ⊎ ((is_one_of bool_fields_always_sent key ≡ false)
        × (v ≢ [])
        × (trim_space v ≡ v)
        × IsValid parse_float kind v)

add_update-lookup :
    (k key v : Bytes) (u : Option Bytes) (rest : Map Bytes)
    → lookup key (add_update k u rest) ≡ some v
    → ((k ≡ key) × (u ≡ some v)) ⊎ ((lookup key rest ≡ some v) × ((eqb k key ≡ false) ⊎ (u ≡ none)))
unfolding lookup
add_update-lookup k key v none rest h = inr (h, inr refl)
add_update-lookup k key v (some w) rest h = elim (Bool-cases (eqb k key)) [
  | inl same ↦
      inl ((eqb_iff k key).0 same, ap (λ b. if b then some w else lookup key rest) (sym same) ∙ h)
  | inr differs ↦
      inr (ap (λ b. if b then some w else lookup key rest) (sym differs) ∙ h, inl differs)
]

module _ (parse_float : ParseFloat) (form : Form) where
  bool_update-some :
      (key v : Bytes)
      → bool_update parse_float form key ≡ some v
      → (v ≡ codes "true") ⊎ (v ≡ codes "false")
  unfolding bool_update
  bool_update-some key v h = elim (Bool-cases (is_checked (form_value key form))) [
    | inl on ↦ inl (ground (arith, on))
    | inr off ↦ inr (ground (arith, off))
  ]

  text_update-some :
      (key v : Bytes) (kind : ConfigKind)
      → text_update parse_float form key kind ≡ ok (some v)
      → (v ≢ []) × (trim_space v ≡ v) × (validate_config_value parse_float kind v ≡ none)
  unfolding text_update
  text_update-some key v kind h = elim (Bool-cases (eqb raw [])) [
    | inl empty ↦ absurd (cc (ap (λ b. if b then ok none else rest) (sym empty) ∙ h))
    | inr some_text ↦
        let h1 : rest ≡ ok (some v) = ap (λ b. if b then ok none else rest) (sym some_text) ∙ h in
        elim (Option-cases (validate_config_value parse_float kind raw)) [
          | inr (e, refused) ↦ absurd (cc (ap outcome (sym refused) ∙ h1))
          | inl valid ↦
              let same : raw ≡ v = cc (ap outcome (sym valid) ∙ h1) in
              (
                λ e. ground (arith, some_text, same, e, eqb_iff raw []),
                subst (λ x. trim_space x ≡ x) same (trim_space_idem (form_value key form)),
                subst (λ x. validate_config_value parse_float kind x ≡ none) same valid,
              )
        ]
  ]
    where
      raw : Bytes
      raw = trim_space (form_value key form)

      outcome : Option Error → Result (Option Bytes)
      outcome none = ok (some raw)
      outcome (some e) = err (errorf (key ++ (codes ": " ++ e.text)))

      rest : Result (Option Bytes)
      rest = outcome (validate_config_value parse_float kind raw)

  field_update-IsStored :
      (key v : Bytes) (kind : ConfigKind)
      → field_update parse_float form key kind ≡ ok (some v)
      → IsStored parse_float key kind v
  unfolding field_update
  field_update-IsStored key v kind h = elim (Bool-cases (is_one_of bool_fields_always_sent key)) [
    | inl box ↦ inl (box, bool_update-some key v (ground (arith, box)))
    | inr text ↦
        let (some_text, trim, valid) = text_update-some key v kind (ground (arith, text)) in
        inr (text, some_text, trim, valid)
  ]

  -- a key of the rest is not the first key
  differs :
      (key : Bytes) (kind' : ConfigKind) (k : Bytes) (kind : ConfigKind) (keys : Map ConfigKind)
      → IsDistinct ((k, kind) ∷ keys)
      → lookup key keys ≡ some kind'
      → eqb k key ≡ false
  differs key kind' k kind keys distinct listed = elim (Bool-cases (eqb k key)) [
    | inr apart ↦ apart
    | inl same ↦
        absurd (cc (sym distinct.0 ∙ (ap (λ x. lookup x keys) ((eqb_iff k key).0 same) ∙ listed)))
  ]

  updates_of-lookup :
      (keys : Map ConfigKind) (updates : Map Bytes) (key v : Bytes)
      → IsDistinct keys
      → updates_of parse_float form keys ≡ ok updates
      → lookup key updates ≡ some v
      → (kind : ConfigKind) × (lookup key keys ≡ some kind)
        × (field_update parse_float form key kind ≡ ok (some v))
  unfolding updates_of lookup
  updates_of-lookup [] updates key v distinct h found =
      absurd (cc (ap (lookup key) (ok_inj h) ∙ found))
  updates_of-lookup ((k, kind) ∷ keys) updates key v distinct h found =
      let (u, e1, h1) = ok-bind (field_update parse_float form k kind) _ updates h in
      let (rest, e2, h2) = ok-bind (updates_of parse_float form keys) _ updates h1 in
      elim (add_update-lookup k key v u rest (ap (lookup key) (ok_inj h2) ∙ found)) [
        | inl (same, given) ↦ (
          kind,
          ap (λ b. if b then some kind else lookup key keys) ((eqb_iff k key).1 same),
          subst (λ x. field_update parse_float form x kind ≡ ok (some v)) same (e1 ∙ ap ok given),
        )
        | inr (later, apart) ↦
            let (kind', listed, given) = updates_of-lookup keys rest key v distinct.1 e2 later in
            (
              kind',
              ap (λ b. if b then some kind else lookup key keys)
                    (differs key kind' k kind keys distinct listed)
                  ∙ listed,
              given,
            )
      ]

general_keys-IsDistinct : IsDistinct general_keys
unfolding lookup eqb
general_keys-IsDistinct = ground arith

pub general_updates-IsStored :
    (parse_float : ParseFloat) (form : Form) (updates : Map Bytes) (key v : Bytes)
    → general_updates parse_float form ≡ ok updates
    → lookup key updates ≡ some v
    → (kind : ConfigKind) × (lookup key general_keys ≡ some kind) × IsStored parse_float key kind v
unfolding general_updates
general_updates-IsStored parse_float form updates key v h found =
    let (kind, listed, given) =
      updates_of-lookup parse_float form general_keys updates key v general_keys-IsDistinct h
        found in
    (kind, listed, field_update-IsStored parse_float form key v kind given)

-- The form saves only settings of its list of general keys: "true" or "false" for a checkbox, and
-- for the others a text that is not empty and has no outer blanks: an integer, a number, a number
-- from 0 to 1 or a NaN, a severity from low to critical, or a backend that is memory or redis, as
-- the setting's kind asks, and any such text for the kinds of strings and lists.
pub general_updates-IsSaved :
    (parse_float : ParseFloat) (form : Form) (updates : Map Bytes) (key v : Bytes)
    → general_updates parse_float form ≡ ok updates
    → lookup key updates ≡ some v
    → (kind : ConfigKind) × (lookup key general_keys ≡ some kind) × IsSaved parse_float key kind v
general_updates-IsSaved parse_float form updates key v h found =
    let (kind, listed, stored) = general_updates-IsStored parse_float form updates key v h found in
    (
      kind,
      listed,
      elim stored [
        | inl box ↦ inl box
        | inr (text, filled, trim, valid) ↦
            inr (text, filled, trim, validate_config_value-IsValid parse_float kind v valid)
      ],
    )
