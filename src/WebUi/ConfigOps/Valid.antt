-- ===== src/WebUi/ConfigOps/Valid.antt =====
-- The values that validateConfigValue of internal/webui/configops.go accepts.
use mathlib.Core.Bool.{true≢false}
use k8s_ai_remediator.Prelude.{
  ◌≡◌, ◌⊎◌, inl, inr, refl, sym, ap, ◌∙◌, ℕ, ◌≤◌, ◌^◌, true, false, ◌||◌, none, List, [], ◌∷◌,
  Bytes, codes, Any, eqb, eqb_sound, arith, Bool-cases, ℤ, pos, negsuc,
}
use k8s_ai_remediator.Result.{Result, ok, err}
use k8s_ai_remediator.Text.{to_lower}
use k8s_ai_remediator.Text.Numbers.{atoi}
use k8s_ai_remediator.Model.{Float64, fin, nan, neg_inf, pos_inf, lt_float}
use k8s_ai_remediator.WebUi.ConfigOps.{
  ConfigKind, kind_string, kind_int, kind_float, kind_unit_float, kind_bool, kind_csv,
  kind_severity, kind_enum, ParseFloat, validate_config_value, is_one_of, unless_one_of,
}

-- A number from 0 to 1, which is 2^1074 units, or the NaN that the test lets through.
IsUnit : Float64 → Type 0
IsUnit f = (f ≡ nan) ⊎ ((n : ℕ) × (f ≡ fin (pos n)) × (n ≤ 2 ^ 1074))

-- what a setting of each kind may be
pub IsValid : ParseFloat → ConfigKind → Bytes → Type 0
IsValid parse_float kind_string v = Unit
IsValid parse_float kind_csv v = Unit
IsValid parse_float kind_int v = (n : ℤ) × (atoi v ≡ ok n)
IsValid parse_float kind_float v = (f : Float64) × (parse_float v ≡ ok f)
IsValid parse_float kind_unit_float v = (f : Float64) × (parse_float v ≡ ok f) × IsUnit f
IsValid parse_float kind_bool v =
    Any (λ w. to_lower v ≡ w)
      (codes "true"
        ∷ codes "false"
        ∷ codes "1"
        ∷ codes "0"
        ∷ codes "yes"
        ∷ codes "no"
        ∷ codes "on"
        ∷ codes "off"
        ∷ [])
IsValid parse_float kind_severity v =
    Any (λ w. to_lower v ≡ w) (codes "low" ∷ codes "medium" ∷ codes "high" ∷ codes "critical" ∷ [])
IsValid parse_float kind_enum v = (v ≡ codes "memory") ⊎ (v ≡ codes "redis")

listed-Any : (xs : List Bytes) (v : Bytes) → is_one_of xs v ≡ true → Any (λ w. v ≡ w) xs
unfolding is_one_of
listed-Any [] v h = absurd (true≢false (sym h))
listed-Any (x ∷ xs) v h = elim (Bool-cases (eqb x v)) [
  | inl same ↦ inl (sym (eqb_sound x v same))
  | inr differs ↦ inr (listed-Any xs v (ap (λ b. b || is_one_of xs v) (sym differs) ∙ h))
]

unless_one_of-Any :
    (xs : List Bytes) (v text : Bytes) → unless_one_of xs v text ≡ none → Any (λ w. v ≡ w) xs
unless_one_of-Any xs v text h = elim (Bool-cases (is_one_of xs v)) [
  | inl is ↦ listed-Any xs v is
  | inr missing ↦ absurd (ground (arith, missing, h))
]

within_unit :
    (one : ℕ) (f : Float64)
    → (lt_float f (fin (pos 0)) || lt_float (fin (pos one)) f) ≡ false
    → (f ≡ nan) ⊎ ((n : ℕ) × (f ≡ fin (pos n)) × (n ≤ one))
within_unit one nan h = inl refl
within_unit one neg_inf h = absurd (true≢false h)
within_unit one pos_inf h = absurd (true≢false h)
within_unit one (fin (pos n)) h = inr (n, refl, ground (arith, h))
within_unit one (fin (negsuc n)) h = absurd (ground (arith, h))

module _ (parse_float : ParseFloat) where
  number-IsValid :
      (v : Bytes) (x : Result ℤ)
      → atoi v ≡ x
      → validate_config_value parse_float kind_int v ≡ none
      → IsValid parse_float kind_int v
  unfolding IsValid validate_config_value
  number-IsValid v (ok n) is h = (n, is)
  number-IsValid v (err e) is h = absurd (ground (arith, is, h))

  float-IsValid :
      (v : Bytes) (x : Result Float64)
      → parse_float v ≡ x
      → validate_config_value parse_float kind_float v ≡ none
      → IsValid parse_float kind_float v
  unfolding IsValid validate_config_value
  float-IsValid v (ok f) is h = (f, is)
  float-IsValid v (err e) is h = absurd (ground (arith, is, h))

  unit-IsValid :
      (v : Bytes) (x : Result Float64)
      → parse_float v ≡ x
      → validate_config_value parse_float kind_unit_float v ≡ none
      → IsValid parse_float kind_unit_float v
  unfolding IsValid validate_config_value IsUnit
  unit-IsValid v (ok f) is h = (
    f,
    is,
    within_unit (2 ^ 1074) f
        (elim (Bool-cases (lt_float f (fin (pos 0)) || lt_float (fin (pos (2 ^ 1074))) f)) [
          | inr inside ↦ inside
          | inl outside ↦ absurd (ground (arith, is, outside, h))
        ]),
  )
  unit-IsValid v (err e) is h = absurd (ground (arith, is, h))

  pub validate_config_value-IsValid :
      (kind : ConfigKind) (v : Bytes)
      → validate_config_value parse_float kind v ≡ none
      → IsValid parse_float kind v
  unfolding IsValid validate_config_value
  validate_config_value-IsValid kind_string v h = tt
  validate_config_value-IsValid kind_csv v h = tt
  validate_config_value-IsValid kind_int v h = number-IsValid v (atoi v) refl h
  validate_config_value-IsValid kind_float v h = float-IsValid v (parse_float v) refl h
  validate_config_value-IsValid kind_unit_float v h = unit-IsValid v (parse_float v) refl h
  validate_config_value-IsValid kind_bool v h =
      unless_one_of-Any
        (codes "true"
          ∷ codes "false"
          ∷ codes "1"
          ∷ codes "0"
          ∷ codes "yes"
          ∷ codes "no"
          ∷ codes "on"
          ∷ codes "off"
          ∷ [])
        (to_lower v) (codes "not a boolean") h
  validate_config_value-IsValid kind_severity v h =
      unless_one_of-Any (codes "low" ∷ codes "medium" ∷ codes "high" ∷ codes "critical" ∷ [])
        (to_lower v) (codes "must be one of low, medium, high, critical") h
  validate_config_value-IsValid kind_enum v h =
      elim (unless_one_of-Any (codes "memory" ∷ codes "redis" ∷ []) v
        (codes "invalid backend, expected memory or redis") h) [
          | inl m ↦ inl m
          | inr (inl r) ↦ inr r
          | inr (inr none_of) ↦ absurd none_of
        ]
