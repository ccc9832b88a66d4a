-- ===== src/Config/Readers.antt =====
-- The readers of internal/config/config.go. The environment is a function with an
-- empty text for an unset variable, as os.Getenv answers; strconv.ParseFloat is a parameter.
pub mod Csv
use k8s_ai_remediator.Prelude.{
  ℕ, suc, ◌+◌, ◌-◌, ◌*◌, ◌%◌, ◌^◌, Bool, true, false, not, ◌||◌, Option, none, some, List, [], ◌∷◌,
  Bytes, codes, ℤ, pos, negsuc, eqb, ltb, leb_ℤ, if◌then◌else◌,
}
use k8s_ai_remediator.Result.{Result, ok, err}
use k8s_ai_remediator.Text.{trim_space, to_lower, split}
use k8s_ai_remediator.Text.Numbers.{atoi}
use k8s_ai_remediator.Model.{Float64}

abbrev pub Env : Type 0
Env = Bytes → Bytes

unfoldable pub getenv : Env → Bytes → Bytes → Bytes
getenv env key def = if eqb (env key) [] then def else env key

abbrev pub is_truthy : Bytes → Bool
is_truthy v = eqb v (codes "1") || (eqb v (codes "true") || eqb v (codes "yes"))

unfoldable pub getbool : Env → Bytes → Bool → Bool
getbool env key def =
    let v = to_lower (trim_space (env key)) in if eqb v [] then def else is_truthy v

-- the switch of GetOptionalBool
abbrev pub tri_state : Bytes → Option Bool
tri_state v =
    if eqb v [] || (eqb v (codes "auto") || eqb v (codes "omit")) then none else some (is_truthy v)

unfoldable pub get_optional_bool : Env → Bytes → Bytes → Option Bool
get_optional_bool env key def =
    let v = to_lower (trim_space (env key)) in
    tri_state (if eqb v [] then to_lower (trim_space def) else v)

unfoldable pub getint : Env → Bytes → ℤ → ℤ
getint env key def =
    let v = trim_space (env key) in
    if eqb v [] then def else elim (atoi v) [ ok n ↦ n | err e ↦ def ]

unfoldable pub getfloat : (Bytes → Result Float64) → Env → Bytes → Float64 → Float64
getfloat parse_float env key def =
    let v = trim_space (env key) in
    if eqb v [] then def else elim (parse_float v) [ ok f ↦ f | err e ↦ def ]

-- the loop of ParseCSV
unfoldable pub trimmed : List Bytes → List Bytes
trimmed [] = []
trimmed (p ∷ ps) = let out = trimmed ps in if eqb (trim_space p) [] then out else trim_space p ∷ out

-- nil and an empty slice are both the empty list
unfoldable pub parse_csv : Bytes → List Bytes
unfolding trimmed
parse_csv raw = if eqb (trim_space raw) [] then [] else trimmed (split b',' (trim_space raw))

-- the conversion of an int to an int32 keeps the low 32 bits
abbrev pub to_int32 : ℤ → ℤ
to_int32 (pos n) = let m = n % 2 ^ 32 in if ltb m (2 ^ 31) then pos m else negsuc (2 ^ 32 - suc m)
to_int32 (negsuc n) =
    let m = n % 2 ^ 32 in if ltb m (2 ^ 31) then negsuc m else pos (2 ^ 32 - suc m)

-- `z + n` on an int of 64 bits, where only the upper end can be passed
abbrev pub add_int : ℤ → ℕ → ℤ
add_int (pos m) n = if ltb (m + n) (2 ^ 63) then pos (m + n) else negsuc (2 ^ 64 - suc (m + n))
add_int (negsuc m) n = if ltb m n then pos (n - suc m) else negsuc (m - n)
