-- ===== src/Model/Floats.antt =====
-- float64 as the program uses it: the comparison `<` and the `%.2f` verb.
use k8s_ai_remediator.Prelude.{
  ℕ, suc, ◌≡◌, refl, ◌+◌, ◌*◌, ◌/◌, ◌%◌, ◌^◌, Bool, true, false, ◌&&◌, ◌||◌, [], ◌∷◌, ◌++◌, Bytes,
  codes, ℤ, pos, negsuc, ltb, ◌==◌, ltb_ℤ, if◌then◌else◌,
}
use k8s_ai_remediator.Text.Numbers.{decimal}

pub data Float64 : Type 0 where
  nan neg_inf pos_inf : Float64
  fin : ℤ → Float64

-- `a < b`, false wherever a NaN stands
abbrev pub lt_float : Float64 → Float64 → Bool
lt_float (fin a) (fin b) = ltb_ℤ a b
lt_float neg_inf (fin b) = true
lt_float neg_inf pos_inf = true
lt_float (fin a) pos_inf = true
lt_float _ _ = false

unit : ℕ
unit = 2 ^ 1074

-- hundredths of `n` units, rounded to the nearest and to the even one between two
hundredths : ℕ → ℕ
unfolding unit
hundredths n =
    let q = n * 100 / unit in
    let r = n * 100 % unit in if ltb unit (2 * r) || (2 * r == unit && q % 2 == 1) then suc q else q

two_places : ℕ → Bytes
unfolding hundredths decimal
two_places n =
    let h = hundredths n in
    decimal (h / 100) ++ (b'.' ∷ (b'0' + h % 100 / 10) ∷ (b'0' + h % 10) ∷ [])

pub fixed2 : Float64 → Bytes
unfolding two_places
fixed2 nan = codes "NaN"
fixed2 neg_inf = codes "-Inf"
fixed2 pos_inf = codes "+Inf"
fixed2 (fin (pos n)) = two_places n
fixed2 (fin (negsuc n)) = b'-' ∷ two_places (suc n)

-- 0.85 is the float64 whose significand is 0x1b333333333333 at exponent -53
fixed2_example : fixed2 (fin (pos (7656119366529843 * 2 ^ 1021))) ≡ codes "0.85"
unfolding fixed2
fixed2_example = refl
