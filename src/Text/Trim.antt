-- ===== src/Text/Trim.antt =====
-- strings.TrimSpace applied twice.
use k8s_ai_remediator.Prelude.{
  ◌≡◌, refl, ℕ, false, [], ◌∷◌, arith, Bytes, inl, inr, Bool-cases, ap, sym, ◌∙◌,
}
use k8s_ai_remediator.Text.{is_space, trim_left, trim_right, keep_unless_blank, trim_space}

trim_right-trim_right : (s : Bytes) → trim_right (trim_right s) ≡ trim_right s
unfolding trim_right
trim_right-trim_right [] = refl
trim_right-trim_right (c ∷ s) = kept (trim_right s) (trim_right-trim_right s)
  where
    kept :
        (r : Bytes) → trim_right r ≡ r → trim_right (keep_unless_blank c r) ≡ keep_unless_blank c r
    kept [] h = ground arith
    kept (d ∷ r) h = ap (keep_unless_blank c) h

trim_left-keep :
    (c : ℕ) (r : Bytes)
    → is_space c ≡ false
    → trim_left (keep_unless_blank c r) ≡ keep_unless_blank c r
unfolding trim_left
trim_left-keep c [] h = ground arith
trim_left-keep c (d ∷ r) h = ground arith

pub trim_left_fixed : (s : Bytes) → trim_left (trim_right (trim_left s)) ≡ trim_right (trim_left s)
unfolding trim_left trim_right
trim_left_fixed [] = refl
trim_left_fixed (c ∷ s) = elim (Bool-cases (is_space c)) [
  | inl blank ↦ rw blank (trim_left_fixed s)
  | inr kept ↦ rw kept (trim_left-keep c (trim_right s) kept)
]

pub trim_space_idem : (s : Bytes) → trim_space (trim_space s) ≡ trim_space s
unfolding trim_space
trim_space_idem s = ap trim_right (trim_left_fixed s) ∙ trim_right-trim_right (trim_left s)

pub trim_right_fixed : (s : Bytes) → trim_space s ≡ s → trim_right s ≡ s
unfolding trim_space
trim_right_fixed s h = ap trim_right (sym h) ∙ (trim_right-trim_right (trim_left s) ∙ h)

pub trim_left_kept : (s : Bytes) → trim_space s ≡ s → trim_left s ≡ s
unfolding trim_space
trim_left_kept s h = ap trim_left (sym h) ∙ (trim_left_fixed s ∙ h)
