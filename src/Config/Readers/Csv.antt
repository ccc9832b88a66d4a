-- ===== src/Config/Readers/Csv.antt =====
-- ParseCSV of internal/config/config.go.
use k8s_ai_remediator.Prelude.{
  ◌≡◌, refl, false, List, [], ◌∷◌, arith, Bytes, All, eqb, eqb_iff, Bool-cases, inl, inr,
}
use k8s_ai_remediator.Text.{trim_space, split, join}
use k8s_ai_remediator.Text.Trim.{trim_space_idem}
use k8s_ai_remediator.Text.Parts.{
  IsTrimmed, Lacks, split-Lacks, trim_space-Lacks, split-join, trim_space-join, join-ne-nil,
}
use k8s_ai_remediator.Config.Readers.{parse_csv, trimmed}

-- a name as ParseCSV returns it: not empty, without outer blanks, and without a comma
abbrev pub IsEntry : Bytes → Type 0
IsEntry v = IsTrimmed v × Lacks b',' v

trimmed-IsEntry : (ps : List Bytes) → All (Lacks b',') ps → All IsEntry (trimmed ps)
unfolding trimmed
trimmed-IsEntry [] h = tt
trimmed-IsEntry (p ∷ ps) h = elim (Bool-cases (eqb (trim_space p) [])) [
  | inl empty ↦ rw empty (trimmed-IsEntry ps h.1)
  | inr some_text ↦ rw some_text (
    (
      (λ e. ground (arith, some_text, e, eqb_iff (trim_space p) []), trim_space_idem p),
      trim_space-Lacks b',' p h.0,
    ),
    trimmed-IsEntry ps h.1,
  )
]

-- Every name that is read from a list is not empty and has neither outer blanks nor a comma.
pub parse_csv-IsEntry : (raw : Bytes) → All IsEntry (parse_csv raw)
unfolding parse_csv
parse_csv-IsEntry raw = elim (Bool-cases (eqb (trim_space raw) [])) [
  | inl empty ↦ rw empty tt
  | inr some_text ↦
      rw some_text
        (trimmed-IsEntry (split b',' (trim_space raw)) (split-Lacks b',' (trim_space raw)))
]

trimmed_fixed : (ps : List Bytes) → All IsEntry ps → trimmed ps ≡ ps
unfolding trimmed
trimmed_fixed [] h = refl
trimmed_fixed (p ∷ ps) h =
    ground (arith, h.0.0.0, h.0.0.1, eqb_iff (trim_space p) [], trimmed_fixed ps h.1)

All-IsTrimmed : (ps : List Bytes) → All IsEntry ps → All IsTrimmed ps
All-IsTrimmed [] h = tt
All-IsTrimmed (p ∷ ps) h = (h.0.0, All-IsTrimmed ps h.1)

All-Lacks : (ps : List Bytes) → All IsEntry ps → All (Lacks b',') ps
All-Lacks [] h = tt
All-Lacks (p ∷ ps) h = (h.0.1, All-Lacks ps h.1)

-- Names without outer blanks and commas, none empty, are read back from their list.
pub parse_csv-join : (ps : List Bytes) → All IsEntry ps → parse_csv (join (b',' ∷ []) ps) ≡ ps
unfolding parse_csv
parse_csv-join [] h = unfold join trim_space eqb in refl
parse_csv-join (p ∷ ps) h =
    let text = join (b',' ∷ []) (p ∷ ps) in
    let names = All-IsTrimmed (p ∷ ps) h in
    let some_text : eqb text [] ≡ false =
      ground (arith, join-ne-nil (b',' ∷ []) p ps names, eqb_iff text []) in
    rw
      (
        trim_space-join (b',' ∷ []) p ps names,
        some_text,
        split-join b',' p ps (All-Lacks (p ∷ ps) h),
      )
      (trimmed_fixed (p ∷ ps) h)
