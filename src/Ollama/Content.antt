-- ===== src/Ollama/Content.antt =====
-- cleanModelContent of internal/ollama/client.go.
use k8s_ai_remediator.Prelude.{
  ℕ, Bool, ◌||◌, Option, none, some, [], ◌∷◌, Bytes, codes, ◌==◌, if◌then◌else◌,
}
use k8s_ai_remediator.Text.{trim_space, has_prefix}

-- `\s` of a Go regular expression
abbrev pub is_blank : ℕ → Bool
is_blank c = c == 32 || (c == 9 || (c == 10 || (c == 12 || c == 13)))

unfoldable pub skip_blanks : Bytes → Bytes
skip_blanks [] = []
skip_blanks (c ∷ s) = if is_blank c then skip_blanks s else c ∷ s

-- strings.TrimPrefix, the prefix first
unfoldable pub trim_prefix : Bytes → Bytes → Bytes
trim_prefix [] s = s
trim_prefix (p ∷ ps) [] = []
trim_prefix (p ∷ ps) (c ∷ s) =
    let rest = trim_prefix ps s in if has_prefix (p ∷ ps) (c ∷ s) then rest else c ∷ s

-- the text behind the first `part`
unfoldable pub after_first : Bytes → Bytes → Option Bytes
unfolding trim_prefix
after_first part [] = if has_prefix part [] then some [] else none
after_first part (c ∷ s) =
    let rest = after_first part s in
    if has_prefix part (c ∷ s) then some (trim_prefix part (c ∷ s)) else rest

-- the text before the last `part`, as strings.LastIndex and a slice give it
unfoldable pub before_last : Bytes → Bytes → Option Bytes
before_last part [] = if has_prefix part [] then some [] else none
before_last part (c ∷ s) = elim (before_last part s) [
  | some kept ↦ some (c ∷ kept)
  | none ↦ if has_prefix part (c ∷ s) then some [] else none
]

-- thinkBlockRe, replaced by nothing
unfoldable pub drop_think_block : Bytes → Bytes
unfolding skip_blanks after_first
drop_think_block s =
    if has_prefix (codes "<think>") (skip_blanks s)
    then (elim (after_first (codes "</think>") (trim_prefix (codes "<think>") (skip_blanks s))) [
      | none ↦ s
      | some rest ↦ rest
    ])
    else s

abbrev pub fence : Bytes
fence = codes "```"

-- the text between code fences
unfoldable pub unfence : Bytes → Bytes
unfolding trim_prefix before_last
unfence s =
    let inner = trim_prefix (codes "json") (trim_prefix fence s) in
    trim_space (elim (before_last fence inner) [ none ↦ inner | some kept ↦ kept ])

unfoldable pub clean_model_content : Bytes → Bytes
unfolding drop_think_block unfence
clean_model_content s =
    let trimmed = trim_space (drop_think_block s) in
    if has_prefix fence trimmed then unfence trimmed else trimmed
