-- ===== src/Policy/Prompt.antt =====
-- SanitizeForPrompt and BuildPrompt. The two patterns match ASCII text; a letter outside ASCII that
-- folds to an ASCII one (the long s, the Kelvin sign) is not folded.
mod Utf8
mod Rules
mod Examples
use k8s_ai_remediator.Prelude.{
  ℕ, zero, suc, ◌-◌, Bool, true, false, ◌&&◌, ◌||◌, List, [], ◌∷◌, ◌++◌, Bytes, codes, ltb, leb,
  ◌==◌, length, take, drop, if◌then◌else◌,
}
use k8s_ai_remediator.Text.{trim_space, to_lower, has_prefix, join}
use Rules.{rules}
use Examples.{examples}

-- [\x00-\x08\x0B\x0C\x0E-\x1F\x7F]
unfoldable pub is_control : ℕ → Bool
is_control c = leb c 8 || c == 11 || c == 12 || (leb 14 c && leb c 31) || c == 127

unfoldable pub strip_control : Bytes → Bytes
unfolding is_control
strip_control [] = []
strip_control (c ∷ s) = let rest = strip_control s in if is_control c then rest else c ∷ rest

-- `\s`
abbrev starts_blank : Bytes → Bool
starts_blank [] = false
starts_blank (c ∷ s) = c == 9 || c == 10 || c == 12 || c == 13 || c == 32

-- The alternatives of injectionPattern in order, each with whether a blank must follow.
unfoldable pub phrases : List (Bytes × Bool)
phrases =
    (codes "ignore previous instructions", false)
    ∷ (codes "ignore all instructions", false)
    ∷ (codes "disregard above", false)
    ∷ (codes "system:", true)
    ∷ (codes "you are now", false)
    ∷ (codes "forget everything", false)
    ∷ (codes "new instructions:", false)
    ∷ []

-- The length of the first phrase that the text starts with in any case, or 0.
unfoldable pub phrase_length : List (Bytes × Bool) → Bytes → ℕ
phrase_length [] s = 0
phrase_length ((p, blank) ∷ ps) s =
    let rest = phrase_length ps s in
    if has_prefix p (to_lower s)
    then (if blank
        then (if starts_blank (drop (length p) s) then suc (length p) else rest)
        else length p)
    else rest

-- `skip` bytes of a phrase are still to be dropped
unfoldable pub redact : ℕ → Bytes → Bytes
unfolding phrases phrase_length
redact skip [] = []
redact (suc skip) (c ∷ s) = redact skip s
redact zero (c ∷ s) =
    let n = phrase_length phrases (c ∷ s) in
    let found = codes "[REDACTED]" ++ redact (n - 1) s in
    let kept = c ∷ redact zero s in if n == 0 then kept else found

unfoldable pub sanitize_for_prompt : Bytes → ℕ → Bytes
unfolding strip_control redact
sanitize_for_prompt raw max_len =
    let s = redact zero (strip_control raw) in
    trim_space (
      if ltb 0 max_len && ltb max_len (length s)
      then take max_len s ++ codes "...[truncated]"
      else s)

unfoldable pub field_max_len : ℕ
field_max_len = 2000

unfoldable pub build_prompt : Bytes → Bytes → Bytes → Bytes → Bytes → Bytes → Bytes → Bytes
unfolding field_max_len
build_prompt ns kind name etype reason message extra = join (codes "\n") (
    codes
      "You are a Kubernetes remediation agent. Return ONLY valid JSON matching the schema, nothing else."
    ∷ []
    ∷ codes "=== INCIDENT ==="
    ∷ (codes "Event type: " ++ sanitize_for_prompt etype 32)
    ∷ (codes "Reason: " ++ sanitize_for_prompt reason 500)
    ∷ (codes "Message: " ++ sanitize_for_prompt message field_max_len)
    ∷ (codes "Namespace: " ++ sanitize_for_prompt ns 253)
    ∷ (codes "Object kind: " ++ sanitize_for_prompt kind 64)
    ∷ (codes "Object name: " ++ sanitize_for_prompt name 253)
    ∷ sanitize_for_prompt extra field_max_len
    ∷ (rules ++ examples))
