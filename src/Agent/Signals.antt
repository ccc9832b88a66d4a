-- ===== src/Agent/Signals.antt =====
-- signalBackoffTTL, canonicalReason, and the classification of an execution's outcome.
pub mod Backoff
pub mod Refusals
use k8s_ai_remediator.Prelude.{
  ℕ, zero, suc, ◌*◌, ◌-◌, ◌%◌, ◌^◌, ℤ, pos, negsuc, Bytes, codes, Option, none, some, ◌||◌, ltb,
  eqb, if◌then◌else◌,
}
use k8s_ai_remediator.Result.{Error}
use k8s_ai_remediator.Text.{trim_space, to_lower, contains}

-- the loop: one doubling for each of the attempts after the first, while the factor is below 8
unfoldable pub backoff_factor : ℕ → ℕ → ℕ
backoff_factor zero factor = factor
backoff_factor (suc rounds) factor =
    let doubled = backoff_factor rounds (factor * 2) in if ltb factor 8 then doubled else factor

-- a product that is not negative, as an int64 keeps it
unfoldable pub wrap_int64 : ℕ → ℤ
wrap_int64 n = let m = n % 2 ^ 64 in if ltb m (2 ^ 63) then pos m else negsuc (2 ^ 64 - suc m)

unfoldable pub signal_backoff_ttl : ℕ → ℕ → ℤ
unfolding backoff_factor wrap_int64
signal_backoff_ttl base attempts = wrap_int64 (base * backoff_factor (attempts - 1) 1)

-- A window that is negative after an overflow ends at once, as one of 0 does.
abbrev pub window_of : ℤ → ℕ
window_of (pos n) = n
window_of (negsuc n) = 0

unfoldable pub canonical_reason : Bytes → Bytes → Bytes
canonical_reason reason message =
    let trimmed = trim_space reason in
    let r = to_lower trimmed in
    if eqb r (codes "errimagepull") || eqb r (codes "imagepullbackoff")
    then codes "ImagePullFailure"
    else if eqb r (codes "failed")
    then (if contains (codes "pull") (to_lower message) then codes "ImagePullFailure" else trimmed)
    else trimmed

unfoldable pub outcome_of : Option Error → Bytes
outcome_of none = codes "success"
outcome_of (some e) =
    let low = to_lower e.text in
    if contains (codes "policy") low
      || contains (codes "blocked") low
      || contains (codes "opt in") low
    then codes "blocked"
    else codes "error"

unfoldable pub error_text : Option Error → Bytes
error_text none = codes ""
error_text (some e) = e.text
