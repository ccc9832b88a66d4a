-- ===== src/Model/Severities.antt =====
-- Severity, its order and its parser.
use k8s_ai_remediator.Prelude.{ℕ, Bool, Bytes, codes, leb, eqb, if◌then◌else◌}
use k8s_ai_remediator.Text.{trim_space, to_lower}

pub data Severity : Type 0 where
  critical high medium low info : Severity

unfoldable pub severity_name : Severity → Bytes
severity_name critical = codes "critical"
severity_name high = codes "high"
severity_name medium = codes "medium"
severity_name low = codes "low"
severity_name info = codes "info"

unfoldable pub severity_rank : Severity → ℕ
severity_rank critical = 4
severity_rank high = 3
severity_rank medium = 2
severity_rank low = 1
severity_rank info = 0

-- the switch of ParseSeverity
severity_of : Bytes → Severity
severity_of s =
    if eqb s (codes "critical")
    then critical
    else if eqb s (codes "high")
    then high
    else if eqb s (codes "medium")
    then medium
    else if eqb s (codes "low")
    then low
    else if eqb s (codes "info")
    then info
    else low

unfoldable pub parse_severity : Bytes → Severity
unfolding severity_of
parse_severity s = severity_of (to_lower (trim_space s))

-- Severity.MeetsMinimum
unfoldable pub meets_minimum : Severity → Severity → Bool
unfolding severity_rank
meets_minimum s min = leb (severity_rank min) (severity_rank s)
