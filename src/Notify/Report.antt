-- ===== src/Notify/Report.antt =====
-- The text of a report: buildSubject, buildBody and buildMessage of internal/notify/notify.go.
use k8s_ai_remediator.Prelude.{
  ltb, Bool, true, false, ◌&&◌, ◌||◌, ◌==◌, Option, none, some, List, [], ◌∷◌, ◌++◌, map, Map, at,
  Bytes, codes, eqb, if◌then◌else◌,
}
use k8s_ai_remediator.Result.{Error}
use k8s_ai_remediator.Text.{join}
use k8s_ai_remediator.Model.{Decision, Float64, action_name}

abbrev pub FormatFloat : Type 0
FormatFloat = Float64 → Bytes

pub record DecisionResult : Type 0 where
  pub namespace : Bytes
  pub kind : Bytes
  pub name : Bytes
  pub event_reason : Bytes
  pub event_message : Bytes
  pub decision : Decision
  pub execution_err : Option Error

abbrev newline : Bytes
newline = 10 ∷ []

abbrev crlf : Bytes
crlf = 13 ∷ 10 ∷ []

-- the order of Go's strings
unfoldable pub lt_bytes : Bytes → Bytes → Bool
lt_bytes s [] = false
lt_bytes [] (d ∷ t) = true
lt_bytes (c ∷ s) (d ∷ t) = ltb c d || ((c == d) && lt_bytes s t)

unfoldable pub insert : Bytes → List Bytes → List Bytes
unfolding lt_bytes
insert k [] = k ∷ []
insert k (x ∷ xs) = let rest = insert k xs in if lt_bytes x k then x ∷ rest else k ∷ x ∷ xs

-- sort.Strings
unfoldable pub sort_strings : List Bytes → List Bytes
unfolding insert
sort_strings [] = []
sort_strings (k ∷ ks) = insert k (sort_strings ks)

unfoldable pub build_subject : DecisionResult → Bytes
unfolding action_name
build_subject r =
    codes "[ai-remediator] "
    ++ (action_name r.decision.action ++ (codes " on " ++ (r.namespace ++ (codes "/" ++ r.name))))

-- a line of the report
abbrev field : Bytes → Bytes → Bytes
field label value = codes "  " ++ (label ++ (codes ": " ++ (value ++ newline)))

-- a line that is left out for the empty text
abbrev optional_field : Bytes → Bytes → Bytes
optional_field label value = if eqb value [] then [] else field label value

abbrev parameter_line : Map Bytes → Bytes → Bytes
parameter_line params k = codes "    " ++ (k ++ (codes ": " ++ (at k params ++ newline)))

abbrev concat : List Bytes → Bytes
concat = join []

unfoldable pub parameter_lines : Map Bytes → Bytes
unfolding sort_strings
parameter_lines [] = []
parameter_lines (p ∷ params) =
    codes "  Parameters:"
    ++ (newline
        ++ concat (map (parameter_line (p ∷ params)) (sort_strings (p.0 ∷ map (λ q. q.0) params))))

abbrev result_line : Option Error → Bytes
result_line none = codes "  Azione applicata con successo." ++ newline
result_line (some e) = codes "  Azione non applicata. Errore: " ++ (e.text ++ newline)

unfoldable pub build_body : FormatFloat → DecisionResult → Bytes
unfolding parameter_lines action_name
build_body format_float r = concat (
    (codes "Situazione anomala" ++ newline)
    ∷ field (codes "Namespace") r.namespace
    ∷ field (codes "Kind") r.kind
    ∷ field (codes "Name") r.name
    ∷ field (codes "Reason") r.event_reason
    ∷ optional_field (codes "Message") r.event_message
    ∷ optional_field (codes "Severity") r.decision.severity
    ∷ newline
    ∷ (codes "Decisione presa" ++ newline)
    ∷ field (codes "Action") (action_name r.decision.action)
    ∷ optional_field (codes "Probable cause") r.decision.probable_cause
    ∷ optional_field (codes "Summary") r.decision.summary
    ∷ field (codes "Confidence") (format_float r.decision.confidence)
    ∷ parameter_lines r.decision.parameters
    ∷ newline
    ∷ (codes "Situazione post intervento" ++ newline)
    ∷ result_line r.execution_err
    ∷ [])

-- the from, the to, the subject and the body
unfoldable pub build_message : Bytes → Bytes → Bytes → Bytes → Bytes
build_message from to subject body =
    join crlf (
      (codes "From: " ++ from)
      ∷ (codes "To: " ++ to)
      ∷ (codes "Subject: " ++ subject)
      ∷ codes "MIME-Version: 1.0"
      ∷ codes "Content-Type: text/plain; charset=\"utf-8\""
      ∷ [])
    ++ (crlf ++ (crlf ++ body))
