-- ===== src/Manifest/Report.antt =====
-- `Report.String` of manifest/validate.go.
use cee.Prelude.{String, List, [], ◌∷◌, ◌++◌, concat, trim_newlines}
use cee.Manifest.Validate.{Severity, error, warning, Issue}

abbrev severity_text : Severity → String
severity_text error = "error"
severity_text warning = "warning"

abbrev keep_severity : Severity → Severity → Issue → List Issue → List Issue
keep_severity error error issue rest = issue ∷ rest
keep_severity warning warning issue rest = issue ∷ rest
keep_severity wanted found issue rest = rest

-- the issues of one severity, in their order
unfoldable pub of_severity : Severity → List Issue → List Issue
of_severity wanted [] = []
of_severity wanted (issue ∷ issues) =
    keep_severity wanted issue.severity issue (of_severity wanted issues)

unfoldable pub lines_of : List Issue → String
lines_of [] = ""
lines_of (issue ∷ issues) =
    concat ("[" ∷ severity_text issue.severity ∷ "] " ∷ issue.message ∷ "\n" ∷ lines_of issues ∷ [])

-- The stable sort puts the errors before the warnings.
unfoldable pub report_text : List Issue → String
unfolding of_severity lines_of
report_text [] = "ok: no issues"
report_text (issue ∷ issues) =
    trim_newlines
      (lines_of (of_severity error (issue ∷ issues) ++ of_severity warning (issue ∷ issues)))
