-- ===== src/Diagnostics/Tests.antt =====
-- The diagnostic sink at concrete runs.
use cythonpp.Prelude.{◌≡◌, refl, ◌++◌, true, [], ltb}
use cythonpp.Diagnostics.{
  Diagnostic, Actions, warning, error, suppressible, not_suppressible, reporting, suppressed, nil,
  cons, act_all, empty_sink, has_errors, any_error, report,
}
use cythonpp.Diagnostics.Laws.{act_all-eq-kept, kept_all}

abbrev a_warning : Diagnostic
a_warning = record { severity = warning; code = "W"; message = "m"; line = 1; column = 2 }

abbrev an_error : Diagnostic
an_error = record { severity = error; code = "E"; message = "m"; line = 3; column = 4 }

-- Two reports inside a scope, one of which cannot be suppressed, and one after it.
abbrev a_run : Actions
a_run =
    cons
      (suppressed
        (cons (reporting a_warning suppressible) (cons (reporting an_error not_suppressible) nil)))
      (cons (reporting a_warning suppressible) nil)

act_all-eq-kept_example :
    (act_all a_run empty_sink).diagnostics ≡ [] ++ kept_all (ltb 0 0) a_run
    × (act_all a_run empty_sink).suppression_depth ≡ 0
act_all-eq-kept_example = act_all-eq-kept a_run empty_sink

run_has_errors : has_errors (act_all a_run empty_sink) ≡ true
unfolding has_errors any_error act_all report
run_has_errors = refl
