-- ===== src/Diagnostics.antt =====
-- src/domain/diagnostics/: diagnostics and the sink that collects them, with its suppression.
pub mod Laws
pub mod Tests
use Prim.Native.String.{String}
use cythonpp.Prelude.{
  ℕ, suc, ◌-◌, Bool, true, false, ◌&&◌, ◌||◌, List, [], ◌∷◌, ◌++◌, ltb, if◌then◌else◌,
}

pub data Severity : Type 0 where
  warning error : Severity

pub data Suppressibility : Type 0 where
  not_suppressible suppressible : Suppressibility

pub record Diagnostic : Type 0 where
  pub severity : Severity
  pub code : String
  pub message : String
  pub line : ℕ
  pub column : ℕ

pub record Sink : Type 0 where
  pub diagnostics : List Diagnostic
  pub suppression_depth : ℕ

abbrev pub is_suppressible : Suppressibility → Bool
is_suppressible suppressible = true
is_suppressible not_suppressible = false

abbrev pub is_error : Severity → Bool
is_error error = true
is_error warning = false

abbrev pub empty_sink : Sink
empty_sink = record { diagnostics = []; suppression_depth = 0 }

unfoldable pub report : Sink → Diagnostic → Suppressibility → Sink
report sink diagnostic suppressibility =
    if is_suppressible suppressibility && ltb 0 sink.suppression_depth
    then sink
    else record sink { diagnostics = sink.diagnostics ++ diagnostic ∷ [] }

unfoldable pub report_error : Sink → String → String → ℕ → ℕ → Suppressibility → Sink
unfolding report
report_error sink code message line column suppressibility =
    report sink
      (record { severity = error; code = code; message = message; line = line; column = column })
      suppressibility

any_error : List Diagnostic → Bool
any_error [] = false
any_error (d ∷ ds) = is_error d.severity || any_error ds

pub has_errors : Sink → Bool
unfolding any_error
has_errors sink = any_error sink.diagnostics

unfoldable empty : Sink → Bool
empty sink = elim sink.diagnostics [ [] ↦ true | _ ∷ _ ↦ false ]

pub push_suppression : Sink → Sink
push_suppression sink = record sink { suppression_depth = suc sink.suppression_depth }

pub pop_suppression : Sink → Sink
pop_suppression sink =
    if ltb 0 sink.suppression_depth
    then record sink { suppression_depth = sink.suppression_depth - 1 }
    else sink

-- What runs under a sink: reports, and scopes that hold a DiagnosticSuppression.
mutual
  pub data Action : Type 0 where
    reporting : Diagnostic → Suppressibility → Action
    suppressed : Actions → Action

  pub data Actions : Type 0 where
    nil : Actions
    cons : Action → Actions → Actions

-- DiagnosticSuppression pushes when it is made and pops when its scope ends.
mutual
  unfolding report push_suppression pop_suppression

  pub act : Action → Sink → Sink
  act (reporting d s) sink = report sink d s
  act (suppressed body) sink = pop_suppression (act_all body (push_suppression sink))

  pub act_all : Actions → Sink → Sink
  act_all nil sink = sink
  act_all (cons a as') sink = act_all as' (act a sink)
