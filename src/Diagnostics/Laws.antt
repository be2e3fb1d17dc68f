-- ===== src/Diagnostics/Laws.antt =====
-- What the sink keeps of a run of reports and suppression scopes.
use cythonpp.Prelude.{
  ℕ, suc, ◌≡◌, refl, ap, ◌∙◌, Bool, true, List, [], ◌∷◌, ◌++◌, arith, ltb, if◌then◌else◌,
}
use mathlib.Core.List.{append-nil, append_assoc}
use cythonpp.Diagnostics.{
  Diagnostic, suppressible, not_suppressible, Sink, report, Action, Actions, reporting, suppressed,
  nil, cons, act, act_all, push_suppression, pop_suppression,
}

-- The reports that are kept, from the nesting alone: those outside every scope, and those that
-- cannot be suppressed.
unfoldable mutual
  pub kept : Bool → Action → List Diagnostic
  kept inside (reporting d suppressible) = if inside then [] else d ∷ []
  kept inside (reporting d not_suppressible) = d ∷ []
  kept inside (suppressed body) = kept_all true body

  pub kept_all : Bool → Actions → List Diagnostic
  kept_all inside nil = []
  kept_all inside (cons a rest) = kept inside a ++ kept_all inside rest

abbrev after : Sink → List Diagnostic → Sink
after sink ds = record sink { diagnostics = sink.diagnostics ++ ds }

report_suppressible :
    (d : Diagnostic) (s : Sink)
    → report s d suppressible ≡ after s (if ltb 0 s.suppression_depth then [] else d ∷ [])
unfolding report
report_suppressible d s = ground (arith, append-nil s.diagnostics)

pushed : (n : ℕ) → ltb 0 (suc n) ≡ true
pushed n = ground arith

-- A scope leaves the depth as it found it.
scope_closes :
    (s : Sink) (ds : List Diagnostic) → pop_suppression (after (push_suppression s) ds) ≡ after s ds
unfolding push_suppression pop_suppression
scope_closes s ds = ground arith

mutual
  unfolding act kept report push_suppression

  act-eq : (a : Action) (s : Sink) → act a s ≡ after s (kept (ltb 0 s.suppression_depth) a)
  act-eq (reporting d suppressible) s = report_suppressible d s
  act-eq (reporting d not_suppressible) s = refl
  act-eq (suppressed body) s =
      ap pop_suppression (act_all-eq body (push_suppression s))
      ∙ ap (λ b. pop_suppression (after (push_suppression s) (kept_all b body)))
          (pushed s.suppression_depth)
      ∙ scope_closes s (kept_all true body)

  act_all-eq :
      (as' : Actions) (s : Sink)
      → act_all as' s ≡ after s (kept_all (ltb 0 s.suppression_depth) as')
  act_all-eq nil s = rw append-nil
  act_all-eq (cons a rest) s = rw (act-eq a s, act_all-eq rest, append_assoc)

-- A run of reports and properly nested suppression scopes keeps, in order, exactly the reports that
-- stand outside every scope or cannot be suppressed, and leaves the suppression depth as it was.
pub act_all-eq-kept :
    (body : Actions) (s : Sink)
    → (act_all body s).diagnostics ≡ s.diagnostics ++ kept_all (ltb 0 s.suppression_depth) body
      × (act_all body s).suppression_depth ≡ s.suppression_depth
act_all-eq-kept body s =
    (ap (λ t. t.diagnostics) (act_all-eq body s), ap (λ t. t.suppression_depth) (act_all-eq body s))
