-- ===== src/Lexer/Indentation/Exact.antt =====
-- What a line without a report says about its indentation.
use cythonpp.Prelude.{
  ℕ, suc, ◌≡◌, refl, sym, ap, ◌∙◌, false, List, [], ◌∷◌, arith, length, length-append, ltb, ◌==◌,
  ==_iff, Bool-cases, inl, inr,
}
use cythonpp.Diagnostics.{report_error}
use cythonpp.Lexer.Token.{Token}
use cythonpp.Lexer.TokenType.{dedent}
use cythonpp.Lexer.Indentation.{
  Builder, IndentLevel, push_out, emit, dedent_to, same_level, deeper, shallower, close_line,
  report_tab_error, report_indentation_error, back,
}
use cythonpp.Lexer.Indentation.Levels.{same_level-levels, deeper-levels}

abbrev pub reports : Builder → ℕ
reports b = length b.sink.diagnostics

tab_error-reports : (b : Builder) (t : Token) → reports (report_tab_error b t) ≡ suc (reports b)
unfolding report_tab_error report_error
tab_error-reports b t = length-append b.sink.diagnostics _ ∙ omega arith

indentation_error-reports :
    (b : Builder) (t : Token) → reports (report_indentation_error b t) ≡ suc (reports b)
unfolding report_indentation_error report_error
indentation_error-reports b t = length-append b.sink.diagnostics _ ∙ omega arith

dedent_to-sink :
    (col : ℕ) (t : Token) (ls : List IndentLevel) (b : Builder)
    → (dedent_to col t ls b).sink ≡ b.sink
unfolding dedent_to emit push_out
dedent_to-sink col t [] b = refl
dedent_to-sink col t (l ∷ []) b = refl
dedent_to-sink col t (l ∷ m ∷ ls) b =
    ground (arith, dedent_to-sink col t (m ∷ ls) (emit b dedent t))

level_eq : (a b : IndentLevel) → a.col ≡ b.col → a.alt_col ≡ b.alt_col → a ≡ b
level_eq a b p q = λ i. record { col = p i; alt_col = q i }

same_level-exact :
    (b : Builder) (line : IndentLevel) (t : Token)
    → line.col ≡ (back b.levels).col
    → reports (same_level b line t) ≡ reports b
    → back b.levels ≡ line
unfolding same_level
same_level-exact b line t e h = elim (Bool-cases (line.alt_col == (back b.levels).alt_col)) [
  | inl same ↦ level_eq (back b.levels) line (sym e) (sym ((==_iff _ _).0 same))
  | inr differs ↦ absurd (omega (arith, tab_error-reports b t, rw differs at h))
]

deeper-exact : (b : Builder) (line : IndentLevel) (t : Token) → back (deeper b line t).levels ≡ line
deeper-exact b line t = ap back (deeper-levels b line t)

shallower-exact :
    (b : Builder) (line : IndentLevel) (t : Token)
    → reports (shallower b line t) ≡ reports b
    → back (shallower b line t).levels ≡ line
unfolding shallower
shallower-exact b line t h = elim (Bool-cases (line.col == (back popped.levels).col)) [
  | inl same ↦
      rw (same, same_level-levels popped line t)
        (same_level-exact popped line t ((==_iff _ _).0 same) ((rw same at h) ∙ sym unchanged))
  | inr differs ↦
      absurd (omega (arith, indentation_error-reports popped t, rw differs at h, unchanged))
]
  where
    popped : Builder
    popped = dedent_to line.col t b.levels b

    unchanged : reports popped ≡ reports b
    unchanged = ap (λ s. length s.diagnostics) (dedent_to-sink line.col t b.levels b)

-- A line for which nothing is reported stands exactly at the level that is current after it, by tab
-- stops and by single columns alike.
pub close_line-exact :
    (b : Builder) (t : Token)
    → reports (close_line b t) ≡ reports b
    → back (close_line b t).levels ≡ b.pending
unfolding close_line
close_line-exact b t h = elim (Bool-cases (b.pending.col == (back b.levels).col)) [
  | inl same ↦
      rw (same, same_level-levels)
        (same_level-exact measured b.pending t ((==_iff _ _).0 same) (rw same at h))
  | inr differs ↦ elim (Bool-cases (ltb (back b.levels).col b.pending.col)) [
    | inl more ↦ rw (differs, more) (deeper-exact measured b.pending t)
    | inr less ↦ rw (differs, less) (shallower-exact measured b.pending t (rw (differs, less) at h))
  ]
]
  where
    measured : Builder
    measured = record b { measuring = false }
