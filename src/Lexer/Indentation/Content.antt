-- ===== src/Lexer/Indentation/Content.antt =====
-- What the indentation pass leaves of its input.
use mathlib.Core.List.{append-nil, append_assoc}
use cythonpp.Prelude.{
  ℕ, ◌≡◌, refl, sym, ap, ◌∙◌, Bool, true, false, List, [], ◌∷◌, ◌++◌, arith, length, ltb, leb, ◌==◌,
  if◌then◌else◌, Bool-cases, inl, inr,
}
use cythonpp.Diagnostics.{Sink}
use cythonpp.Lexer.Token.{Token}
use cythonpp.Lexer.TokenType.{indent, dedent}
use cythonpp.Lexer.Indentation.{
  Builder, IndentLevel, initial, push_out, emit, dedent_to, flush_levels, flush, same_level, deeper,
  shallower, close_line, step, run_tokens, run_builder, Label, on_space, on_tab, on_comment,
  on_newline, on_eof, on_default, label_of, synthesized, report_tab_error, report_indentation_error,
  back, last_or, no_token,
}
use cythonpp.Lexer.Indentation.Balance.{Bracket, neither, bracket_of, IsPlain}

-- The tokens that are no INDENT or DEDENT.
abbrev keep_token : Bracket → Token → List Token
keep_token neither t = t ∷ []
keep_token _ t = []

pub erase_blocks : List Token → List Token
erase_blocks [] = []
erase_blocks (t ∷ ts) = keep_token (bracket_of t.type) t ++ erase_blocks ts

-- The tokens that are no space or tab.
abbrev keep_visible : Label → Token → List Token
keep_visible on_space t = []
keep_visible on_tab t = []
keep_visible _ t = t ∷ []

pub erase_blanks : List Token → List Token
erase_blanks [] = []
erase_blanks (t ∷ ts) = keep_visible (label_of t.type) t ++ erase_blanks ts

erase_blocks-append :
    (xs ys : List Token) → erase_blocks (xs ++ ys) ≡ erase_blocks xs ++ erase_blocks ys
unfolding erase_blocks
erase_blocks-append [] ys = refl
erase_blocks-append (x ∷ xs) ys = rw (erase_blocks-append xs ys, append_assoc)

abbrev content : Builder → List Token
content b = erase_blocks b.out

content-push_out :
    (b : Builder) (t : Token)
    → bracket_of t.type ≡ neither
    → content (push_out b t) ≡ content b ++ t ∷ []
unfolding push_out erase_blocks
content-push_out b t h = erase_blocks-append b.out (t ∷ []) ∙ ground (arith, h)

content-indent : (b : Builder) (at : Token) → content (emit b indent at) ≡ content b
unfolding emit erase_blocks bracket_of
content-indent b at = erase_blocks-append b.out (synthesized indent at ∷ []) ∙ append-nil _

content-dedent : (b : Builder) (at : Token) → content (emit b dedent at) ≡ content b
unfolding emit erase_blocks bracket_of
content-dedent b at = erase_blocks-append b.out (synthesized dedent at ∷ []) ∙ append-nil _

content-dedent_to :
    (col : ℕ) (t : Token) (ls : List IndentLevel) (b : Builder)
    → content (dedent_to col t ls b) ≡ content b
unfolding dedent_to
content-dedent_to col t [] b = refl
content-dedent_to col t (l ∷ []) b = refl
content-dedent_to col t (l ∷ m ∷ ls) b = elim (Bool-cases (ltb col l.col)) [
  | inl out ↦ rw out (content-dedent_to col t (m ∷ ls) (emit b dedent t) ∙ content-dedent b t)
  | inr stays ↦ rw stays
]

content-flush_levels :
    (t : Token) (ls : List IndentLevel) (b : Builder) → content (flush_levels t ls b) ≡ content b
unfolding flush_levels
content-flush_levels t [] b = refl
content-flush_levels t (l ∷ []) b = refl
content-flush_levels t (l ∷ m ∷ ls) b =
    content-flush_levels t (m ∷ ls) (emit b dedent t) ∙ content-dedent b t

same_level-out : (b : Builder) (line : IndentLevel) (t : Token) → (same_level b line t).out ≡ b.out
unfolding same_level report_tab_error
same_level-out b line t = ground arith

content-deeper :
    (b : Builder) (line : IndentLevel) (t : Token) → content (deeper b line t) ≡ content b
unfolding deeper report_tab_error
content-deeper b line t =
    content-indent (record checked { levels = line ∷ checked.levels }) t ∙ ap erase_blocks same_out
  where
    checked : Builder
    checked = if leb line.alt_col (back b.levels).alt_col then report_tab_error b t else b

    same_out : checked.out ≡ b.out
    same_out = ground arith

content-shallower :
    (b : Builder) (line : IndentLevel) (t : Token) → content (shallower b line t) ≡ content b
unfolding shallower report_indentation_error
content-shallower b line t = ap erase_blocks same_out ∙ content-dedent_to line.col t b.levels b
  where
    same_out : (shallower b line t).out ≡ (dedent_to line.col t b.levels b).out
    same_out = ground (arith, same_level-out (dedent_to line.col t b.levels b) line t)

content-close_line : (b : Builder) (t : Token) → content (close_line b t) ≡ content b
unfolding close_line
content-close_line b t = elim (Bool-cases (b.pending.col == (back b.levels).col)) [
  | inl same ↦ rw same (ap erase_blocks (same_level-out measured b.pending t))
  | inr differs ↦ elim (Bool-cases (ltb (back b.levels).col b.pending.col)) [
    | inl more ↦ rw (differs, more) (content-deeper measured b.pending t)
    | inr less ↦ rw (differs, less) (content-shallower measured b.pending t)
  ]
]
  where
    measured : Builder
    measured = record b { measuring = false }

content-default :
    (first : Bool) (b : Builder) (t : Token)
    → bracket_of t.type ≡ neither
    → content (push_out (if first then close_line b t else b) t) ≡ content b ++ t ∷ []
content-default true b t h =
    content-push_out (close_line b t) t h ∙ ap (λ c. c ++ t ∷ []) (content-close_line b t)
content-default false b t h = content-push_out b t h

content-step :
    (l : Label) (b : Builder) (t : Token)
    → bracket_of t.type ≡ neither
    → content (step l b t) ≡ content b ++ keep_visible l t
unfolding step flush
content-step on_space b t h = sym (append-nil _)
content-step on_tab b t h = sym (append-nil _)
content-step on_comment b t h = content-push_out b t h
content-step on_newline b t h = content-push_out b t h
content-step on_eof b t h =
    content-push_out (flush b t) t h ∙ ap (λ c. c ++ t ∷ []) (content-flush_levels t b.levels b)
content-step on_default b t h = content-default b.measuring b t h

content-run_tokens :
    (ts : List Token) (b : Builder)
    → IsPlain ts
    → content (run_tokens ts b) ≡ content b ++ erase_blanks ts
unfolding run_tokens erase_blanks
content-run_tokens [] b h = sym (append-nil _)
content-run_tokens (t ∷ ts) b h =
    content-run_tokens ts (step (label_of t.type) b t) h.1
    ∙ ap (λ c. c ++ erase_blanks ts) (content-step (label_of t.type) b t h.0)
    ∙ append_assoc (content b) _ _

-- For input without INDENT and DEDENT, the output without them is the input without its spaces and
-- tabs: no token is lost, added, changed or moved.
pub run_builder-content :
    (ts : List Token) (sink : Sink)
    → IsPlain ts
    → erase_blocks (run_builder ts sink).out ≡ erase_blanks ts
unfolding run_builder flush erase_blocks
run_builder-content ts sink h = elim (Bool-cases (ltb 1 (length b.levels))) [
  | inl open_blocks ↦
      rw open_blocks (content-flush_levels (last_or no_token b.out) b.levels b ∙ ran)
  | inr closed ↦ rw closed ran
]
  where
    b : Builder
    b = run_tokens ts (initial sink)

    ran : content b ≡ erase_blanks ts
    ran = content-run_tokens ts (initial sink) h
