-- ===== src/Lexer/Indentation/Levels.antt =====
-- The levels of the indentation pass: the sentinel is never popped or changed, and the columns grow.
use cythonpp.Prelude.{
  ℕ, ◌≤◌, ◌<◌, ◌≡◌, refl, Bool, true, false, List, [], ◌∷◌, arith, ltb, ◌==◌, if◌then◌else◌,
  Bool-cases, inl, inr,
}
use cythonpp.Lexer.Token.{Token}
use cythonpp.Lexer.Indentation.{
  Builder, IndentLevel, no_indent, push_out, emit, dedent_to, flush_levels, flush, same_level,
  deeper, shallower, close_line, step, run_tokens, Label, on_space, on_tab, on_comment, on_newline,
  on_eof, on_default, label_of, report_indentation_error, replace_back, back,
}

-- Columns fall from the back of the vector to the sentinel, whose columns are zero.
abbrev pub IsOrdered : List IndentLevel → Type 0
IsOrdered [] = ⊥
IsOrdered (l ∷ []) = l ≡ no_indent
IsOrdered (l ∷ m ∷ ls) = (m.col < l.col) × IsOrdered (m ∷ ls)

-- The loop stops at the sentinel or at a level that is not further in than the line.
dedent_to-IsOrdered :
    (col : ℕ) (next : Token) (ls : List IndentLevel) (b : Builder)
    → IsOrdered ls
    → IsOrdered (dedent_to col next ls b).levels
unfolding dedent_to
dedent_to-IsOrdered col next [] b h = absurd h
dedent_to-IsOrdered col next (l ∷ []) b h = h
dedent_to-IsOrdered col next (l ∷ m ∷ ls) b h = elim (Bool-cases (ltb col l.col)) [
  | inl out ↦ rw out (dedent_to-IsOrdered col next (m ∷ ls) _ h.1)
  | inr stays ↦ rw stays h
]

dedent_to-back :
    (col : ℕ) (next : Token) (ls : List IndentLevel) (b : Builder)
    → IsOrdered ls
    → (back (dedent_to col next ls b).levels).col ≤ col
unfolding dedent_to
dedent_to-back col next [] b h = absurd h
dedent_to-back col next (l ∷ []) b h = ground arith
dedent_to-back col next (l ∷ m ∷ ls) b h = elim (Bool-cases (ltb col l.col)) [
  | inl out ↦ rw out (dedent_to-back col next (m ∷ ls) _ h.1)
  | inr stays ↦ rw stays (ground arith)
]

replace_back-IsOrdered :
    (ls : List IndentLevel) (line : IndentLevel)
    → IsOrdered ls
    → (back ls).col < line.col
    → IsOrdered (replace_back ls line)
replace_back-IsOrdered [] line h lt = absurd h
replace_back-IsOrdered (l ∷ []) line h lt = h
replace_back-IsOrdered (l ∷ m ∷ ls) line h lt = (omega arith, h.1)

flush_levels-IsOrdered :
    (at : Token) (ls : List IndentLevel) (b : Builder)
    → IsOrdered ls
    → (flush_levels at ls b).levels ≡ no_indent ∷ []
unfolding flush_levels
flush_levels-IsOrdered at [] b h = absurd h
flush_levels-IsOrdered at (l ∷ []) b h = rw h
flush_levels-IsOrdered at (l ∷ m ∷ ls) b h = flush_levels-IsOrdered at (m ∷ ls) _ h.1

pub same_level-levels :
    (b : Builder) (line : IndentLevel) (t : Token) → (same_level b line t).levels ≡ b.levels
unfolding same_level
same_level-levels b line t = ground arith

push-IsOrdered :
    (ls : List IndentLevel) (line : IndentLevel)
    → IsOrdered ls
    → (back ls).col < line.col
    → IsOrdered (line ∷ ls)
push-IsOrdered [] line h lt = absurd h
push-IsOrdered (l ∷ ls) line h lt = (lt, h)

pub deeper-levels :
    (b : Builder) (line : IndentLevel) (t : Token) → (deeper b line t).levels ≡ line ∷ b.levels
unfolding deeper emit push_out
deeper-levels b line t = ground arith

shallower-IsOrdered :
    (b : Builder) (line : IndentLevel) (t : Token)
    → IsOrdered b.levels
    → IsOrdered (shallower b line t).levels
unfolding shallower report_indentation_error
shallower-IsOrdered b line t h = elim (Bool-cases (line.col == (back popped.levels).col)) [
  | inl same ↦ rw (same, same_level-levels popped line t) popped_ordered
  | inr differs ↦
      rw differs (replace_back-IsOrdered popped.levels line popped_ordered (above differs))
]
  where
    popped : Builder
    popped = dedent_to line.col t b.levels b

    popped_ordered : IsOrdered popped.levels
    popped_ordered = dedent_to-IsOrdered line.col t b.levels b h

    above : line.col == (back popped.levels).col ≡ false → (back popped.levels).col < line.col
    above differs = ground (arith, dedent_to-back line.col t b.levels b h)

pub close_line-IsOrdered :
    (b : Builder) (t : Token) → IsOrdered b.levels → IsOrdered (close_line b t).levels
unfolding close_line
close_line-IsOrdered b t h = elim (Bool-cases (b.pending.col == (back b.levels).col)) [
  | inl same ↦ rw (same, same_level-levels) h
  | inr differs ↦ elim (Bool-cases (ltb (back b.levels).col b.pending.col)) [
    | inl more ↦
        rw (differs, more, deeper-levels) (push-IsOrdered b.levels b.pending h (ground arith))
    | inr less ↦ rw (differs, less) (shallower-IsOrdered _ b.pending t h)
  ]
]

default-IsOrdered :
    (first : Bool) (b : Builder) (t : Token)
    → IsOrdered b.levels
    → IsOrdered (push_out (if first then close_line b t else b) t).levels
unfolding push_out
default-IsOrdered true b t h = close_line-IsOrdered b t h
default-IsOrdered false b t h = h

step-IsOrdered :
    (l : Label) (b : Builder) (t : Token) → IsOrdered b.levels → IsOrdered (step l b t).levels
unfolding step push_out flush
step-IsOrdered on_space b t h = h
step-IsOrdered on_tab b t h = h
step-IsOrdered on_comment b t h = h
step-IsOrdered on_newline b t h = h
step-IsOrdered on_eof b t h = rw (flush_levels-IsOrdered t b.levels b h) refl
step-IsOrdered on_default b t h = default-IsOrdered b.measuring b t h

-- After any tokens the columns of the open levels strictly grow from the sentinel, which is still at
-- the bottom with its two columns zero.
pub run_tokens-IsOrdered :
    (ts : List Token) (b : Builder) → IsOrdered b.levels → IsOrdered (run_tokens ts b).levels
unfolding run_tokens
run_tokens-IsOrdered [] b h = h
run_tokens-IsOrdered (t ∷ ts) b h =
    run_tokens-IsOrdered ts (step (label_of t.type) b t) (step-IsOrdered (label_of t.type) b t h)
