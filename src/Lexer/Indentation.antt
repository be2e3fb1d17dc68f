-- ===== src/Lexer/Indentation.antt =====
-- src/domain/lexer/indentation_pass.cpp: INDENT and DEDENT tokens from the whitespace at the start
-- of each logical line. A list of levels has the back of the vector at its head.
pub mod Balance
pub mod Levels
pub mod Exact
pub mod Content
pub mod Tests
use Prim.Native.String.{String}
use cythonpp.Prelude.{
  ℕ, zero, suc, ◌+◌, ◌*◌, ◌/◌, Bool, true, false, ◌&&◌, not, List, [], ◌∷◌, ◌++◌, ltb, leb, ◌==◌,
  length, if◌then◌else◌,
}
use cythonpp.Diagnostics.{Sink, report_error, not_suppressible}
use cythonpp.Lexer.TokenType.{
  TokenType, space, tab, comment_single, newline, token_eof, indent, dedent,
}
use cythonpp.Lexer.Token.{Token}

pub record IndentLevel : Type 0 where
  pub col : ℕ
  pub alt_col : ℕ

abbrev pub no_indent : IndentLevel
no_indent = record { col = 0; alt_col = 0 }

abbrev pub tab_stop : ℕ
tab_stop = 8

pub record Builder : Type 0 where
  pub sink : Sink
  pub levels : List IndentLevel
  pub out : List Token
  pub pending : IndentLevel
  pub measuring : Bool

abbrev pub initial : Sink → Builder
initial sink = record {
  sink = sink;
  levels = no_indent ∷ [];
  out = [];
  pending = no_indent;
  measuring = true;
}

-- `levels_.back()`; the vector is never empty.
abbrev pub back : List IndentLevel → IndentLevel
back [] = no_indent
back (l ∷ ls) = l

-- A zero-width token at the place of another.
abbrev pub synthesized : TokenType → Token → Token
synthesized type at = record {
  type = type;
  lexeme = [];
  line_number = at.line_number;
  column_number = at.column_number;
  end_line = at.line_number;
  end_column = at.column_number;
}

unfoldable pub push_out : Builder → Token → Builder
push_out b t = record b { out = b.out ++ t ∷ [] }

unfoldable pub emit : Builder → TokenType → Token → Builder
unfolding push_out
emit b type at = push_out b (synthesized type at)

unfoldable pub report_tab_error : Builder → Token → Builder
report_tab_error b at = record b {
  sink =
      report_error b.sink "TabError" "inconsistent use of tabs and spaces in indentation"
        at.line_number at.column_number not_suppressible;
}

unfoldable pub report_indentation_error : Builder → Token → Builder
report_indentation_error b at = record b {
  sink =
      report_error b.sink "IndentationError" "unindent does not match any outer indentation level"
        at.line_number at.column_number not_suppressible;
}

-- `while (levels_.size() > 1 && line.col < levels_.back().col)`, over the levels.
pub dedent_to : ℕ → Token → List IndentLevel → Builder → Builder
unfolding emit
dedent_to col next [] b = record b { levels = [] }
dedent_to col next (l ∷ []) b = record b { levels = l ∷ [] }
dedent_to col next (l ∷ m ∷ ls) b =
    let popped = dedent_to col next (m ∷ ls) (emit b dedent next) in
    if ltb col l.col then popped else record b { levels = l ∷ m ∷ ls }

-- `while (levels_.size() > 1)`
pub flush_levels : Token → List IndentLevel → Builder → Builder
unfolding emit
flush_levels at [] b = record b { levels = [] }
flush_levels at (l ∷ []) b = record b { levels = l ∷ [] }
flush_levels at (l ∷ m ∷ ls) b = flush_levels at (m ∷ ls) (emit b dedent at)

pub flush : Builder → Token → Builder
unfolding flush_levels
flush b at = flush_levels at b.levels b

-- `if (levels_.size() > 1) { levels_.back() = line; }`
abbrev pub replace_back : List IndentLevel → IndentLevel → List IndentLevel
replace_back (l ∷ m ∷ ls) line = line ∷ m ∷ ls
replace_back ls line = ls

-- A line whose column is the current level's.
pub same_level : Builder → IndentLevel → Token → Builder
unfolding report_tab_error
same_level b line next =
    if line.alt_col == (back b.levels).alt_col then b else report_tab_error b next

-- A line further in.
pub deeper : Builder → IndentLevel → Token → Builder
unfolding report_tab_error emit
deeper b line next =
    let checked = if leb line.alt_col (back b.levels).alt_col then report_tab_error b next else b in
    emit (record checked { levels = line ∷ checked.levels }) indent next

-- A line further out.
pub shallower : Builder → IndentLevel → Token → Builder
unfolding dedent_to report_indentation_error same_level
shallower b line next =
    let popped = dedent_to line.col next b.levels b in
    if line.col == (back popped.levels).col
    then same_level popped line next
    else let reported = report_indentation_error popped next in
      record reported { levels = replace_back reported.levels line }

pub close_line : Builder → Token → Builder
unfolding same_level deeper shallower
close_line b next =
    let measured = record b { measuring = false } in
    let line = b.pending in
    if line.col == (back b.levels).col
    then same_level measured line next
    else if ltb (back b.levels).col line.col
    then deeper measured line next
    else shallower measured line next

-- The labels of the switch in `run`.
pub data Label : Type 0 where
  on_space on_tab on_comment on_newline on_eof on_default : Label

pub label_of : TokenType → Label
label_of space = on_space
label_of tab = on_tab
label_of comment_single = on_comment
label_of newline = on_newline
label_of token_eof = on_eof
label_of _ = on_default

abbrev pub next_tab_stop : ℕ → ℕ
next_tab_stop col = (col / tab_stop + 1) * tab_stop

-- One turn of the loop over the tokens.
pub step : Label → Builder → Token → Builder
unfolding push_out flush close_line
step on_space b t = record b {
  pending = record { col = b.pending.col + 1; alt_col = b.pending.alt_col + 1 };
}
step on_tab b t = record b {
  pending = record { col = next_tab_stop b.pending.col; alt_col = b.pending.alt_col + 1 };
}
step on_comment b t = push_out b t
step on_newline b t = record (push_out b t) { pending = no_indent; measuring = true }
step on_eof b t = push_out (flush b t) t
step on_default b t = push_out (if b.measuring then close_line b t else b) t

pub run_tokens : List Token → Builder → Builder
unfolding step label_of
run_tokens [] b = b
run_tokens (t ∷ ts) b = run_tokens ts (step (label_of t.type) b t)

-- `out_.back()`, read only where a token was emitted.
abbrev pub last_or : Token → List Token → Token
last_or d [] = d
last_or d (t ∷ ts) = last_or t ts

abbrev pub no_token : Token
no_token = record {
  type = token_eof;
  lexeme = [];
  line_number = 0;
  column_number = 0;
  end_line = 0;
  end_column = 0;
}

pub run_builder : List Token → Sink → Builder
unfolding run_tokens
run_builder tokens sink =
    let b = run_tokens tokens (initial sink) in
    if ltb 1 (length b.levels) then flush b (last_or no_token b.out) else b
