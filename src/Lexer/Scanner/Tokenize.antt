-- ===== src/Lexer/Scanner/Tokenize.antt =====
-- src/domain/lexer/lexer.cpp: the main loop of the scanner.
use cythonpp.Prelude.{
  ℕ, zero, suc, ◌+◌, ◌*◌, Bool, false, ◌&&◌, ◌||◌, Option, none, some, List, [], ◌==◌, length,
  if◌then◌else◌,
}
use cythonpp.Prelude.Text.{Text}
use cythonpp.Lexer.TokenType.{newline, token_eof}
use cythonpp.Lexer.Token.{Token}
use cythonpp.Lexer.Scanner.Cursor.{Cursor, peek, advance}
use cythonpp.Lexer.Scanner.State.{Scanner, reset, move, emit}
use cythonpp.Lexer.Scanner.Pieces.{scan_line_start, scan_end_of_line, scan_line_continuation}
use cythonpp.Lexer.Scanner.Fstrings.{at_end, scan_token, ◌then◌}

-- The body of the loop: its tests, in order.
pub data LoopStep : Type 0 where
  ends line_start blank line_end continues a_token : LoopStep

abbrev pub is_blank : ℕ → Bool
is_blank c = c == b' ' || c == b'\t' || c == b'\r' || c == 12

abbrev pub is_line_continuation : Cursor → Bool
is_line_continuation k =
    peek 0 k == b'\\' && (peek 1 k == b'\n' || (peek 1 k == b'\r' && peek 2 k == b'\n'))

unfoldable pub next_step : Bool → Cursor → LoopStep
next_step at_line_start k =
    if at_end k
    then ends
    else if at_line_start
    then line_start
    else if is_blank (peek 0 k)
    then blank
    else if peek 0 k == b'\n'
    then line_end
    else if is_line_continuation k
    then continues
    else a_token

unfoldable pub scan_loop : ℕ → Scanner → Option Scanner
unfolding next_step advance scan_line_start scan_end_of_line scan_line_continuation scan_token
scan_loop zero s = none
scan_loop (suc fuel) s = elim (next_step s.at_line_start s.cursor) [
  | ends ↦ some s
  | line_start ↦ scan_loop fuel (scan_line_start s)
  | blank ↦ scan_loop fuel (move (advance s.cursor) s)
  | line_end ↦ scan_loop fuel (scan_end_of_line s)
  | continues ↦ scan_loop fuel (scan_line_continuation s)
  | a_token ↦ scan_token fuel s then scan_loop fuel
]

abbrev pub last_newline : Scanner → Scanner
last_newline s =
    if s.line_has_content
    then record (emit newline [] s.cursor s) { line_has_content = false }
    else s

unfoldable pub finish : Scanner → Scanner
unfolding emit
finish s = let t = last_newline s in emit token_eof [] t.cursor t

-- Each round reads a byte, but for the start of a line.
abbrev pub enough_fuel : Text → ℕ
enough_fuel source = 2 * length source + 2

unfoldable pub tokenize : Text → Option (List Token)
unfolding scan_loop finish
tokenize source = elim (scan_loop (enough_fuel source) (reset source)) [
  | none ↦ none
  | some s ↦ some (finish s).tokens
]
