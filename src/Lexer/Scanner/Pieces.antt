-- ===== src/Lexer/Scanner/Pieces.antt =====
-- src/domain/lexer/lexer.cpp: the pieces of a line, apart from f-strings.
use cythonpp.Prelude.{ℕ, Bool, true, false, not, ◌&&◌, ◌||◌, [], ◌∷◌, ◌==◌, ltb, if◌then◌else◌}
use cythonpp.Prelude.Text.{Text, text}
use cythonpp.Lexer.TokenType.{
  TokenType, space, tab, newline, comment_single, literal_int, literal_float, literal_complex,
  literal_string, literal_bytes, token_error,
}
use cythonpp.Lexer.Context.{bracket_depth}
use cythonpp.Lexer.Operators.{longest_operator_at}
use cythonpp.Lexer.Scanner.Bytes.{is_digit, is_hex_digit, to_lower, prefix_contains}
use cythonpp.Lexer.Scanner.Cursor.{Cursor, peek, advance, advance_by, advance_while, slice}
use cythonpp.Lexer.Scanner.State.{Scanner, move, emit, emit_from}

abbrev pub is_space_or_tab : ℕ → Bool
is_space_or_tab c = c == b' ' || c == b'\t'

abbrev pub is_indentation : ℕ → Bool
is_indentation c = c == b' ' || c == b'\t' || c == 12

-- The probe of `scan_line_start`: whether only whitespace stands before the end of the line, the
-- end of the source or a comment.
unfoldable pub is_blank_line : Text → Bool
is_blank_line [] = true
is_blank_line (c ∷ cs) =
    let later = is_blank_line cs in
    if is_indentation c then later else c == b'\n' || c == b'\r' || c == b'#'

abbrev pub space_or_tab : ℕ → TokenType
space_or_tab c = if c == b' ' then space else tab

-- One token for each space or tab.
unfoldable pub emit_indentation : Text → Scanner → Scanner
unfolding advance emit
emit_indentation [] s = s
emit_indentation (c ∷ cs) s = elim (is_space_or_tab c) [
  | true ↦ emit_indentation cs (emit (space_or_tab c) (c ∷ []) s.cursor (move (advance s.cursor) s))
  | false ↦ s
]

abbrev pub after_indentation : Scanner → Scanner
after_indentation s = if is_blank_line s.cursor.ahead then s else emit_indentation s.cursor.ahead s

unfoldable pub scan_line_start : Scanner → Scanner
scan_line_start s =
    let t = after_indentation s in
    record t { cursor = advance_while is_indentation t.cursor; at_line_start = false }

abbrev pub finish_line : Cursor → Scanner → Scanner
finish_line start s =
    let t =
      if s.line_has_content
      then record (emit newline (text "\n") start s) { line_has_content = false }
      else s in
    record t { at_line_start = true }

unfoldable pub scan_end_of_line : Scanner → Scanner
unfolding advance
scan_end_of_line s =
    let t = move (advance s.cursor) s in
    if ltb 0 (bracket_depth t.context)
    then record t { at_line_start = false }
    else finish_line s.cursor t

abbrev pub past_return : Cursor → Cursor
past_return k = if peek 0 k == b'\r' then advance k else k

unfoldable pub scan_line_continuation : Scanner → Scanner
scan_line_continuation s = record s {
  cursor = advance (past_return (advance s.cursor));
  at_line_start = false;
}

unfoldable pub scan_comment : Scanner → Scanner
unfolding emit_from
scan_comment s =
    let end = advance_while (λ c. not (c == b'\n') && not (c == b'\r')) s.cursor in
    emit_from comment_single s.cursor (move end s)

-- A number read so far.
pub record NumberRead : Type 0 where
  pub cursor : Cursor
  pub type : TokenType

abbrev pub digits : Cursor → Cursor
digits k = advance_while (λ c. is_digit c || c == b'_') k

abbrev pub hex_digits : Cursor → Cursor
hex_digits k = advance_while (λ c. is_hex_digit c || c == b'_') k

abbrev pub number_read : Cursor → TokenType → NumberRead
number_read k type = record { cursor = k; type = type }

unfoldable pub fraction : Cursor → NumberRead
unfolding advance
fraction k =
    if peek 0 k == b'.'
    then number_read (digits (advance k)) literal_float
    else number_read k literal_int

abbrev pub starts_exponent : Cursor → Bool
starts_exponent k =
    to_lower (peek 0 k) == b'e'
    && (is_digit (peek 1 k) || ((peek 1 k == b'+' || peek 1 k == b'-') && is_digit (peek 2 k)))

unfoldable pub exponent : NumberRead → NumberRead
unfolding advance
exponent n =
    if starts_exponent n.cursor
    then number_read (digits (advance (advance n.cursor))) literal_float
    else n

unfoldable pub imaginary : NumberRead → NumberRead
unfolding advance
imaginary n =
    if to_lower (peek 0 n.cursor) == b'j' then number_read (advance n.cursor) literal_complex else n

abbrev pub has_base : Cursor → Bool
has_base k =
    let base = to_lower (peek 1 k) in
    peek 0 k == b'0' && (base == b'x' || base == b'o' || base == b'b')

unfoldable pub read_number : Cursor → NumberRead
unfolding fraction exponent imaginary
read_number k = imaginary (
    if has_base k
    then number_read (hex_digits (advance (advance k))) literal_int
    else exponent (fraction (digits k)))

unfoldable pub scan_number : Scanner → Scanner
unfolding read_number emit_from
scan_number s = let n = read_number s.cursor in emit_from n.type s.cursor (move n.cursor s)

abbrev pub is_triple : ℕ → Cursor → Bool
is_triple quote k = peek 1 k == quote && peek 2 k == quote

-- Past the opening quotes.
abbrev pub open_quotes : Cursor → Cursor
open_quotes k = if is_triple (peek 0 k) k then advance_by 3 k else advance k

-- The loop of `scan_string` over the text ahead.
unfoldable pub string_body : ℕ → Bool → Text → Cursor → Cursor
unfolding advance advance_by
string_body quote triple [] k = k
string_body quote triple (c ∷ []) k = elim (c == b'\\') [
  | true ↦ advance k
  | false ↦ if not triple && c == b'\n' then k else advance k
]
string_body quote triple (c ∷ d ∷ ds) k = elim (c == b'\\') [
  | true ↦ string_body quote triple ds (advance (advance k))
  | false ↦ elim (not triple && c == b'\n') [
    | true ↦ k
    | false ↦ elim (c == quote && not triple) [
      | true ↦ advance k
      | false ↦ elim (c == quote && is_triple quote k) [
        | true ↦ advance_by 3 k
        | false ↦ string_body quote triple (d ∷ ds) (advance k)
      ]
    ]
  ]
]

unfoldable pub scan_string : Cursor → Scanner → Scanner
unfolding prefix_contains string_body emit_from
scan_string start s =
    let quote = peek 0 s.cursor in
    let inside = open_quotes s.cursor in
    let end = string_body quote (is_triple quote s.cursor) inside.ahead inside in
    emit_from
      (if prefix_contains (slice start s.cursor) b'b' then literal_bytes else literal_string) start
      (move end s)

unfoldable pub scan_operator : Scanner → Scanner
unfolding longest_operator_at emit_from
scan_operator s =
    let match = longest_operator_at s.cursor.ahead in
    if match.length == 0
    then emit_from token_error s.cursor (move (advance s.cursor) s)
    else emit_from match.type s.cursor (move (advance_by match.length s.cursor) s)
