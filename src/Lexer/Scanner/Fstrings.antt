-- ===== src/Lexer/Scanner/Fstrings.antt =====
-- src/domain/lexer/lexer.cpp: tokens, words and f-strings. An f-string holds tokens in its
-- replacement fields, so the functions that scan them call each other, on fuel.
use cythonpp.Prelude.{
  ℕ, zero, suc, Bool, true, false, not, ◌&&◌, ◌||◌, Option, none, some, [], ◌∷◌, ◌==◌, ltb, length,
  if◌then◌else◌,
}
use cythonpp.Prelude.Text.{Text, text}
use cythonpp.Lexer.TokenType.{
  fstring_start, fstring_middle, fstring_end, open_brace, close_brace, colon,
}
use cythonpp.Lexer.Context.{in_annotation, bracket_depth}
use cythonpp.Lexer.Keywords.{classify_word}
use cythonpp.Lexer.Scanner.Bytes.{
  is_digit, is_identifier_start, is_identifier_continue, is_string_prefix, prefix_contains,
}
use cythonpp.Lexer.Scanner.Cursor.{Cursor, peek, advance, advance_while, slice}
use cythonpp.Lexer.Scanner.State.{Scanner, move, emit, emit_from}
use cythonpp.Lexer.Scanner.Pieces.{
  is_triple, open_quotes, scan_comment, scan_string, scan_number, scan_operator,
}

abbrev pub at_end : Cursor → Bool
at_end k = elim k.ahead [ [] ↦ true | c ∷ cs ↦ false ]

-- `if (position_ > chunk_start)`: the literal text since the start of a chunk.
unfoldable pub flush : Cursor → Scanner → Scanner
unfolding emit_from
flush chunk s =
    if ltb (length s.cursor.ahead) (length chunk.ahead) then emit_from fstring_middle chunk s else s

-- The closing quote, or quotes.
abbrev pub ends_here : ℕ → Bool → Cursor → Bool
ends_here quote triple k = peek 0 k == quote && (not triple || is_triple quote k)

abbrev pub doubled_brace : Cursor → Bool
doubled_brace k = (peek 0 k == b'{' && peek 1 k == b'{') || (peek 0 k == b'}' && peek 1 k == b'}')

-- What the next byte is to each of the three loops: its tests, in order.
pub data FstringStep : Type 0 where
  fstring_stops fstring_escape fstring_doubled fstring_field fstring_text : FstringStep

pub data SpecStep : Type 0 where
  spec_stops spec_field spec_text : SpecStep

pub data FieldStep : Type 0 where
  field_stops field_blank field_colon field_part field_token : FieldStep

unfoldable pub fstring_step : ℕ → Bool → Cursor → FstringStep
fstring_step quote triple k =
    if at_end k
    then fstring_stops
    else if peek 0 k == b'\\'
    then fstring_escape
    else if not triple && peek 0 k == b'\n'
    then fstring_stops
    else if doubled_brace k
    then fstring_doubled
    else if ends_here quote triple k
    then fstring_stops
    else if peek 0 k == b'{'
    then fstring_field
    else fstring_text

unfoldable pub spec_step : ℕ → Bool → Cursor → SpecStep
spec_step quote triple k =
    if at_end k || peek 0 k == b'}' || (not triple && peek 0 k == b'\n') || ends_here quote triple k
    then spec_stops
    else if peek 0 k == b'{'
    then spec_field
    else spec_text

abbrev pub is_field_blank : ℕ → Bool
is_field_blank c = c == b' ' || c == b'\t' || c == b'\r' || c == b'\n'

-- The depth tells whether the brackets that the field opened are closed.
unfoldable pub field_step : Bool → Cursor → FieldStep
field_step at_field_depth k =
    if at_end k
    then field_stops
    else if is_field_blank (peek 0 k)
    then field_blank
    else if at_field_depth && peek 0 k == b'}'
    then field_stops
    else if at_field_depth && peek 0 k == b':'
    then field_colon
    else if at_field_depth && (peek 0 k == b'!' || peek 0 k == b'=') && not (peek 1 k == b'=')
    then field_part
    else field_token

-- A backslash and the byte that it hides.
abbrev pub past_escape : Cursor → Cursor
past_escape k = let hidden = advance k in if at_end hidden then hidden else advance hidden

-- A conversion or a debug specifier.
abbrev pub past_part : Cursor → Cursor
past_part k =
    let rest = advance k in if peek 0 k == b'!' && not (at_end rest) then advance rest else rest

abbrev pub open_field : Scanner → Scanner
open_field s = emit open_brace (text "{") s.cursor (move (advance s.cursor) s)

abbrev pub open_spec : Scanner → Scanner
open_spec s = emit colon (text ":") s.cursor (move (advance s.cursor) s)

unfoldable pub close_field : Scanner → Scanner
unfolding advance emit
close_field s =
    if peek 0 s.cursor == b'}'
    then emit close_brace (text "}") s.cursor (move (advance s.cursor) s)
    else s

abbrev pub past_quote : ℕ → Cursor → Cursor
past_quote quote k = if peek 0 k == quote then advance k else k

abbrev pub past_quotes : ℕ → Bool → Cursor → Cursor
past_quotes quote triple k =
    if peek 0 k == quote
    then (if triple then past_quote quote (past_quote quote (advance k)) else advance k)
    else k

unfoldable pub close_fstring : ℕ → Bool → Scanner → Scanner
unfolding emit_from
close_fstring quote triple s =
    emit_from fstring_end s.cursor (move (past_quotes quote triple s.cursor) s)

abbrev pub open_fstring : Cursor → Scanner → Scanner
open_fstring start s = emit_from fstring_start start (move (open_quotes s.cursor) s)

abbrev pub past_word : Scanner → Scanner
past_word s = move (advance_while is_identifier_continue s.cursor) s

-- What a word is: the prefix of an f-string, of a string, or a word by itself.
pub data WordKind : Type 0 where
  fstring_prefix string_prefix plain_word : WordKind

unfoldable pub word_kind : Text → ℕ → WordKind
unfolding is_string_prefix prefix_contains
word_kind word next =
    if (next == b'"' || next == b'\'') && is_string_prefix word
    then (if prefix_contains word b'f' then fstring_prefix else string_prefix)
    else plain_word

abbrev pub emit_word : Cursor → Scanner → Scanner
emit_word start s =
    let word = slice start s.cursor in
    emit (classify_word word (in_annotation s.context)) word start s

-- The tests of `scan_token`.
pub data TokenKind : Type 0 where
  a_comment a_string a_word a_number an_operator : TokenKind

unfoldable pub token_kind : Cursor → TokenKind
token_kind k =
    let c = peek 0 k in
    if c == b'#'
    then a_comment
    else if c == b'\'' || c == b'"'
    then a_string
    else if is_identifier_start c
    then a_word
    else if is_digit c || (c == b'.' && is_digit (peek 1 k))
    then a_number
    else an_operator

infix 40 ◌then◌
abbrev pub ◌then◌ : Option Scanner → (Scanner → Option Scanner) → Option Scanner
none then f = none
some s then f = f s

unfoldable mutual
  unfolding word_kind fstring_step spec_step field_step token_kind flush close_field close_fstring
      scan_comment scan_string scan_number scan_operator

  pub scan_token : ℕ → Scanner → Option Scanner
  scan_token zero s = none
  scan_token (suc fuel) s = elim (token_kind s.cursor) [
    | a_comment ↦ some (scan_comment s)
    | a_string ↦ some (scan_string s.cursor s)
    | a_word ↦
        let t = past_word s in
        elim (word_kind (slice s.cursor t.cursor) (peek 0 t.cursor)) [
          | plain_word ↦ some (emit_word s.cursor t)
          | string_prefix ↦ some (scan_string s.cursor t)
          | fstring_prefix ↦
              let quote = peek 0 t.cursor in
              let triple = is_triple quote t.cursor in
              let u = open_fstring s.cursor t in
              fstring_loop fuel quote triple u.cursor u
              then (λ v. some (close_fstring quote triple v))
        ]
    | a_number ↦ some (scan_number s)
    | an_operator ↦ some (scan_operator s)
  ]

  -- The loop of `scan_fstring`, with the chunk after it.
  pub fstring_loop : ℕ → ℕ → Bool → Cursor → Scanner → Option Scanner
  fstring_loop zero quote triple chunk s = none
  fstring_loop (suc fuel) quote triple chunk s = elim (fstring_step quote triple s.cursor) [
    | fstring_stops ↦ some (flush chunk s)
    | fstring_escape ↦ fstring_loop fuel quote triple chunk (move (past_escape s.cursor) s)
    | fstring_doubled ↦ fstring_loop fuel quote triple chunk (move (advance (advance s.cursor)) s)
    | fstring_field ↦
        let opened = open_field (flush chunk s) in
        field_loop fuel quote triple (bracket_depth opened.context) opened
        then (λ t. fstring_loop fuel quote triple (close_field t).cursor (close_field t))
    | fstring_text ↦ fstring_loop fuel quote triple chunk (move (advance s.cursor) s)
  ]

  -- The loop of `scan_fstring_replacement_field`, from past its brace.
  pub field_loop : ℕ → ℕ → Bool → ℕ → Scanner → Option Scanner
  field_loop zero quote triple depth s = none
  field_loop (suc fuel) quote triple depth s =
      elim (field_step (bracket_depth s.context == depth) s.cursor) [
        | field_stops ↦ some s
        | field_blank ↦ field_loop fuel quote triple depth (move (advance s.cursor) s)
        | field_colon ↦ let t = open_spec s in spec_loop fuel quote triple t.cursor t
        | field_part ↦
            field_loop fuel quote triple depth
              (emit_from fstring_middle s.cursor (move (past_part s.cursor) s))
        | field_token ↦ scan_token fuel s then (λ t. field_loop fuel quote triple depth t)
      ]

  -- `scan_fstring_format_spec`
  pub spec_loop : ℕ → ℕ → Bool → Cursor → Scanner → Option Scanner
  spec_loop zero quote triple chunk s = none
  spec_loop (suc fuel) quote triple chunk s = elim (spec_step quote triple s.cursor) [
    | spec_stops ↦ some (flush chunk s)
    | spec_field ↦
        let opened = open_field (flush chunk s) in
        field_loop fuel quote triple (bracket_depth opened.context) opened
        then (λ t. spec_loop fuel quote triple (close_field t).cursor (close_field t))
    | spec_text ↦ spec_loop fuel quote triple chunk (move (advance s.cursor) s)
  ]
