-- ===== src/Lexer/Keywords.antt =====
-- src/domain/lexer/keyword_table.cpp: the sorted tables of words, and their readings both ways.
pub mod Laws
pub mod Tests
use cythonpp.Prelude.{Bool, true, false, Option, none, some, List, [], ◌∷◌, if◌then◌else◌}
use cythonpp.Prelude.Text.{Text, text, text_eq, text_less}
use cythonpp.Lexer.TokenType.{
  TokenType, same_type, identifier, bool_false, bool_true, keyword_as, keyword_assert,
  keyword_async, keyword_await, keyword_break, keyword_case, keyword_class, keyword_continue,
  keyword_def, keyword_del, keyword_elif, keyword_else, keyword_except, keyword_finally,
  keyword_for, keyword_from, keyword_global, keyword_if, keyword_import, keyword_lambda,
  keyword_match, keyword_none, keyword_nonlocal, keyword_pass, keyword_raise, keyword_return,
  keyword_try, keyword_underscore, keyword_while, keyword_with, keyword_yield, op_and, op_in, op_is,
  op_is_not, op_not, op_not_in, op_or, type_bool, type_bytearray, type_bytes, type_complex,
  type_dict, type_float, type_frozenset, type_int, type_list, type_object, type_set, type_string,
  type_tuple,
}

pub record KeywordEntry : Type 0 where
  pub spelling : Text
  pub type : TokenType

abbrev entry : Text → TokenType → KeywordEntry
entry spelling type = record { spelling = spelling; type = type }

abbrev pub reserved_keywords : List KeywordEntry
reserved_keywords =
    entry (text "False") bool_false
    ∷ entry (text "None") keyword_none
    ∷ entry (text "True") bool_true
    ∷ entry (text "and") op_and
    ∷ entry (text "as") keyword_as
    ∷ entry (text "assert") keyword_assert
    ∷ entry (text "async") keyword_async
    ∷ entry (text "await") keyword_await
    ∷ entry (text "break") keyword_break
    ∷ entry (text "class") keyword_class
    ∷ entry (text "continue") keyword_continue
    ∷ entry (text "def") keyword_def
    ∷ entry (text "del") keyword_del
    ∷ entry (text "elif") keyword_elif
    ∷ entry (text "else") keyword_else
    ∷ entry (text "except") keyword_except
    ∷ entry (text "finally") keyword_finally
    ∷ entry (text "for") keyword_for
    ∷ entry (text "from") keyword_from
    ∷ entry (text "global") keyword_global
    ∷ entry (text "if") keyword_if
    ∷ entry (text "import") keyword_import
    ∷ entry (text "in") op_in
    ∷ entry (text "is") op_is
    ∷ entry (text "lambda") keyword_lambda
    ∷ entry (text "nonlocal") keyword_nonlocal
    ∷ entry (text "not") op_not
    ∷ entry (text "or") op_or
    ∷ entry (text "pass") keyword_pass
    ∷ entry (text "raise") keyword_raise
    ∷ entry (text "return") keyword_return
    ∷ entry (text "try") keyword_try
    ∷ entry (text "while") keyword_while
    ∷ entry (text "with") keyword_with
    ∷ entry (text "yield") keyword_yield
    ∷ []

abbrev pub type_names : List KeywordEntry
type_names =
    entry (text "bool") type_bool
    ∷ entry (text "bytearray") type_bytearray
    ∷ entry (text "bytes") type_bytes
    ∷ entry (text "complex") type_complex
    ∷ entry (text "dict") type_dict
    ∷ entry (text "float") type_float
    ∷ entry (text "frozenset") type_frozenset
    ∷ entry (text "int") type_int
    ∷ entry (text "list") type_list
    ∷ entry (text "object") type_object
    ∷ entry (text "set") type_set
    ∷ entry (text "str") type_string
    ∷ entry (text "tuple") type_tuple
    ∷ []

abbrev pub soft_keywords : List KeywordEntry
soft_keywords =
    entry (text "_") keyword_underscore
    ∷ entry (text "case") keyword_case
    ∷ entry (text "match") keyword_match
    ∷ []

abbrev pub compound_operators : List KeywordEntry
compound_operators = entry (text "is not") op_is_not ∷ entry (text "not in") op_not_in ∷ []

-- `std::lower_bound` on a sorted table gives the first entry that is not less than the word.
unfoldable pub lower_bound : List KeywordEntry → Text → Option KeywordEntry
lower_bound [] word = none
lower_bound (e ∷ rest) word =
    let later = lower_bound rest word in if text_less e.spelling word then later else some e

unfoldable pub find_word : List KeywordEntry → Text → Option TokenType
unfolding lower_bound
find_word table word = elim (lower_bound table word) [
  | none ↦ none
  | some e ↦ if text_eq e.spelling word then some e.type else none
]

unfoldable pub find_lexeme : List KeywordEntry → TokenType → Text
find_lexeme [] type = []
find_lexeme (e ∷ rest) type =
    let later = find_lexeme rest type in if same_type e.type type then e.spelling else later

unfoldable pub reserved_keyword_of : Text → Option TokenType
unfolding find_word
reserved_keyword_of word = find_word reserved_keywords word

unfoldable pub builtin_type_of : Text → Option TokenType
unfolding find_word
builtin_type_of word = find_word type_names word

unfoldable pub soft_keyword_of : Text → Option TokenType
unfolding find_word
soft_keyword_of word = find_word soft_keywords word

unfoldable pub classify_word : Text → Bool → TokenType
unfolding reserved_keyword_of builtin_type_of
classify_word word in_annotation = elim (reserved_keyword_of word) [
  | some reserved ↦ reserved
  | none ↦ elim (if in_annotation then builtin_type_of word else none) [
    | some builtin ↦ builtin
    | none ↦ identifier
  ]
]

abbrev or_text : Text → Text → Text
or_text [] other = other
or_text (c ∷ cs) other = c ∷ cs

unfoldable pub keyword_lexeme_of : TokenType → Text
unfolding find_lexeme
keyword_lexeme_of type = or_text (find_lexeme reserved_keywords type) (
    or_text (find_lexeme type_names type)
      (or_text (find_lexeme soft_keywords type) (find_lexeme compound_operators type)))
