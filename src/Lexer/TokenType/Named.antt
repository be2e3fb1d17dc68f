-- ===== src/Lexer/TokenType/Named.antt =====
-- No two token types have one name.
use cythonpp.Prelude.{◌≡◌, refl, sym, ap, ◌∙◌, Option, none, some, List, [], ◌∷◌, if◌then◌else◌}
use cythonpp.Prelude.Text.{Text, text_eq}
use cythonpp.Lexer.TokenType.{
  TokenType, token_eof, token_error, newline, space, tab, indent, dedent, identifier,
  literal_string, literal_bytes, fstring_start, fstring_middle, fstring_end, literal_int,
  literal_float, literal_complex, bool_true, bool_false, keyword_none, ellipsis, keyword_if,
  keyword_else, keyword_for, keyword_elif, keyword_while, keyword_return, keyword_def,
  keyword_class, keyword_as, keyword_assert, keyword_async, keyword_await, keyword_break,
  keyword_continue, keyword_del, keyword_except, keyword_finally, keyword_from, keyword_global,
  keyword_import, keyword_lambda, keyword_nonlocal, keyword_pass, keyword_raise, keyword_try,
  keyword_with, keyword_yield, keyword_match, keyword_case, keyword_underscore, op_and, op_or,
  op_not, op_is, op_in, op_not_in, op_is_not, op_assign, op_plus, op_minus, op_equal, op_not_equal,
  op_less, op_greater, op_less_equal, op_greater_equal, op_star, op_slash, op_double_slash,
  op_percent, op_double_star, op_at, op_ampersand, op_pipe, op_caret, op_tilde, op_left_shift,
  op_right_shift, op_plus_assign, op_minus_assign, op_star_assign, op_slash_assign,
  op_double_slash_assign, op_percent_assign, op_double_star_assign, op_at_assign,
  op_ampersand_assign, op_pipe_assign, op_caret_assign, op_right_shift_assign, op_left_shift_assign,
  op_walrus, op_arrow, open_paren, close_paren, open_brace, close_brace, open_bracket,
  close_bracket, semicolon, comma, dot, colon, question, comment_single, comment_multi, type_int,
  type_float, type_string, type_bool, type_list, type_dict, type_set, type_tuple, type_bytes,
  type_complex, type_frozenset, type_bytearray, type_object,
}
use cythonpp.Lexer.TokenType.Names.{token_type_name}

abbrev all_types : List TokenType
all_types =
    token_eof ∷ token_error ∷ newline ∷ space ∷ tab ∷ indent ∷ dedent ∷ identifier ∷ literal_string
    ∷ literal_bytes ∷ fstring_start ∷ fstring_middle ∷ fstring_end ∷ literal_int ∷ literal_float
    ∷ literal_complex ∷ bool_true ∷ bool_false ∷ keyword_none ∷ ellipsis ∷ keyword_if ∷ keyword_else
    ∷ keyword_for ∷ keyword_elif ∷ keyword_while ∷ keyword_return ∷ keyword_def ∷ keyword_class
    ∷ keyword_as ∷ keyword_assert ∷ keyword_async ∷ keyword_await ∷ keyword_break ∷ keyword_continue
    ∷ keyword_del ∷ keyword_except ∷ keyword_finally ∷ keyword_from ∷ keyword_global
    ∷ keyword_import ∷ keyword_lambda ∷ keyword_nonlocal ∷ keyword_pass ∷ keyword_raise
    ∷ keyword_try ∷ keyword_with ∷ keyword_yield ∷ keyword_match ∷ keyword_case ∷ keyword_underscore
    ∷ op_and ∷ op_or ∷ op_not ∷ op_is ∷ op_in ∷ op_not_in ∷ op_is_not ∷ op_assign ∷ op_plus
    ∷ op_minus ∷ op_equal ∷ op_not_equal ∷ op_less ∷ op_greater ∷ op_less_equal ∷ op_greater_equal
    ∷ op_star ∷ op_slash ∷ op_double_slash ∷ op_percent ∷ op_double_star ∷ op_at ∷ op_ampersand
    ∷ op_pipe ∷ op_caret ∷ op_tilde ∷ op_left_shift ∷ op_right_shift ∷ op_plus_assign
    ∷ op_minus_assign ∷ op_star_assign ∷ op_slash_assign ∷ op_double_slash_assign
    ∷ op_percent_assign ∷ op_double_star_assign ∷ op_at_assign ∷ op_ampersand_assign
    ∷ op_pipe_assign ∷ op_caret_assign ∷ op_right_shift_assign ∷ op_left_shift_assign ∷ op_walrus
    ∷ op_arrow ∷ open_paren ∷ close_paren ∷ open_brace ∷ close_brace ∷ open_bracket ∷ close_bracket
    ∷ semicolon ∷ comma ∷ dot ∷ colon ∷ question ∷ comment_single ∷ comment_multi ∷ type_int
    ∷ type_float ∷ type_string ∷ type_bool ∷ type_list ∷ type_dict ∷ type_set ∷ type_tuple
    ∷ type_bytes ∷ type_complex ∷ type_frozenset ∷ type_bytearray ∷ type_object ∷ []

type_named : List TokenType → Text → Option TokenType
type_named [] name = none
type_named (t ∷ ts) name =
    let later = type_named ts name in if text_eq (token_type_name t) name then some t else later

type_named-token_type_name : (t : TokenType) → type_named all_types (token_type_name t) ≡ some t
unfolding type_named token_type_name text_eq
type_named-token_type_name token_eof = refl
type_named-token_type_name token_error = refl
type_named-token_type_name newline = refl
type_named-token_type_name space = refl
type_named-token_type_name tab = refl
type_named-token_type_name indent = refl
type_named-token_type_name dedent = refl
type_named-token_type_name identifier = refl
type_named-token_type_name literal_string = refl
type_named-token_type_name literal_bytes = refl
type_named-token_type_name fstring_start = refl
type_named-token_type_name fstring_middle = refl
type_named-token_type_name fstring_end = refl
type_named-token_type_name literal_int = refl
type_named-token_type_name literal_float = refl
type_named-token_type_name literal_complex = refl
type_named-token_type_name bool_true = refl
type_named-token_type_name bool_false = refl
type_named-token_type_name keyword_none = refl
type_named-token_type_name ellipsis = refl
type_named-token_type_name keyword_if = refl
type_named-token_type_name keyword_else = refl
type_named-token_type_name keyword_for = refl
type_named-token_type_name keyword_elif = refl
type_named-token_type_name keyword_while = refl
type_named-token_type_name keyword_return = refl
type_named-token_type_name keyword_def = refl
type_named-token_type_name keyword_class = refl
type_named-token_type_name keyword_as = refl
type_named-token_type_name keyword_assert = refl
type_named-token_type_name keyword_async = refl
type_named-token_type_name keyword_await = refl
type_named-token_type_name keyword_break = refl
type_named-token_type_name keyword_continue = refl
type_named-token_type_name keyword_del = refl
type_named-token_type_name keyword_except = refl
type_named-token_type_name keyword_finally = refl
type_named-token_type_name keyword_from = refl
type_named-token_type_name keyword_global = refl
type_named-token_type_name keyword_import = refl
type_named-token_type_name keyword_lambda = refl
type_named-token_type_name keyword_nonlocal = refl
type_named-token_type_name keyword_pass = refl
type_named-token_type_name keyword_raise = refl
type_named-token_type_name keyword_try = refl
type_named-token_type_name keyword_with = refl
type_named-token_type_name keyword_yield = refl
type_named-token_type_name keyword_match = refl
type_named-token_type_name keyword_case = refl
type_named-token_type_name keyword_underscore = refl
type_named-token_type_name op_and = refl
type_named-token_type_name op_or = refl
type_named-token_type_name op_not = refl
type_named-token_type_name op_is = refl
type_named-token_type_name op_in = refl
type_named-token_type_name op_not_in = refl
type_named-token_type_name op_is_not = refl
type_named-token_type_name op_assign = refl
type_named-token_type_name op_plus = refl
type_named-token_type_name op_minus = refl
type_named-token_type_name op_equal = refl
type_named-token_type_name op_not_equal = refl
type_named-token_type_name op_less = refl
type_named-token_type_name op_greater = refl
type_named-token_type_name op_less_equal = refl
type_named-token_type_name op_greater_equal = refl
type_named-token_type_name op_star = refl
type_named-token_type_name op_slash = refl
type_named-token_type_name op_double_slash = refl
type_named-token_type_name op_percent = refl
type_named-token_type_name op_double_star = refl
type_named-token_type_name op_at = refl
type_named-token_type_name op_ampersand = refl
type_named-token_type_name op_pipe = refl
type_named-token_type_name op_caret = refl
type_named-token_type_name op_tilde = refl
type_named-token_type_name op_left_shift = refl
type_named-token_type_name op_right_shift = refl
type_named-token_type_name op_plus_assign = refl
type_named-token_type_name op_minus_assign = refl
type_named-token_type_name op_star_assign = refl
type_named-token_type_name op_slash_assign = refl
type_named-token_type_name op_double_slash_assign = refl
type_named-token_type_name op_percent_assign = refl
type_named-token_type_name op_double_star_assign = refl
type_named-token_type_name op_at_assign = refl
type_named-token_type_name op_ampersand_assign = refl
type_named-token_type_name op_pipe_assign = refl
type_named-token_type_name op_caret_assign = refl
type_named-token_type_name op_right_shift_assign = refl
type_named-token_type_name op_left_shift_assign = refl
type_named-token_type_name op_walrus = refl
type_named-token_type_name op_arrow = refl
type_named-token_type_name open_paren = refl
type_named-token_type_name close_paren = refl
type_named-token_type_name open_brace = refl
type_named-token_type_name close_brace = refl
type_named-token_type_name open_bracket = refl
type_named-token_type_name close_bracket = refl
type_named-token_type_name semicolon = refl
type_named-token_type_name comma = refl
type_named-token_type_name dot = refl
type_named-token_type_name colon = refl
type_named-token_type_name question = refl
type_named-token_type_name comment_single = refl
type_named-token_type_name comment_multi = refl
type_named-token_type_name type_int = refl
type_named-token_type_name type_float = refl
type_named-token_type_name type_string = refl
type_named-token_type_name type_bool = refl
type_named-token_type_name type_list = refl
type_named-token_type_name type_dict = refl
type_named-token_type_name type_set = refl
type_named-token_type_name type_tuple = refl
type_named-token_type_name type_bytes = refl
type_named-token_type_name type_complex = refl
type_named-token_type_name type_frozenset = refl
type_named-token_type_name type_bytearray = refl
type_named-token_type_name type_object = refl

some_inj : {a b : TokenType} → some a ≡ some b → a ≡ b
some_inj e = cc

-- Token types with one name are one.
pub token_type_name-injective : (t u : TokenType) → token_type_name t ≡ token_type_name u → t ≡ u
token_type_name-injective t u e = some_inj (
    sym (type_named-token_type_name t) ∙ ap (type_named all_types) e ∙ type_named-token_type_name u)
