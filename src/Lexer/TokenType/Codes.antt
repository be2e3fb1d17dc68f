-- ===== src/Lexer/TokenType/Codes.antt =====
-- The numbers of the token types tell them apart, so that the comparisons of the lexer and the
-- parser, which compare numbers, are comparisons of token types.
use cythonpp.Prelude.{
  ℕ, ◌+◌, ◌*◌, ◌^◌, ◌<◌, ◌≡◌, refl, sym, ap, ◌∙◌, true, ◌==◌, ◌↔◌, Option, none, some, List, [],
  ◌∷◌, arith, if◌then◌else◌, ==_iff,
}
use cythonpp.Lexer.TokenType.{
  TokenType, token_value, same_type, category_of, subtype_of, token_eof, token_error, newline,
  space, tab, indent, dedent, identifier, literal_string, literal_bytes, fstring_start,
  fstring_middle, fstring_end, literal_int, literal_float, literal_complex, bool_true, bool_false,
  keyword_none, ellipsis, keyword_if, keyword_else, keyword_for, keyword_elif, keyword_while,
  keyword_return, keyword_def, keyword_class, keyword_as, keyword_assert, keyword_async,
  keyword_await, keyword_break, keyword_continue, keyword_del, keyword_except, keyword_finally,
  keyword_from, keyword_global, keyword_import, keyword_lambda, keyword_nonlocal, keyword_pass,
  keyword_raise, keyword_try, keyword_with, keyword_yield, keyword_match, keyword_case,
  keyword_underscore, op_and, op_or, op_not, op_is, op_in, op_not_in, op_is_not, op_assign, op_plus,
  op_minus, op_equal, op_not_equal, op_less, op_greater, op_less_equal, op_greater_equal, op_star,
  op_slash, op_double_slash, op_percent, op_double_star, op_at, op_ampersand, op_pipe, op_caret,
  op_tilde, op_left_shift, op_right_shift, op_plus_assign, op_minus_assign, op_star_assign,
  op_slash_assign, op_double_slash_assign, op_percent_assign, op_double_star_assign, op_at_assign,
  op_ampersand_assign, op_pipe_assign, op_caret_assign, op_right_shift_assign, op_left_shift_assign,
  op_walrus, op_arrow, open_paren, close_paren, open_brace, close_brace, open_bracket,
  close_bracket, semicolon, comma, dot, colon, question, comment_single, comment_multi, type_int,
  type_float, type_string, type_bool, type_list, type_dict, type_set, type_tuple, type_bytes,
  type_complex, type_frozenset, type_bytearray, type_object,
}

abbrev all_types : List TokenType
all_types =
    token_eof ∷ token_error ∷ newline ∷ space ∷ tab ∷ indent ∷ dedent ∷ identifier ∷ literal_string
    ∷ literal_bytes ∷ fstring_start ∷ fstring_middle ∷ fstring_end ∷ literal_int ∷ literal_float
    ∷ literal_complex ∷ bool_true ∷ bool_false ∷ keyword_none ∷ ellipsis ∷ keyword_if ∷ keyword_else
    ∷ keyword_for ∷ keyword_elif ∷ keyword_while ∷ keyword_return ∷ keyword_def ∷ keyword_class
    ∷ keyword_as ∷ keyword_assert ∷ keyword_async ∷ keyword_await ∷ keyword_break ∷ keyword_continue
    ∷ keyword_del ∷ keyword_except ∷ keyword_finally ∷ keyword_from ∷ keyword_global
    ∷ keyword_import ∷ keyword_lambda ∷ keyword_nonlocal ∷ keyword_pass ∷ keyword_raise
    ∷ keyword_try ∷ keyword_with ∷ keyword_yield ∷ keyword_match ∷ keyword_case ∷ keyword_underscore
    ∷ op_and ∷ op_or ∷ op_not ∷ op_is ∷ op_in ∷ op_not_in ∷ op_is_not ∷ op_assign ∷ op_plus
    ∷ op_minus ∷ op_equal ∷ op_not_equal ∷ op_less ∷ op_greater ∷ op_less_equal ∷ op_greater_equal
    ∷ op_star ∷ op_slash ∷ op_double_slash ∷ op_percent ∷ op_double_star ∷ op_at ∷ op_ampersand
    ∷ op_pipe ∷ op_caret ∷ op_tilde ∷ op_left_shift ∷ op_right_shift ∷ op_plus_assign
    ∷ op_minus_assign ∷ op_star_assign ∷ op_slash_assign ∷ op_double_slash_assign
    ∷ op_percent_assign ∷ op_double_star_assign ∷ op_at_assign ∷ op_ampersand_assign
    ∷ op_pipe_assign ∷ op_caret_assign ∷ op_right_shift_assign ∷ op_left_shift_assign ∷ op_walrus
    ∷ op_arrow ∷ open_paren ∷ close_paren ∷ open_brace ∷ close_brace ∷ open_bracket ∷ close_bracket
    ∷ semicolon ∷ comma ∷ dot ∷ colon ∷ question ∷ comment_single ∷ comment_multi ∷ type_int
    ∷ type_float ∷ type_string ∷ type_bool ∷ type_list ∷ type_dict ∷ type_set ∷ type_tuple
    ∷ type_bytes ∷ type_complex ∷ type_frozenset ∷ type_bytearray ∷ type_object ∷ []

-- The first type in the list with this number.
with_value : ℕ → List TokenType → Option TokenType
with_value v [] = none
with_value v (t ∷ ts) = if token_value t == v then some t else with_value v ts

with_value-token_value : (t : TokenType) → with_value (token_value t) all_types ≡ some t
unfolding with_value token_value
with_value-token_value token_eof = refl
with_value-token_value token_error = refl
with_value-token_value newline = refl
with_value-token_value space = refl
with_value-token_value tab = refl
with_value-token_value indent = refl
with_value-token_value dedent = refl
with_value-token_value identifier = refl
with_value-token_value literal_string = refl
with_value-token_value literal_bytes = refl
with_value-token_value fstring_start = refl
with_value-token_value fstring_middle = refl
with_value-token_value fstring_end = refl
with_value-token_value literal_int = refl
with_value-token_value literal_float = refl
with_value-token_value literal_complex = refl
with_value-token_value bool_true = refl
with_value-token_value bool_false = refl
with_value-token_value keyword_none = refl
with_value-token_value ellipsis = refl
with_value-token_value keyword_if = refl
with_value-token_value keyword_else = refl
with_value-token_value keyword_for = refl
with_value-token_value keyword_elif = refl
with_value-token_value keyword_while = refl
with_value-token_value keyword_return = refl
with_value-token_value keyword_def = refl
with_value-token_value keyword_class = refl
with_value-token_value keyword_as = refl
with_value-token_value keyword_assert = refl
with_value-token_value keyword_async = refl
with_value-token_value keyword_await = refl
with_value-token_value keyword_break = refl
with_value-token_value keyword_continue = refl
with_value-token_value keyword_del = refl
with_value-token_value keyword_except = refl
with_value-token_value keyword_finally = refl
with_value-token_value keyword_from = refl
with_value-token_value keyword_global = refl
with_value-token_value keyword_import = refl
with_value-token_value keyword_lambda = refl
with_value-token_value keyword_nonlocal = refl
with_value-token_value keyword_pass = refl
with_value-token_value keyword_raise = refl
with_value-token_value keyword_try = refl
with_value-token_value keyword_with = refl
with_value-token_value keyword_yield = refl
with_value-token_value keyword_match = refl
with_value-token_value keyword_case = refl
with_value-token_value keyword_underscore = refl
with_value-token_value op_and = refl
with_value-token_value op_or = refl
with_value-token_value op_not = refl
with_value-token_value op_is = refl
with_value-token_value op_in = refl
with_value-token_value op_not_in = refl
with_value-token_value op_is_not = refl
with_value-token_value op_assign = refl
with_value-token_value op_plus = refl
with_value-token_value op_minus = refl
with_value-token_value op_equal = refl
with_value-token_value op_not_equal = refl
with_value-token_value op_less = refl
with_value-token_value op_greater = refl
with_value-token_value op_less_equal = refl
with_value-token_value op_greater_equal = refl
with_value-token_value op_star = refl
with_value-token_value op_slash = refl
with_value-token_value op_double_slash = refl
with_value-token_value op_percent = refl
with_value-token_value op_double_star = refl
with_value-token_value op_at = refl
with_value-token_value op_ampersand = refl
with_value-token_value op_pipe = refl
with_value-token_value op_caret = refl
with_value-token_value op_tilde = refl
with_value-token_value op_left_shift = refl
with_value-token_value op_right_shift = refl
with_value-token_value op_plus_assign = refl
with_value-token_value op_minus_assign = refl
with_value-token_value op_star_assign = refl
with_value-token_value op_slash_assign = refl
with_value-token_value op_double_slash_assign = refl
with_value-token_value op_percent_assign = refl
with_value-token_value op_double_star_assign = refl
with_value-token_value op_at_assign = refl
with_value-token_value op_ampersand_assign = refl
with_value-token_value op_pipe_assign = refl
with_value-token_value op_caret_assign = refl
with_value-token_value op_right_shift_assign = refl
with_value-token_value op_left_shift_assign = refl
with_value-token_value op_walrus = refl
with_value-token_value op_arrow = refl
with_value-token_value open_paren = refl
with_value-token_value close_paren = refl
with_value-token_value open_brace = refl
with_value-token_value close_brace = refl
with_value-token_value open_bracket = refl
with_value-token_value close_bracket = refl
with_value-token_value semicolon = refl
with_value-token_value comma = refl
with_value-token_value dot = refl
with_value-token_value colon = refl
with_value-token_value question = refl
with_value-token_value comment_single = refl
with_value-token_value comment_multi = refl
with_value-token_value type_int = refl
with_value-token_value type_float = refl
with_value-token_value type_string = refl
with_value-token_value type_bool = refl
with_value-token_value type_list = refl
with_value-token_value type_dict = refl
with_value-token_value type_set = refl
with_value-token_value type_tuple = refl
with_value-token_value type_bytes = refl
with_value-token_value type_complex = refl
with_value-token_value type_frozenset = refl
with_value-token_value type_bytearray = refl
with_value-token_value type_object = refl

some_inj : {t u : TokenType} → some t ≡ some u → t ≡ u
some_inj e = cc

-- Two token types with one number are one.
pub token_value_injective : (t u : TokenType) → token_value t ≡ token_value u → t ≡ u
token_value_injective t u e =
    some_inj (
      sym (with_value-token_value t)
      ∙ ap (λ v. with_value v all_types) e
      ∙ with_value-token_value u)

-- `==` on token types, which compares their numbers.
pub same_type_iff : (t u : TokenType) → (same_type t u ≡ true) ↔ (t ≡ u)
unfolding same_type
same_type_iff t u =
    (λ h. token_value_injective t u ((==_iff _ _).0 h), λ e. (==_iff _ _).1 (ap token_value e))

-- The two halves of a number are its categories and its subtype, and they make it up again.
pub category_of-subtype_of :
    (t : TokenType)
    → (token_value t ≡ category_of t * 2 ^ 16 + subtype_of t) × (subtype_of t < 2 ^ 16)
unfolding category_of subtype_of
category_of-subtype_of token_eof = (refl, omega arith)
category_of-subtype_of token_error = (refl, omega arith)
category_of-subtype_of newline = (refl, omega arith)
category_of-subtype_of space = (refl, omega arith)
category_of-subtype_of tab = (refl, omega arith)
category_of-subtype_of indent = (refl, omega arith)
category_of-subtype_of dedent = (refl, omega arith)
category_of-subtype_of identifier = (refl, omega arith)
category_of-subtype_of literal_string = (refl, omega arith)
category_of-subtype_of literal_bytes = (refl, omega arith)
category_of-subtype_of fstring_start = (refl, omega arith)
category_of-subtype_of fstring_middle = (refl, omega arith)
category_of-subtype_of fstring_end = (refl, omega arith)
category_of-subtype_of literal_int = (refl, omega arith)
category_of-subtype_of literal_float = (refl, omega arith)
category_of-subtype_of literal_complex = (refl, omega arith)
category_of-subtype_of bool_true = (refl, omega arith)
category_of-subtype_of bool_false = (refl, omega arith)
category_of-subtype_of keyword_none = (refl, omega arith)
category_of-subtype_of ellipsis = (refl, omega arith)
category_of-subtype_of keyword_if = (refl, omega arith)
category_of-subtype_of keyword_else = (refl, omega arith)
category_of-subtype_of keyword_for = (refl, omega arith)
category_of-subtype_of keyword_elif = (refl, omega arith)
category_of-subtype_of keyword_while = (refl, omega arith)
category_of-subtype_of keyword_return = (refl, omega arith)
category_of-subtype_of keyword_def = (refl, omega arith)
category_of-subtype_of keyword_class = (refl, omega arith)
category_of-subtype_of keyword_as = (refl, omega arith)
category_of-subtype_of keyword_assert = (refl, omega arith)
category_of-subtype_of keyword_async = (refl, omega arith)
category_of-subtype_of keyword_await = (refl, omega arith)
category_of-subtype_of keyword_break = (refl, omega arith)
category_of-subtype_of keyword_continue = (refl, omega arith)
category_of-subtype_of keyword_del = (refl, omega arith)
category_of-subtype_of keyword_except = (refl, omega arith)
category_of-subtype_of keyword_finally = (refl, omega arith)
category_of-subtype_of keyword_from = (refl, omega arith)
category_of-subtype_of keyword_global = (refl, omega arith)
category_of-subtype_of keyword_import = (refl, omega arith)
category_of-subtype_of keyword_lambda = (refl, omega arith)
category_of-subtype_of keyword_nonlocal = (refl, omega arith)
category_of-subtype_of keyword_pass = (refl, omega arith)
category_of-subtype_of keyword_raise = (refl, omega arith)
category_of-subtype_of keyword_try = (refl, omega arith)
category_of-subtype_of keyword_with = (refl, omega arith)
category_of-subtype_of keyword_yield = (refl, omega arith)
category_of-subtype_of keyword_match = (refl, omega arith)
category_of-subtype_of keyword_case = (refl, omega arith)
category_of-subtype_of keyword_underscore = (refl, omega arith)
category_of-subtype_of op_and = (refl, omega arith)
category_of-subtype_of op_or = (refl, omega arith)
category_of-subtype_of op_not = (refl, omega arith)
category_of-subtype_of op_is = (refl, omega arith)
category_of-subtype_of op_in = (refl, omega arith)
category_of-subtype_of op_not_in = (refl, omega arith)
category_of-subtype_of op_is_not = (refl, omega arith)
category_of-subtype_of op_assign = (refl, omega arith)
category_of-subtype_of op_plus = (refl, omega arith)
category_of-subtype_of op_minus = (refl, omega arith)
category_of-subtype_of op_equal = (refl, omega arith)
category_of-subtype_of op_not_equal = (refl, omega arith)
category_of-subtype_of op_less = (refl, omega arith)
category_of-subtype_of op_greater = (refl, omega arith)
category_of-subtype_of op_less_equal = (refl, omega arith)
category_of-subtype_of op_greater_equal = (refl, omega arith)
category_of-subtype_of op_star = (refl, omega arith)
category_of-subtype_of op_slash = (refl, omega arith)
category_of-subtype_of op_double_slash = (refl, omega arith)
category_of-subtype_of op_percent = (refl, omega arith)
category_of-subtype_of op_double_star = (refl, omega arith)
category_of-subtype_of op_at = (refl, omega arith)
category_of-subtype_of op_ampersand = (refl, omega arith)
category_of-subtype_of op_pipe = (refl, omega arith)
category_of-subtype_of op_caret = (refl, omega arith)
category_of-subtype_of op_tilde = (refl, omega arith)
category_of-subtype_of op_left_shift = (refl, omega arith)
category_of-subtype_of op_right_shift = (refl, omega arith)
category_of-subtype_of op_plus_assign = (refl, omega arith)
category_of-subtype_of op_minus_assign = (refl, omega arith)
category_of-subtype_of op_star_assign = (refl, omega arith)
category_of-subtype_of op_slash_assign = (refl, omega arith)
category_of-subtype_of op_double_slash_assign = (refl, omega arith)
category_of-subtype_of op_percent_assign = (refl, omega arith)
category_of-subtype_of op_double_star_assign = (refl, omega arith)
category_of-subtype_of op_at_assign = (refl, omega arith)
category_of-subtype_of op_ampersand_assign = (refl, omega arith)
category_of-subtype_of op_pipe_assign = (refl, omega arith)
category_of-subtype_of op_caret_assign = (refl, omega arith)
category_of-subtype_of op_right_shift_assign = (refl, omega arith)
category_of-subtype_of op_left_shift_assign = (refl, omega arith)
category_of-subtype_of op_walrus = (refl, omega arith)
category_of-subtype_of op_arrow = (refl, omega arith)
category_of-subtype_of open_paren = (refl, omega arith)
category_of-subtype_of close_paren = (refl, omega arith)
category_of-subtype_of open_brace = (refl, omega arith)
category_of-subtype_of close_brace = (refl, omega arith)
category_of-subtype_of open_bracket = (refl, omega arith)
category_of-subtype_of close_bracket = (refl, omega arith)
category_of-subtype_of semicolon = (refl, omega arith)
category_of-subtype_of comma = (refl, omega arith)
category_of-subtype_of dot = (refl, omega arith)
category_of-subtype_of colon = (refl, omega arith)
category_of-subtype_of question = (refl, omega arith)
category_of-subtype_of comment_single = (refl, omega arith)
category_of-subtype_of comment_multi = (refl, omega arith)
category_of-subtype_of type_int = (refl, omega arith)
category_of-subtype_of type_float = (refl, omega arith)
category_of-subtype_of type_string = (refl, omega arith)
category_of-subtype_of type_bool = (refl, omega arith)
category_of-subtype_of type_list = (refl, omega arith)
category_of-subtype_of type_dict = (refl, omega arith)
category_of-subtype_of type_set = (refl, omega arith)
category_of-subtype_of type_tuple = (refl, omega arith)
category_of-subtype_of type_bytes = (refl, omega arith)
category_of-subtype_of type_complex = (refl, omega arith)
category_of-subtype_of type_frozenset = (refl, omega arith)
category_of-subtype_of type_bytearray = (refl, omega arith)
category_of-subtype_of type_object = (refl, omega arith)
