-- ===== src/Lexer/TokenType/Names.antt =====
-- src/domain/lexer/token_type_name.cpp: the name of each token type, for messages.
use cythonpp.Prelude.Text.{Text, text}
use cythonpp.Lexer.TokenType.{
  TokenType, token_eof, token_error, newline, space, tab, indent, dedent, identifier,
  literal_string, literal_bytes, fstring_start, fstring_middle, fstring_end, literal_int,
  literal_float, literal_complex, bool_true, bool_false, keyword_none, ellipsis, keyword_if,
  keyword_else, keyword_for, keyword_elif, keyword_while, keyword_return, keyword_def,
  keyword_class, keyword_as, keyword_assert, keyword_async, keyword_await, keyword_break,
  keyword_continue, keyword_del, keyword_except, keyword_finally, keyword_from, keyword_global,
  keyword_import, keyword_lambda, keyword_nonlocal, keyword_pass, keyword_raise, keyword_try,
  keyword_with, keyword_yield, keyword_match, keyword_case, keyword_underscore, op_and, op_or,
  op_not, op_is, op_in, op_not_in, op_is_not, op_assign, op_plus, op_minus, op_equal, op_not_equal,
  op_less, op_greater, op_less_equal, op_greater_equal, op_star, op_slash, op_double_slash,
  op_percent, op_double_star, op_at, op_ampersand, op_pipe, op_caret, op_tilde, op_left_shift,
  op_right_shift, op_plus_assign, op_minus_assign, op_star_assign, op_slash_assign,
  op_double_slash_assign, op_percent_assign, op_double_star_assign, op_at_assign,
  op_ampersand_assign, op_pipe_assign, op_caret_assign, op_right_shift_assign, op_left_shift_assign,
  op_walrus, op_arrow, open_paren, close_paren, open_brace, close_brace, open_bracket,
  close_bracket, semicolon, comma, dot, colon, question, comment_single, comment_multi, type_int,
  type_float, type_string, type_bool, type_list, type_dict, type_set, type_tuple, type_bytes,
  type_complex, type_frozenset, type_bytearray, type_object,
}

unfoldable pub token_type_name : TokenType → Text
token_type_name token_eof = text "TOKEN_EOF"
token_type_name token_error = text "TOKEN_ERROR"
token_type_name newline = text "NEWLINE"
token_type_name space = text "SPACE"
token_type_name tab = text "TAB"
token_type_name indent = text "INDENT"
token_type_name dedent = text "DEDENT"
token_type_name identifier = text "IDENTIFIER"
token_type_name literal_string = text "LITERAL_STRING"
token_type_name literal_bytes = text "LITERAL_BYTES"
token_type_name fstring_start = text "FSTRING_START"
token_type_name fstring_middle = text "FSTRING_MIDDLE"
token_type_name fstring_end = text "FSTRING_END"
token_type_name literal_int = text "LITERAL_INT"
token_type_name literal_float = text "LITERAL_FLOAT"
token_type_name literal_complex = text "LITERAL_COMPLEX"
token_type_name bool_true = text "BOOL_TRUE"
token_type_name bool_false = text "BOOL_FALSE"
token_type_name keyword_none = text "KEYWORD_NONE"
token_type_name ellipsis = text "ELLIPSIS"
token_type_name keyword_if = text "KEYWORD_IF"
token_type_name keyword_else = text "KEYWORD_ELSE"
token_type_name keyword_for = text "KEYWORD_FOR"
token_type_name keyword_elif = text "KEYWORD_ELIF"
token_type_name keyword_while = text "KEYWORD_WHILE"
token_type_name keyword_return = text "KEYWORD_RETURN"
token_type_name keyword_def = text "KEYWORD_DEF"
token_type_name keyword_class = text "KEYWORD_CLASS"
token_type_name keyword_as = text "KEYWORD_AS"
token_type_name keyword_assert = text "KEYWORD_ASSERT"
token_type_name keyword_async = text "KEYWORD_ASYNC"
token_type_name keyword_await = text "KEYWORD_AWAIT"
token_type_name keyword_break = text "KEYWORD_BREAK"
token_type_name keyword_continue = text "KEYWORD_CONTINUE"
token_type_name keyword_del = text "KEYWORD_DEL"
token_type_name keyword_except = text "KEYWORD_EXCEPT"
token_type_name keyword_finally = text "KEYWORD_FINALLY"
token_type_name keyword_from = text "KEYWORD_FROM"
token_type_name keyword_global = text "KEYWORD_GLOBAL"
token_type_name keyword_import = text "KEYWORD_IMPORT"
token_type_name keyword_lambda = text "KEYWORD_LAMBDA"
token_type_name keyword_nonlocal = text "KEYWORD_NONLOCAL"
token_type_name keyword_pass = text "KEYWORD_PASS"
token_type_name keyword_raise = text "KEYWORD_RAISE"
token_type_name keyword_try = text "KEYWORD_TRY"
token_type_name keyword_with = text "KEYWORD_WITH"
token_type_name keyword_yield = text "KEYWORD_YIELD"
token_type_name keyword_match = text "KEYWORD_MATCH"
token_type_name keyword_case = text "KEYWORD_CASE"
token_type_name keyword_underscore = text "KEYWORD_UNDERSCORE"
token_type_name op_and = text "OP_AND"
token_type_name op_or = text "OP_OR"
token_type_name op_not = text "OP_NOT"
token_type_name op_is = text "OP_IS"
token_type_name op_in = text "OP_IN"
token_type_name op_not_in = text "OP_NOT_IN"
token_type_name op_is_not = text "OP_IS_NOT"
token_type_name op_assign = text "OP_ASSIGN"
token_type_name op_plus = text "OP_PLUS"
token_type_name op_minus = text "OP_MINUS"
token_type_name op_equal = text "OP_EQUAL"
token_type_name op_not_equal = text "OP_NOT_EQUAL"
token_type_name op_less = text "OP_LESS"
token_type_name op_greater = text "OP_GREATER"
token_type_name op_less_equal = text "OP_LESS_EQUAL"
token_type_name op_greater_equal = text "OP_GREATER_EQUAL"
token_type_name op_star = text "OP_STAR"
token_type_name op_slash = text "OP_SLASH"
token_type_name op_double_slash = text "OP_DOUBLE_SLASH"
token_type_name op_percent = text "OP_PERCENT"
token_type_name op_double_star = text "OP_DOUBLE_STAR"
token_type_name op_at = text "OP_AT"
token_type_name op_ampersand = text "OP_AMPERSAND"
token_type_name op_pipe = text "OP_PIPE"
token_type_name op_caret = text "OP_CARET"
token_type_name op_tilde = text "OP_TILDE"
token_type_name op_left_shift = text "OP_LEFT_SHIFT"
token_type_name op_right_shift = text "OP_RIGHT_SHIFT"
token_type_name op_plus_assign = text "OP_PLUS_ASSIGN"
token_type_name op_minus_assign = text "OP_MINUS_ASSIGN"
token_type_name op_star_assign = text "OP_STAR_ASSIGN"
token_type_name op_slash_assign = text "OP_SLASH_ASSIGN"
token_type_name op_double_slash_assign = text "OP_DOUBLE_SLASH_ASSIGN"
token_type_name op_percent_assign = text "OP_PERCENT_ASSIGN"
token_type_name op_double_star_assign = text "OP_DOUBLE_STAR_ASSIGN"
token_type_name op_at_assign = text "OP_AT_ASSIGN"
token_type_name op_ampersand_assign = text "OP_AMPERSAND_ASSIGN"
token_type_name op_pipe_assign = text "OP_PIPE_ASSIGN"
token_type_name op_caret_assign = text "OP_CARET_ASSIGN"
token_type_name op_right_shift_assign = text "OP_RIGHT_SHIFT_ASSIGN"
token_type_name op_left_shift_assign = text "OP_LEFT_SHIFT_ASSIGN"
token_type_name op_walrus = text "OP_WALRUS"
token_type_name op_arrow = text "OP_ARROW"
token_type_name open_paren = text "OPEN_PAREN"
token_type_name close_paren = text "CLOSE_PAREN"
token_type_name open_brace = text "OPEN_BRACE"
token_type_name close_brace = text "CLOSE_BRACE"
token_type_name open_bracket = text "OPEN_BRACKET"
token_type_name close_bracket = text "CLOSE_BRACKET"
token_type_name semicolon = text "SEMICOLON"
token_type_name comma = text "COMMA"
token_type_name dot = text "DOT"
token_type_name colon = text "COLON"
token_type_name question = text "QUESTION"
token_type_name comment_single = text "COMMENT_SINGLE"
token_type_name comment_multi = text "COMMENT_MULTI"
token_type_name type_int = text "TYPE_INT"
token_type_name type_float = text "TYPE_FLOAT"
token_type_name type_string = text "TYPE_STRING"
token_type_name type_bool = text "TYPE_BOOL"
token_type_name type_list = text "TYPE_LIST"
token_type_name type_dict = text "TYPE_DICT"
token_type_name type_set = text "TYPE_SET"
token_type_name type_tuple = text "TYPE_TUPLE"
token_type_name type_bytes = text "TYPE_BYTES"
token_type_name type_complex = text "TYPE_COMPLEX"
token_type_name type_frozenset = text "TYPE_FROZENSET"
token_type_name type_bytearray = text "TYPE_BYTEARRAY"
token_type_name type_object = text "TYPE_OBJECT"
