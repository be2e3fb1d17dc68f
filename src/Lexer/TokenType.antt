-- ===== src/Lexer/TokenType.antt =====
-- src/domain/lexer/token_category.h and token_type.h: the token types and the number of each, which
-- packs the categories it belongs to above a subtype of sixteen bits.
pub mod Codes
pub mod Names
pub mod Named
pub mod Tests
use Prim.Native.Nat.{bit_and, bit_or}
use cythonpp.Prelude.{ℕ, ◌+◌, ◌*◌, ◌/◌, ◌%◌, ◌^◌, Bool, not, ◌==◌}

pub data Category : Type 0 where
  number string keyword operator delimiter punctuation identifier special object : Category

-- The bit of each category.
abbrev pub category_bit : Category → ℕ
category_bit number = 1
category_bit string = 2
category_bit keyword = 4
category_bit operator = 8
category_bit delimiter = 16
category_bit punctuation = 32
category_bit identifier = 64
category_bit special = 128
category_bit object = 256

-- Shifts by sixteen places, and the sum of two numbers with no common bit.
abbrev pub make_token : ℕ → ℕ → ℕ
make_token category_flags subtype = bit_or (category_flags * 2 ^ 16) subtype

abbrev special_flags : ℕ
special_flags = category_bit special

abbrev name_flags : ℕ
name_flags = bit_or (category_bit identifier) (category_bit object)

abbrev string_flags : ℕ
string_flags = bit_or (category_bit string) (category_bit object)

abbrev number_flags : ℕ
number_flags = bit_or (category_bit number) (category_bit object)

abbrev bool_flags : ℕ
bool_flags = bit_or (category_bit keyword) (bit_or (category_bit number) (category_bit object))

abbrev none_flags : ℕ
none_flags = bit_or (category_bit keyword) (category_bit object)

abbrev value_flags : ℕ
value_flags = category_bit object

abbrev keyword_flags : ℕ
keyword_flags = category_bit keyword

abbrev keyword_op_flags : ℕ
keyword_op_flags = bit_or (category_bit keyword) (category_bit operator)

abbrev operator_flags : ℕ
operator_flags = category_bit operator

abbrev delimiter_flags : ℕ
delimiter_flags = category_bit delimiter

abbrev punctuation_flags : ℕ
punctuation_flags = category_bit punctuation

abbrev type_name_flags : ℕ
type_name_flags =
    bit_or (category_bit keyword) (bit_or (category_bit identifier) (category_bit object))

pub data TokenType : Type 0 where
  token_eof token_error newline space tab indent dedent : TokenType
  identifier : TokenType
  literal_string literal_bytes fstring_start fstring_middle fstring_end : TokenType
  literal_int literal_float literal_complex : TokenType
  bool_true bool_false : TokenType
  keyword_none : TokenType
  ellipsis : TokenType
  keyword_if keyword_else keyword_for keyword_elif keyword_while keyword_return keyword_def :
      TokenType
  keyword_class keyword_as keyword_assert keyword_async keyword_await keyword_break : TokenType
  keyword_continue keyword_del keyword_except keyword_finally keyword_from keyword_global :
      TokenType
  keyword_import keyword_lambda keyword_nonlocal keyword_pass keyword_raise keyword_try : TokenType
  keyword_with keyword_yield keyword_match keyword_case keyword_underscore : TokenType
  op_and op_or op_not op_is op_in op_not_in op_is_not : TokenType
  op_assign op_plus op_minus op_equal op_not_equal op_less op_greater op_less_equal : TokenType
  op_greater_equal op_star op_slash op_double_slash op_percent op_double_star op_at : TokenType
  op_ampersand op_pipe op_caret op_tilde op_left_shift op_right_shift op_plus_assign : TokenType
  op_minus_assign op_star_assign op_slash_assign op_double_slash_assign op_percent_assign :
      TokenType
  op_double_star_assign op_at_assign op_ampersand_assign op_pipe_assign op_caret_assign : TokenType
  op_right_shift_assign op_left_shift_assign op_walrus op_arrow : TokenType
  open_paren close_paren open_brace close_brace open_bracket close_bracket : TokenType
  semicolon comma dot colon question comment_single comment_multi : TokenType
  type_int type_float type_string type_bool type_list type_dict type_set type_tuple : TokenType
  type_bytes type_complex type_frozenset type_bytearray type_object : TokenType

-- The enumerator's number.
unfoldable pub token_value : TokenType → ℕ
token_value token_eof = make_token special_flags 0
token_value token_error = make_token special_flags 1
token_value newline = make_token special_flags 2
token_value space = make_token special_flags 3
token_value tab = make_token special_flags 4
token_value indent = make_token special_flags 5
token_value dedent = make_token special_flags 6
token_value identifier = make_token name_flags 0
token_value literal_string = make_token string_flags 0
token_value literal_bytes = make_token string_flags 1
token_value fstring_start = make_token string_flags 2
token_value fstring_middle = make_token string_flags 3
token_value fstring_end = make_token string_flags 4
token_value literal_int = make_token number_flags 0
token_value literal_float = make_token number_flags 1
token_value literal_complex = make_token number_flags 2
token_value bool_true = make_token bool_flags 0
token_value bool_false = make_token bool_flags 1
token_value keyword_none = make_token none_flags 0
token_value ellipsis = make_token value_flags 0
token_value keyword_if = make_token keyword_flags 0
token_value keyword_else = make_token keyword_flags 1
token_value keyword_for = make_token keyword_flags 2
token_value keyword_elif = make_token keyword_flags 3
token_value keyword_while = make_token keyword_flags 4
token_value keyword_return = make_token keyword_flags 5
token_value keyword_def = make_token keyword_flags 6
token_value keyword_class = make_token keyword_flags 7
token_value keyword_as = make_token keyword_flags 8
token_value keyword_assert = make_token keyword_flags 9
token_value keyword_async = make_token keyword_flags 10
token_value keyword_await = make_token keyword_flags 11
token_value keyword_break = make_token keyword_flags 12
token_value keyword_continue = make_token keyword_flags 13
token_value keyword_del = make_token keyword_flags 14
token_value keyword_except = make_token keyword_flags 15
token_value keyword_finally = make_token keyword_flags 16
token_value keyword_from = make_token keyword_flags 17
token_value keyword_global = make_token keyword_flags 18
token_value keyword_import = make_token keyword_flags 19
token_value keyword_lambda = make_token keyword_flags 20
token_value keyword_nonlocal = make_token keyword_flags 21
token_value keyword_pass = make_token keyword_flags 22
token_value keyword_raise = make_token keyword_flags 23
token_value keyword_try = make_token keyword_flags 24
token_value keyword_with = make_token keyword_flags 25
token_value keyword_yield = make_token keyword_flags 26
token_value keyword_match = make_token keyword_flags 27
token_value keyword_case = make_token keyword_flags 28
token_value keyword_underscore = make_token keyword_flags 29
token_value op_and = make_token keyword_op_flags 0
token_value op_or = make_token keyword_op_flags 1
token_value op_not = make_token keyword_op_flags 2
token_value op_is = make_token keyword_op_flags 3
token_value op_in = make_token keyword_op_flags 4
token_value op_not_in = make_token keyword_op_flags 5
token_value op_is_not = make_token keyword_op_flags 6
token_value op_assign = make_token operator_flags 0
token_value op_plus = make_token operator_flags 1
token_value op_minus = make_token operator_flags 2
token_value op_equal = make_token operator_flags 3
token_value op_not_equal = make_token operator_flags 4
token_value op_less = make_token operator_flags 5
token_value op_greater = make_token operator_flags 6
token_value op_less_equal = make_token operator_flags 7
token_value op_greater_equal = make_token operator_flags 8
token_value op_star = make_token operator_flags 9
token_value op_slash = make_token operator_flags 10
token_value op_double_slash = make_token operator_flags 11
token_value op_percent = make_token operator_flags 12
token_value op_double_star = make_token operator_flags 13
token_value op_at = make_token operator_flags 14
token_value op_ampersand = make_token operator_flags 15
token_value op_pipe = make_token operator_flags 16
token_value op_caret = make_token operator_flags 17
token_value op_tilde = make_token operator_flags 18
token_value op_left_shift = make_token operator_flags 19
token_value op_right_shift = make_token operator_flags 20
token_value op_plus_assign = make_token operator_flags 21
token_value op_minus_assign = make_token operator_flags 22
token_value op_star_assign = make_token operator_flags 23
token_value op_slash_assign = make_token operator_flags 24
token_value op_double_slash_assign = make_token operator_flags 25
token_value op_percent_assign = make_token operator_flags 26
token_value op_double_star_assign = make_token operator_flags 27
token_value op_at_assign = make_token operator_flags 28
token_value op_ampersand_assign = make_token operator_flags 29
token_value op_pipe_assign = make_token operator_flags 30
token_value op_caret_assign = make_token operator_flags 31
token_value op_right_shift_assign = make_token operator_flags 32
token_value op_left_shift_assign = make_token operator_flags 33
token_value op_walrus = make_token operator_flags 34
token_value op_arrow = make_token operator_flags 35
token_value open_paren = make_token delimiter_flags 0
token_value close_paren = make_token delimiter_flags 1
token_value open_brace = make_token delimiter_flags 2
token_value close_brace = make_token delimiter_flags 3
token_value open_bracket = make_token delimiter_flags 4
token_value close_bracket = make_token delimiter_flags 5
token_value semicolon = make_token punctuation_flags 0
token_value comma = make_token punctuation_flags 1
token_value dot = make_token punctuation_flags 2
token_value colon = make_token punctuation_flags 3
token_value question = make_token punctuation_flags 4
token_value comment_single = make_token punctuation_flags 5
token_value comment_multi = make_token punctuation_flags 6
token_value type_int = make_token type_name_flags 0
token_value type_float = make_token type_name_flags 1
token_value type_string = make_token type_name_flags 2
token_value type_bool = make_token type_name_flags 3
token_value type_list = make_token type_name_flags 4
token_value type_dict = make_token type_name_flags 5
token_value type_set = make_token type_name_flags 6
token_value type_tuple = make_token type_name_flags 7
token_value type_bytes = make_token type_name_flags 8
token_value type_complex = make_token type_name_flags 9
token_value type_frozenset = make_token type_name_flags 10
token_value type_bytearray = make_token type_name_flags 11
token_value type_object = make_token type_name_flags 12

unfoldable pub same_type : TokenType → TokenType → Bool
same_type t u = token_value t == token_value u

unfoldable pub category_of : TokenType → ℕ
unfolding token_value
category_of type = bit_and (token_value type / 2 ^ 16) 0xFFFF

pub subtype_of : TokenType → ℕ
unfolding token_value
subtype_of type = bit_and (token_value type) 0xFFFF

unfoldable pub has_category : TokenType → Category → Bool
unfolding category_of
has_category type category = not (bit_and (category_of type) (category_bit category) == 0)
