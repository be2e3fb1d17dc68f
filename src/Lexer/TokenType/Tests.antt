-- ===== src/Lexer/TokenType/Tests.antt =====
-- Token types at concrete values.
use cythonpp.Prelude.{◌≡◌, refl, true, false}
use cythonpp.Lexer.TokenType.{
  op_and, keyword_if, token_value, has_category, category_of, operator, keyword,
}

-- `and` is a keyword and an operator.
and_is_operator : has_category op_and operator ≡ true
unfolding has_category category_of token_value
and_is_operator = refl

and_is_keyword : has_category op_and keyword ≡ true
unfolding has_category category_of token_value
and_is_keyword = refl

if_is_no_operator : has_category keyword_if operator ≡ false
unfolding has_category category_of token_value
if_is_no_operator = refl
