-- ===== src/Lexer/Operators/Tests.antt =====
-- The operator table at concrete texts.
use cythonpp.Prelude.{ℕ, ◌≡◌, refl, ◌≤◌, ◌<◌, ◌⊎◌, none}
use cythonpp.Prelude.Text.{text, text_eq, text_less}
use cythonpp.Lexer.Keywords.{find_word, lower_bound}
use cythonpp.Lexer.TokenType.{op_double_star_assign, op_greater}
use cythonpp.Lexer.Operators.{
  longest_operator_at, longest_from, find_operator, take, operator_lexeme_of,
}
use cythonpp.Lexer.Operators.Longest.{longest_operator_at-longest}

longest_operator_at-longest_example :
    ((longest_operator_at (text "**=x")).length ≤ 4)
    × ((k : ℕ)
        → (longest_operator_at (text "**=x")).length < k
        → k ≤ 4
        → find_operator (take k (text "**=x")) ≡ none)
    × (((longest_operator_at (text "**=x")).length ≡ 0)
        ⊎ (operator_lexeme_of (longest_operator_at (text "**=x")).type
            ≡ take (longest_operator_at (text "**=x")).length (text "**=x")))
longest_operator_at-longest_example = longest_operator_at-longest (text "**=x")

power_assign :
    longest_operator_at (text "**=x") ≡ record { type = op_double_star_assign; length = 3 }
unfolding longest_operator_at longest_from find_operator find_word lower_bound text_eq text_less
power_assign = refl

one_greater : longest_operator_at (text ">a") ≡ record { type = op_greater; length = 1 }
unfolding longest_operator_at longest_from find_operator find_word lower_bound text_eq text_less
one_greater = refl
