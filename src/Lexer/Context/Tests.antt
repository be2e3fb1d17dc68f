-- ===== src/Lexer/Context/Tests.antt =====
-- The scan context on concrete runs of token types.
use cythonpp.Prelude.{◌≡◌, refl, List, [], ◌∷◌, ◌++◌, true, some}
use cythonpp.Lexer.TokenType.{
  TokenType, identifier, open_paren, close_paren, open_bracket, close_bracket, colon, comma,
}
use cythonpp.Lexer.Context.{
  fresh, opens, closes, observe, observe_all, bracket_depth, in_annotation, arm_of, take_arm,
  start_line, observe_colon, colon_after_lambda, plain_colon, is_block_keyword,
}
use cythonpp.Lexer.Context.Brackets.{depth_after, bracket_depth-observe_all, observe_all-brackets}

abbrev inner_types : List TokenType
inner_types = identifier ∷ colon ∷ open_bracket ∷ comma ∷ close_bracket ∷ []

opens_one : depth_after 0 (open_paren ∷ inner_types) ≡ some 1
unfolding depth_after arm_of
opens_one = refl

inner_matches : depth_after 0 inner_types ≡ some 0
unfolding depth_after arm_of
inner_matches = refl

paren_opens : arm_of open_paren ≡ opens
unfolding arm_of
paren_opens = refl

paren_closes : arm_of close_paren ≡ closes
unfolding arm_of
paren_closes = refl

bracket_depth-observe_all_example : bracket_depth (observe_all (open_paren ∷ inner_types) fresh) ≡ 1
bracket_depth-observe_all_example = bracket_depth-observe_all (open_paren ∷ inner_types) 1 opens_one

observe_all-brackets_example :
    let after = observe_all (open_paren ∷ inner_types ++ close_paren ∷ []) fresh in
    (after.brackets ≡ fresh.brackets) × (after.annotation ≡ fresh.annotation)
observe_all-brackets_example =
    observe_all-brackets open_paren close_paren inner_types fresh paren_opens paren_closes
      inner_matches

-- `x:` at the start of a line begins an annotation.
colon_starts_annotation : in_annotation (observe_all (identifier ∷ colon ∷ []) fresh) ≡ true
unfolding in_annotation observe_all observe take_arm start_line observe_colon colon_after_lambda
    plain_colon arm_of is_block_keyword
colon_starts_annotation = refl
