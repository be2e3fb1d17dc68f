-- ===== src/Lexer/Keywords/Tests.antt =====
-- The keyword tables at concrete words.
use cythonpp.Prelude.{◌≡◌, refl, ◌⊎◌, true, false, some}
use cythonpp.Prelude.Text.{text, text_eq, text_less}
use cythonpp.Lexer.TokenType.{identifier, type_list, keyword_match}
use cythonpp.Lexer.Keywords.{
  classify_word, keyword_lexeme_of, reserved_keyword_of, builtin_type_of, find_word, lower_bound,
  soft_keyword_of,
}
use cythonpp.Lexer.Keywords.Laws.{keyword_lexeme_of-classify_word}

keyword_lexeme_of-classify_word_example :
    (classify_word (text "list") true ≡ identifier)
    ⊎ (keyword_lexeme_of (classify_word (text "list") true) ≡ text "list")
keyword_lexeme_of-classify_word_example = keyword_lexeme_of-classify_word (text "list") true

list_in_annotation : classify_word (text "list") true ≡ type_list
unfolding classify_word reserved_keyword_of builtin_type_of find_word lower_bound text_eq text_less
list_in_annotation = refl

list_outside : classify_word (text "list") false ≡ identifier
unfolding classify_word reserved_keyword_of builtin_type_of find_word lower_bound text_eq text_less
list_outside = refl

soft_match : soft_keyword_of (text "match") ≡ some keyword_match
unfolding soft_keyword_of find_word lower_bound text_eq text_less
soft_match = refl
