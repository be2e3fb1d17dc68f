-- ===== src/Lexer/Operators/Rows.antt =====
-- The rows of the operator table.
use cythonpp.Prelude.{
  ℕ, zero, suc, ◌≤◌, ◌≡◌, refl, sym, ap, ◌∙◌, true, some, [], ◌∷◌, arith, All, length, leb,
}
use cythonpp.Prelude.Text.{Text}
use cythonpp.Lexer.TokenType.{TokenType, same_type, token_value}
use cythonpp.Lexer.Keywords.{KeywordEntry, find_lexeme}
use cythonpp.Lexer.Keywords.Laws.{find_word-some, lower_bound-All}
use cythonpp.Lexer.Operators.{
  operator_table, find_operator, take, max_operator_length, operator_lexeme_of,
}

-- What the static assertions and the reading back say of a row: its length, and its spelling from
-- its type.
abbrev IsRow : KeywordEntry → Type 0
IsRow e =
    (leb (length e.spelling) max_operator_length ≡ true) × (operator_lexeme_of e.type ≡ e.spelling)

table-IsRow : All IsRow operator_table
unfolding operator_lexeme_of find_lexeme same_type token_value
table-IsRow = (
  (refl, refl),
  (
    (refl, refl),
    (
      (refl, refl),
      (
        (refl, refl),
        (
          (refl, refl),
          (
            (refl, refl),
            (
              (refl, refl),
              (
                (refl, refl),
                (
                  (refl, refl),
                  (
                    (refl, refl),
                    (
                      (refl, refl),
                      (
                        (refl, refl),
                        (
                          (refl, refl),
                          (
                            (refl, refl),
                            (
                              (refl, refl),
                              (
                                (refl, refl),
                                (
                                  (refl, refl),
                                  (
                                    (refl, refl),
                                    (
                                      (refl, refl),
                                      (
                                        (refl, refl),
                                        (
                                          (refl, refl),
                                          (
                                            (refl, refl),
                                            (
                                              (refl, refl),
                                              (
                                                (refl, refl),
                                                (
                                                  (refl, refl),
                                                  (
                                                    (refl, refl),
                                                    (
                                                      (refl, refl),
                                                      (
                                                        (refl, refl),
                                                        (
                                                          (refl, refl),
                                                          (
                                                            (refl, refl),
                                                            (
                                                            (refl, refl),
                                                            (
                                                            (refl, refl),
                                                            (
                                                            (refl, refl),
                                                            (
                                                            (refl, refl),
                                                            (
                                                            (refl, refl),
                                                            (
                                                            (refl, refl),
                                                            (
                                                            (refl, refl),
                                                            (
                                                            (refl, refl),
                                                            (
                                                            (refl, refl),
                                                            (
                                                            (refl, refl),
                                                            (
                                                            (refl, refl),
                                                            (
                                                            (refl, refl),
                                                            (
                                                            (refl, refl),
                                                            (
                                                            (refl, refl),
                                                            (
                                                            (refl, refl),
                                                            ((refl, refl), ((refl, refl), tt)),
                                                            ),
                                                            ),
                                                            ),
                                                            ),
                                                            ),
                                                            ),
                                                            ),
                                                            ),
                                                            ),
                                                            ),
                                                            ),
                                                            ),
                                                            ),
                                                            ),
                                                            ),
                                                          ),
                                                        ),
                                                      ),
                                                    ),
                                                  ),
                                                ),
                                              ),
                                            ),
                                          ),
                                        ),
                                      ),
                                    ),
                                  ),
                                ),
                              ),
                            ),
                          ),
                        ),
                      ),
                    ),
                  ),
                ),
              ),
            ),
          ),
        ),
      ),
    ),
  ),
)

pub found-IsRow :
    (word : Text) (type : TokenType)
    → find_operator word ≡ some type
    → (length word ≤ max_operator_length) × (operator_lexeme_of type ≡ word)
unfolding find_operator
found-IsRow word type h =
    let parts = find_word-some operator_table word type h in
    let row = lower_bound-All IsRow operator_table word parts.0 table-IsRow parts.1 in
    let e : parts.0.spelling ≡ word = parts.2 in
    (rw (sym e) (ground (arith, row.0)), ap operator_lexeme_of (sym parts.3) ∙ row.1 ∙ e)

pub length-take : (n : ℕ) (word : Text) → n ≤ length word → length (take n word) ≡ n
length-take zero word h = refl
length-take (suc n) [] h = absurd (omega arith)
length-take (suc n) (c ∷ cs) h = ap suc (length-take n cs (omega arith))
