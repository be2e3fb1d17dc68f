-- ===== src/Lexer/Keywords/Laws.antt =====
-- Words and their token types, both ways.
use cythonpp.Prelude.{
  ◌≡◌, refl, sym, ap, ◌∙◌, ◌⊎◌, inl, inr, Bool, none, some, List, [], ◌∷◌, All, Bool-cases,
  Option-cases,
}
use cythonpp.Prelude.Text.{Text, text_eq, text_less, text_eq_iff}
use cythonpp.Lexer.TokenType.{TokenType, identifier, same_type, token_value}
use cythonpp.Lexer.Keywords.{
  KeywordEntry, reserved_keywords, type_names, lower_bound, find_word, find_lexeme,
  reserved_keyword_of, builtin_type_of, classify_word, keyword_lexeme_of,
}

some_inj : {a b : TokenType} → some a ≡ some b → a ≡ b
some_inj h = cc

-- The lexeme of each entry's type is the entry's word.
abbrev IsSpelled : KeywordEntry → Type 0
IsSpelled e = keyword_lexeme_of e.type ≡ e.spelling

module _ (P : KeywordEntry → Type 0) where
  pub lower_bound-All :
      (es : List KeywordEntry) (w : Text) (e : KeywordEntry)
      → All P es
      → lower_bound es w ≡ some e
      → P e
  unfolding lower_bound
  lower_bound-All [] w e h f = cc
  lower_bound-All (x ∷ es) w e h f = elim (Bool-cases (text_less x.spelling w)) [
    | inl less ↦ lower_bound-All es w e h.1 (rw less at f)
    | inr found ↦ let is : some x ≡ some e = (rw found at f) in rw (sym (entry_inj is)) h.0
  ]
    where
      entry_inj : {a b : KeywordEntry} → some a ≡ some b → a ≡ b
      entry_inj h = cc

pub find_word-some :
    (es : List KeywordEntry) (w : Text) (t : TokenType)
    → find_word es w ≡ some t
    → (e : KeywordEntry) × (lower_bound es w ≡ some e) × (e.spelling ≡ w) × (e.type ≡ t)
unfolding find_word
find_word-some es w t h = elim (Option-cases (lower_bound es w)) [
  | inl missing ↦ let clash : none ≡ some t = (rw (find_word, missing) at h) in cc
  | inr (e, found) ↦ elim (Bool-cases (text_eq e.spelling w)) [
    | inl same ↦
        (e, found, (text_eq_iff e.spelling w).0 same, some_inj (rw (find_word, found, same) at h))
    | inr other ↦ let clash : none ≡ some t = (rw (find_word, found, other) at h) in cc
  ]
]

found_spelled :
    (es : List KeywordEntry) (w : Text) (t : TokenType)
    → All IsSpelled es
    → find_word es w ≡ some t
    → keyword_lexeme_of t ≡ w
found_spelled es w t h f =
    let parts = find_word-some es w t f in
    ap keyword_lexeme_of (sym parts.3) ∙ lower_bound-All IsSpelled es w parts.0 h parts.1 ∙ parts.2

reserved-IsSpelled : All IsSpelled reserved_keywords
unfolding keyword_lexeme_of find_lexeme same_type token_value
reserved-IsSpelled = (
  refl,
  (
    refl,
    (
      refl,
      (
        refl,
        (
          refl,
          (
            refl,
            (
              refl,
              (
                refl,
                (
                  refl,
                  (
                    refl,
                    (
                      refl,
                      (
                        refl,
                        (
                          refl,
                          (
                            refl,
                            (
                              refl,
                              (
                                refl,
                                (
                                  refl,
                                  (
                                    refl,
                                    (
                                      refl,
                                      (
                                        refl,
                                        (
                                          refl,
                                          (
                                            refl,
                                            (
                                              refl,
                                              (
                                                refl,
                                                (
                                                  refl,
                                                  (
                                                    refl,
                                                    (
                                                      refl,
                                                      (
                                                        refl,
                                                        (
                                                          refl,
                                                          (
                                                            refl,
                                                            (
                                                            refl,
                                                            (refl, (refl, (refl, (refl, tt)))),
                                                            ),
                                                          ),
                                                        ),
                                                      ),
                                                    ),
                                                  ),
                                                ),
                                              ),
                                            ),
                                          ),
                                        ),
                                      ),
                                    ),
                                  ),
                                ),
                              ),
                            ),
                          ),
                        ),
                      ),
                    ),
                  ),
                ),
              ),
            ),
          ),
        ),
      ),
    ),
  ),
)

type_names-IsSpelled : All IsSpelled type_names
unfolding keyword_lexeme_of find_lexeme same_type token_value
type_names-IsSpelled = (
  refl,
  (
    refl,
    (refl, (refl, (refl, (refl, (refl, (refl, (refl, (refl, (refl, (refl, (refl, tt))))))))))),
  ),
)

-- The scanner's classification of a word keeps its spelling: the word is an identifier, or the token
-- type it gets has exactly that word as its lexeme, inside an annotation and outside.
pub keyword_lexeme_of-classify_word :
    (word : Text) (in_annotation : Bool)
    → (classify_word word in_annotation ≡ identifier)
      ⊎ (keyword_lexeme_of (classify_word word in_annotation) ≡ word)
unfolding classify_word reserved_keyword_of builtin_type_of
keyword_lexeme_of-classify_word word a = elim (Option-cases (find_word reserved_keywords word)) [
  | inr (t, reserved) ↦
      rw (classify_word, reserved)
        (inr (found_spelled reserved_keywords word t reserved-IsSpelled reserved))
  | inl plain ↦ elim (Bool-cases a) [
    | inr outside ↦ rw (classify_word, plain, outside) (inl refl)
    | inl inside ↦ elim (Option-cases (find_word type_names word)) [
      | inr (t, builtin) ↦
          rw (classify_word, plain, inside, builtin)
            (inr (found_spelled type_names word t type_names-IsSpelled builtin))
      | inl other ↦ rw (classify_word, plain, inside, other) (inl refl)
    ]
  ]
]
