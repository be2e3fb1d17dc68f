-- ===== src/Lexer/Scanner/Slices.antt =====
-- What the tokens are in the source: where each one stands, and that nothing but whitespace is left
-- out.
use cythonpp.Prelude.{
  ℕ, suc, ◌≡◌, refl, sym, ap, ◌∙◌, Bool, true, false, ◌||◌, List, [], ◌∷◌, ◌++◌, ◌==◌, All,
  if◌then◌else◌, some, Bool-cases, ◌⊎◌, inl, inr, arith,
}
use cythonpp.Prelude.Text.{Text, text, text_eq, text_eq_iff}
use cythonpp.Lexer.TokenType.{TokenType}
use cythonpp.Lexer.Token.{Token}
use cythonpp.Lexer.Scanner.Cursor.{Cursor, start_of}
use cythonpp.Lexer.Scanner.State.{token_at}
use cythonpp.Lexer.Scanner.Tokenize.{tokenize}
use cythonpp.Lexer.Scanner.Reads.{Reads, line_after, append_assoc, none-Reads, trans-Reads}
use cythonpp.Lexer.Scanner.Positions.{
  newlines, characters, last_line, line_after-newlines, column_after-last_line,
}
use cythonpp.Lexer.Scanner.Weave.{Woven, begin, gap, token, is_gap}
use cythonpp.Lexer.Scanner.Whole.{tokenize-Woven}

-- The line and the column of what stands after a text.
abbrev pub line_of : Text → ℕ
line_of before = suc (newlines before)

abbrev pub column_of : Text → ℕ
column_of before = suc (characters (last_line before))

-- A token's lexeme stands in the source, and its places are counted from there.
abbrev pub IsSlice : Text → Token → Type 0
IsSlice source t =
    (before : Text) × (after : Text) × (source ≡ before ++ (t.lexeme ++ after))
    × (t.line_number ≡ line_of before)
    × (t.column_number ≡ column_of before)
    × (t.end_line ≡ line_of (before ++ t.lexeme))
    × (t.end_column ≡ column_of (before ++ t.lexeme))

-- The source up to a cursor.
abbrev ReadTo : Text → Cursor → Type 0
ReadTo source k = (before : Text) × Reads (start_of source) before k

Woven-ReadTo : (source : Text) {ts : List Token} {k : Cursor} → Woven source ts k → ReadTo source k
Woven-ReadTo source begin = ([], none-Reads (start_of source))
Woven-ReadTo source (gap {k = k} {k' = k'} w g r h) =
    let p = Woven-ReadTo source h in (p.0 ++ w, trans-Reads (start_of source) k k' p.0 w p.1 r)
Woven-ReadTo source (token {k = k} {k' = k'} type w r h) =
    let p = Woven-ReadTo source h in (p.0 ++ w, trans-Reads (start_of source) k k' p.0 w p.1 r)

line_after-line_of : (w : Text) → line_after w 1 ≡ line_of w
line_after-line_of w = line_after-newlines w 1 ∙ omega arith

token-IsSlice :
    (source w : Text) (type : TokenType) (k k' : Cursor)
    → ReadTo source k
    → Reads k w k'
    → IsSlice source (token_at type w k k')
token-IsSlice source w type k k' p r =
    let q = trans-Reads (start_of source) k k' p.0 w p.1 r in
    (
      p.0,
      k'.ahead,
      p.1.0 ∙ ap (λ t. p.0 ++ t) r.0,
      p.1.1 ∙ line_after-line_of p.0,
      p.1.2 ∙ column_after-last_line p.0,
      q.1 ∙ line_after-line_of (p.0 ++ w),
      q.2 ∙ column_after-last_line (p.0 ++ w),
    )

All-snoc :
    (P : Token → Type 0) (ts : List Token) (t : Token) → All P ts → P t → All P (ts ++ (t ∷ []))
All-snoc P [] t h p = (p, tt)
All-snoc P (u ∷ ts) t h p = (h.0, All-snoc P ts t h.1 p)

Woven-IsSlice :
    (source : Text) {ts : List Token} {k : Cursor} → Woven source ts k → All (IsSlice source) ts
Woven-IsSlice source begin = tt
Woven-IsSlice source (gap w g r h) = Woven-IsSlice source h
Woven-IsSlice source (token {ts = ts} {k = k} {k' = k'} type w r h) =
    All-snoc (IsSlice source) ts (token_at type w k k') (Woven-IsSlice source h)
      (token-IsSlice source w type k k' (Woven-ReadTo source h) r)

some_inj : {a b : List Token} → some a ≡ some b → a ≡ b
some_inj e = cc

-- Every token that the scanner returns has as its lexeme a piece of the source, its line is one more
-- than the newlines before that piece, its column one more than the characters, of one byte or more,
-- that stand before it on its line, and its end line and column are those of what follows the piece.
pub tokenize-IsSlice :
    (source : Text) (ts : List Token) → tokenize source ≡ some ts → All (IsSlice source) ts
tokenize-IsSlice source ts h =
    let found = tokenize-Woven source in
    let same : found.0 ≡ ts = some_inj (sym found.2 ∙ h) in
    rw (sym same) (Woven-IsSlice source found.3)

-- Bytes of whitespace and backslashes.
abbrev pub is_blank_or_backslash : ℕ → Bool
is_blank_or_backslash c =
    c == b' ' || c == b'\t' || c == b'\r' || c == 12 || c == b'\n' || c == b'\\'

-- The other bytes, in order.
unfoldable pub solid : Text → Text
solid [] = []
solid (c ∷ cs) = let later = solid cs in if is_blank_or_backslash c then later else c ∷ later

unfoldable pub lexemes : List Token → Text
lexemes [] = []
lexemes (t ∷ ts) = t.lexeme ++ lexemes ts

solid-append : (v w : Text) → solid (v ++ w) ≡ solid v ++ solid w
unfolding solid
solid-append [] w = refl
solid-append (c ∷ v) w = elim (Bool-cases (is_blank_or_backslash c)) [
  | inl blank ↦ rw blank (solid-append v w)
  | inr kept ↦ rw kept (ap (λ t. c ∷ t) (solid-append v w))
]

solid-text_eq : (w v : Text) → solid v ≡ [] → text_eq w v ≡ true → solid w ≡ []
solid-text_eq w v empty h = ap solid ((text_eq_iff w v).0 h) ∙ empty

or-cases : (a b : Bool) → (a || b) ≡ true → (a ≡ true) ⊎ (b ≡ true)
or-cases true b h = inl refl
or-cases false b h = inr h

solid-is_gap : (w : Text) → is_gap w ≡ true → solid w ≡ []
unfolding solid is_gap
solid-is_gap [] h = refl
solid-is_gap (c ∷ []) h = ground (arith, h)
solid-is_gap (c ∷ d ∷ w) h =
    elim (or-cases (text_eq (c ∷ d ∷ w) (text "\\\n")) (text_eq (c ∷ d ∷ w) (text "\\\r\n")) h) [
      | inl short ↦ solid-text_eq (c ∷ d ∷ w) (text "\\\n") refl short
      | inr long ↦ solid-text_eq (c ∷ d ∷ w) (text "\\\r\n") refl long
    ]

append_nil : (w : Text) → w ++ [] ≡ w
append_nil [] = refl
append_nil (c ∷ w) = ap (λ t. c ∷ t) (append_nil w)

lexemes-snoc : (ts : List Token) (t : Token) → lexemes (ts ++ (t ∷ [])) ≡ lexemes ts ++ t.lexeme
unfolding lexemes
lexemes-snoc [] t = append_nil t.lexeme
lexemes-snoc (u ∷ ts) t =
    ap (λ w. u.lexeme ++ w) (lexemes-snoc ts t) ∙ sym (append_assoc u.lexeme (lexemes ts) t.lexeme)

-- What was read, but for whitespace and backslashes, is in the lexemes.
Woven-solid :
    (source : Text) {ts : List Token} {k : Cursor} (h : Woven source ts k)
    → solid (lexemes ts) ≡ solid (Woven-ReadTo source h).0
unfolding solid lexemes Woven-ReadTo
Woven-solid source begin = refl
Woven-solid source (gap w g r h) =
    let before = (Woven-ReadTo source h).0 in
    Woven-solid source h
    ∙ sym (append_nil (solid before))
    ∙ ap (λ t. solid before ++ t) (sym (solid-is_gap w g))
    ∙ sym (solid-append before w)
Woven-solid source (token {ts = ts} {k = k} {k' = k'} type w r h) =
    let before = (Woven-ReadTo source h).0 in
    ap solid (lexemes-snoc ts (token_at type w k k'))
    ∙ solid-append (lexemes ts) w
    ∙ ap (λ t. t ++ solid w) (Woven-solid source h)
    ∙ sym (solid-append before w)

-- No byte other than whitespace and backslashes is left out, repeated or moved: the lexemes one after
-- another have the same bytes, those apart, as the source.
pub solid-tokenize :
    (source : Text) (ts : List Token)
    → tokenize source ≡ some ts
    → solid (lexemes ts) ≡ solid source
solid-tokenize source ts h =
    let found = tokenize-Woven source in
    let same : found.0 ≡ ts = some_inj (sym found.2 ∙ h) in
    let read = Woven-ReadTo source found.3 in
    let all : source ≡ read.0 = read.1.0 ∙ ap (λ t. read.0 ++ t) found.4 ∙ append_nil read.0 in
    ap (λ us. solid (lexemes us)) (sym same) ∙ Woven-solid source found.3 ∙ ap solid (sym all)
