-- ===== src/Lexer/Scanner/Positions.antt =====
-- Lines and columns counted from a source: the newlines before a place, and the characters on its
-- line before it.
use cythonpp.Prelude.{
  ℕ, suc, ◌+◌, ◌≡◌, refl, ap, ◌∙◌, Bool, false, ◌||◌, [], ◌∷◌, ◌==◌, if◌then◌else◌, Bool-cases, inl,
  inr, arith,
}
use cythonpp.Prelude.Text.{Text}
use cythonpp.Lexer.Scanner.Cursor.{is_continuation, line_past, column_past}
use cythonpp.Lexer.Scanner.Reads.{line_after, column_after}

unfoldable pub newlines : Text → ℕ
newlines [] = 0
newlines (c ∷ cs) = (if c == b'\n' then 1 else 0) + newlines cs

-- The characters of a text in UTF-8: its bytes that continue none.
unfoldable pub characters : Text → ℕ
characters [] = 0
characters (c ∷ cs) = (if is_continuation c then 0 else 1) + characters cs

unfoldable has_newline : Text → Bool
has_newline [] = false
has_newline (c ∷ cs) = c == b'\n' || has_newline cs

-- What stands after the last newline.
unfoldable pub last_line : Text → Text
unfolding has_newline
last_line [] = []
last_line (c ∷ cs) = let later = last_line cs in if has_newline (c ∷ cs) then later else c ∷ cs

pub line_after-newlines : (w : Text) (l : ℕ) → line_after w l ≡ l + newlines w
unfolding line_after newlines
line_after-newlines [] l = omega arith
line_after-newlines (c ∷ cs) l = ground (arith, line_after-newlines cs (line_past c l))

last_line-whole : (w : Text) → has_newline w ≡ false → last_line w ≡ w
unfolding last_line
last_line-whole [] h = refl
last_line-whole (c ∷ cs) h = rw (last_line, h) refl

column_after-characters :
    (w : Text) (c : ℕ)
    → column_after w c
      ≡ (if has_newline w then suc (characters (last_line w)) else c + characters w)
unfolding column_after has_newline last_line characters
column_after-characters [] c = omega arith
column_after-characters (a ∷ w) c =
    let rest = column_after-characters w (column_past a c) in
    elim (Bool-cases (has_newline w)) [
      | inl later ↦ ground (arith, rest, later)
      | inr none_later ↦
          let whole = last_line-whole w none_later in
          ground (arith, rest, none_later, ap characters whole)
    ]

pub column_after-last_line : (w : Text) → column_after w 1 ≡ suc (characters (last_line w))
column_after-last_line w = elim (Bool-cases (has_newline w)) [
  | inl found ↦ column_after-characters w 1 ∙ rw found refl
  | inr plain ↦ column_after-characters w 1 ∙ rw (plain, last_line-whole w plain) (omega arith)
]
