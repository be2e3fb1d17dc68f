-- ===== src/Lexer/Scanner/Cursor.antt =====
-- src/domain/lexer/lexer.cpp: the position of the scanner. An offset in the source is the text from
-- it on, so that the byte it names is the first of that text.
use cythonpp.Prelude.{
  ℕ, zero, suc, ◌-◌, Bool, true, false, ◌&&◌, leb, [], ◌∷◌, ◌==◌, length, if◌then◌else◌,
}
use cythonpp.Prelude.Text.{Text}
use cythonpp.Lexer.Operators.{take}

pub record Cursor : Type 0 where
  pub ahead : Text
  pub line : ℕ
  pub column : ℕ

abbrev pub start_of : Text → Cursor
start_of source = record { ahead = source; line = 1; column = 1 }

abbrev pub byte_at : ℕ → Text → ℕ
byte_at n [] = 0
byte_at zero (c ∷ cs) = c
byte_at (suc n) (c ∷ cs) = byte_at n cs

-- Past the end it yields 0.
abbrev pub peek : ℕ → Cursor → ℕ
peek offset k = byte_at offset k.ahead

-- `(c & 0xC0) == 0x80` on a byte.
abbrev pub is_continuation : ℕ → Bool
is_continuation c = leb 0x80 c && leb c 0xBF

abbrev pub line_past : ℕ → ℕ → ℕ
line_past c line = if c == b'\n' then suc line else line

abbrev pub column_past : ℕ → ℕ → ℕ
column_past c column = if c == b'\n' then 1 else if is_continuation c then column else suc column

abbrev pub rest_of : Text → Text
rest_of [] = []
rest_of (c ∷ cs) = cs

unfoldable pub advance : Cursor → Cursor
advance k = record {
  ahead = rest_of k.ahead;
  line = line_past (peek 0 k) k.line;
  column = column_past (peek 0 k) k.column;
}

unfoldable pub advance_by : ℕ → Cursor → Cursor
unfolding advance
advance_by zero k = k
advance_by (suc n) k = advance_by n (advance k)

-- A loop that advances while a test holds of the next byte, over the text ahead.
unfoldable pub advance_over : (ℕ → Bool) → Text → Cursor → Cursor
unfolding advance
advance_over test [] k = k
advance_over test (c ∷ cs) k = elim (test c) [ true ↦ advance_over test cs (advance k) | false ↦ k ]

abbrev pub advance_while : (ℕ → Bool) → Cursor → Cursor
advance_while test k = advance_over test k.ahead k

-- `source_.substr(start, position_ - start)`
abbrev pub slice : Cursor → Cursor → Text
slice start now = take (length start.ahead - length now.ahead) start.ahead
