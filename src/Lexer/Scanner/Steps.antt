-- ===== src/Lexer/Scanner/Steps.antt =====
-- What the tests of the loops say of the next bytes.
use cythonpp.Prelude.{ℕ, ◌≡◌, ◌≢◌, Bool, true, false, ◌∷◌, ◌==◌, inl, inr, arith}
use cythonpp.Prelude.Text.{Text}
use cythonpp.Lexer.Scanner.Bytes.{is_identifier_start}
use cythonpp.Lexer.Scanner.Cursor.{Cursor, peek}
use cythonpp.Lexer.Scanner.Fstrings.{
  at_end, fstring_step, fstring_field, fstring_doubled, fstring_escape, fstring_text, spec_step,
  spec_field, spec_text, is_field_blank, field_step, field_blank, field_colon, field_part,
  field_token, token_kind, a_comment, a_string, a_word, a_number, word_kind, string_prefix,
  fstring_prefix,
}
use cythonpp.Lexer.Scanner.Tokenize.{
  is_blank, is_line_continuation, next_step, blank, line_end, continues, a_token, line_start, ends,
}
use cythonpp.Lexer.Scanner.Reads.{ahead-cases}
use cythonpp.Lexer.Scanner.Numbers.{starts_number}

-- A cursor that is not at the end has a byte ahead.
pub unended : (k : Cursor) → at_end k ≡ false → (c : ℕ) × (cs : Text) × (k.ahead ≡ c ∷ cs)
unended k h = elim (ahead-cases k.ahead) [
  | inl e ↦ let clash : true ≡ false = (rw e at h) in cc
  | inr found ↦ found
]

pub fstring_escape-at_end :
    (q : ℕ) (t : Bool) (k : Cursor) → fstring_step q t k ≡ fstring_escape → at_end k ≡ false
unfolding fstring_step
fstring_escape-at_end q t k h = ground arith

pub fstring_text-at_end :
    (q : ℕ) (t : Bool) (k : Cursor) → fstring_step q t k ≡ fstring_text → at_end k ≡ false
unfolding fstring_step
fstring_text-at_end q t k h = ground arith

pub fstring_doubled-peek :
    (q : ℕ) (t : Bool) (k : Cursor)
    → fstring_step q t k ≡ fstring_doubled
    → (peek 0 k ≢ 0) × (peek 1 k ≢ 0)
unfolding fstring_step
fstring_doubled-peek q t k h = (λ e. ground arith, λ e. ground arith)

pub fstring_field-peek :
    (q : ℕ) (t : Bool) (k : Cursor) → fstring_step q t k ≡ fstring_field → (peek 0 k == b'{') ≡ true
unfolding fstring_step
fstring_field-peek q t k h = ground arith

pub spec_field-peek :
    (q : ℕ) (t : Bool) (k : Cursor) → spec_step q t k ≡ spec_field → (peek 0 k == b'{') ≡ true
unfolding spec_step
spec_field-peek q t k h = ground arith

pub spec_text-at_end :
    (q : ℕ) (t : Bool) (k : Cursor) → spec_step q t k ≡ spec_text → at_end k ≡ false
unfolding spec_step
spec_text-at_end q t k h = ground arith

pub field_blank-peek :
    (b : Bool) (k : Cursor) → field_step b k ≡ field_blank → is_field_blank (peek 0 k) ≡ true
unfolding field_step
field_blank-peek b k h = ground arith

pub field_colon-peek :
    (b : Bool) (k : Cursor) → field_step b k ≡ field_colon → (peek 0 k == b':') ≡ true
unfolding field_step
field_colon-peek b k h = ground arith

pub field_part-at_end : (b : Bool) (k : Cursor) → field_step b k ≡ field_part → at_end k ≡ false
unfolding field_step
field_part-at_end b k h = ground arith

pub field_token-at_end : (b : Bool) (k : Cursor) → field_step b k ≡ field_token → at_end k ≡ false
unfolding field_step
field_token-at_end b k h = ground arith

pub a_comment-peek : (k : Cursor) → token_kind k ≡ a_comment → (peek 0 k == b'#') ≡ true
unfolding token_kind
a_comment-peek k h = ground arith

pub a_string-peek : (k : Cursor) → token_kind k ≡ a_string → peek 0 k ≢ 0
unfolding token_kind
a_string-peek k h = λ e. ground arith

pub a_word-peek : (k : Cursor) → token_kind k ≡ a_word → is_identifier_start (peek 0 k) ≡ true
unfolding token_kind
a_word-peek k h = ground arith

pub a_number-starts_number : (k : Cursor) → token_kind k ≡ a_number → starts_number k ≡ true
unfolding token_kind
a_number-starts_number k h = ground arith

pub string_prefix-next : (w : Text) (c : ℕ) → word_kind w c ≡ string_prefix → c ≢ 0
unfolding word_kind
string_prefix-next w c h = λ e. ground arith

pub fstring_prefix-next : (w : Text) (c : ℕ) → word_kind w c ≡ fstring_prefix → c ≢ 0
unfolding word_kind
fstring_prefix-next w c h = λ e. ground arith

pub blank-peek : (b : Bool) (k : Cursor) → next_step b k ≡ blank → is_blank (peek 0 k) ≡ true
unfolding next_step
blank-peek b k h = ground arith

pub line_end-peek : (b : Bool) (k : Cursor) → next_step b k ≡ line_end → (peek 0 k == b'\n') ≡ true
unfolding next_step
line_end-peek b k h = ground arith

pub continues-peek :
    (b : Bool) (k : Cursor) → next_step b k ≡ continues → is_line_continuation k ≡ true
unfolding next_step
continues-peek b k h = ground arith

pub a_token-at_end : (b : Bool) (k : Cursor) → next_step b k ≡ a_token → at_end k ≡ false
unfolding next_step
a_token-at_end b k h = ground arith

pub line_start-flag : (b : Bool) (k : Cursor) → next_step b k ≡ line_start → b ≡ true
unfolding next_step
line_start-flag b k h = ground arith

pub ends-at_end : (b : Bool) (k : Cursor) → next_step b k ≡ ends → at_end k ≡ true
unfolding next_step
ends-at_end b k h = ground arith
