-- ===== src/Semantic/Literal.antt =====
-- src/domain/semantic/literal_type.cpp: the types of literals, and the check that an integer literal
-- fits 64 bits. Characters are bytes.
pub mod Bound
pub mod Tests
use cythonpp.Prelude.{
  ℕ, zero, suc, ◌+◌, ◌-◌, ◌*◌, ◌/◌, ◌%◌, ◌^◌, Bool, true, false, ◌&&◌, ◌||◌, Option, none, some,
  List, [], ◌∷◌, ltb, leb, ◌==◌, if◌then◌else◌,
}
use cythonpp.Prelude.Text.{Text}
use cythonpp.Semantic.Kind.{unknown, none_type, bool, int, float, complex, str, bytes}
use cythonpp.Semantic.Kind
use cythonpp.Semantic.PyType.{PyType, of_kind}
use cythonpp.Lexer.TokenType.{
  TokenType, literal_int, literal_float, literal_complex, literal_string, literal_bytes, bool_true,
  bool_false, keyword_none, ellipsis,
}

unfoldable pub literal_type : TokenType → PyType
literal_type literal_int = of_kind int
literal_type literal_float = of_kind float
literal_type literal_complex = of_kind complex
literal_type literal_string = of_kind str
literal_type literal_bytes = of_kind bytes
literal_type bool_true = of_kind bool
literal_type bool_false = of_kind bool
literal_type keyword_none = of_kind none_type
literal_type ellipsis = of_kind Kind.ellipsis
literal_type _ = of_kind unknown

-- The digit that a character stands for, up to f.
pub digit_of : ℕ → Option ℕ
digit_of c =
    if leb 48 c && leb c 57
    then some (c - 48)
    else if leb 97 c && leb c 102
    then some (c - 97 + 10)
    else if leb 65 c && leb c 70
    then some (c - 65 + 10)
    else none

-- The characters without underscores.
pub digits_of : Text → Text
digits_of [] = []
digits_of (c ∷ cs) = if c == 95 then digits_of cs else c ∷ digits_of cs

abbrev pub is_either : ℕ → ℕ → ℕ → Bool
is_either c a b = c == a || c == b

-- The base after a leading zero: x, o or b in either case; 10 otherwise.
abbrev pub prefix_base : ℕ → ℕ
prefix_base c =
    if is_either c 120 88
    then 16
    else if is_either c 111 79
    then 8
    else if is_either c 98 66
    then 2
    else 10

pub base_of : Text → ℕ
base_of (z ∷ c ∷ cs) = if z == 48 then prefix_base c else 10
base_of _ = 10

-- The characters from `index`: without the two of a prefix.
pub after_prefix : Text → Text
after_prefix (z ∷ c ∷ cs) =
    if z == 48 && (is_either c 120 88 || is_either c 111 79 || is_either c 98 66)
    then cs
    else z ∷ c ∷ cs
after_prefix cs = cs

-- The loop, with `unsigned long long value`.
pub fits_from : ℕ → ℕ → ℕ → Text → Bool
fits_from base limit value [] = true
fits_from base limit value (c ∷ cs) = elim (digit_of c) [
  | none ↦ true
  | some digit ↦
      let rest = fits_from base limit ((value * base + digit) % 2 ^ 64) cs in
      if ltb (limit / base) value
      then false
      else if value == limit / base && ltb (limit % base) digit
      then false
      else rest
]

abbrev pub limit_of : Bool → ℕ
limit_of allow_two_to_63 = if allow_two_to_63 then 2 ^ 63 else 2 ^ 63 - 1

pub integer_literal_fits_64_bits : Text → Bool → Bool
unfolding fits_from digits_of base_of after_prefix
integer_literal_fits_64_bits lexeme allow_two_to_63 =
    let digits = digits_of lexeme in
    fits_from (base_of digits) (limit_of allow_two_to_63) 0 (after_prefix digits)
